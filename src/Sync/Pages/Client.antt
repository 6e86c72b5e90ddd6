-- ===== src/Sync/Pages/Client.antt =====
-- What a client that holds the ETags of a collection has after it applies a sync result of
-- internal/carddavx/sync.go.
use go_contactd.Prelude.{
  ℕ, ◌&&◌, lit, Bytes, false, List, [], ◌∷◌, ◌++◌, Option, none, some, bytes_eq, bytes_eq_iff,
  if◌then◌else◌, any_row, first_row, ◌≡◌, refl, ap, ◌∙◌, arith, Bool-cases, inl, inr,
}
use go_contactd.Sync.Pages.{
  SyncRef, SyncResult, SyncPageItem, full_href, quoted, emitted_updates, emitted_deletions,
  page_items, page_result,
}
use go_contactd.Sync.Pages.Collapse.{
  has_href, latest, latest-none, last_only, Distinct, last_only-Distinct, latest-last_only,
  collapse-last_only,
}

-- The ETag that the client holds for each href.
abbrev pub View : Type 0
View = Bytes → Option Bytes

abbrev refreshed : Option SyncRef → Option Bytes → Option Bytes
refreshed none old = old
refreshed (some u) old = some u.etag

unfoldable pub apply_result : SyncResult → View → View
apply_result r v k =
    if any_row (λ (d : Bytes). bytes_eq d k) r.deleted
    then none
    else refreshed (first_row (λ (u : SyncRef). bytes_eq u.href k) r.updated) (v k)

-- What the last item of an href makes of it.
abbrev pub outcome : Option SyncPageItem → Option Bytes → Option Bytes
outcome none old = old
outcome (some it) old = if it.deleted then none else some (quoted it.etag_hex)

bytes_eq-append : (p s t : Bytes) → bytes_eq (p ++ s) (p ++ t) ≡ bytes_eq s t
bytes_eq-append [] s t = refl
bytes_eq-append (c ∷ p) s t = ground (arith, bytes_eq-append p s t)

no_deletion :
    (h : Bytes) (items : List SyncPageItem)
    → has_href h items ≡ false
    → any_row (λ (it : SyncPageItem). it.deleted && bytes_eq it.href h) items ≡ false
no_deletion h [] e = refl
no_deletion h (it ∷ rest) e = ground (arith, no_deletion h rest)

module _ (username slug : Bytes) where
  pub full_href-injective :
      (h k : Bytes)
      → bytes_eq (full_href username slug h) (full_href username slug k) ≡ bytes_eq h k
  full_href-injective h k = ground (
    arith,
    bytes_eq-append username (lit "/" ++ (slug ++ (lit "/" ++ h)))
        (lit "/" ++ (slug ++ (lit "/" ++ k))),
    bytes_eq-append slug (lit "/" ++ h) (lit "/" ++ k),
  )

  deletions-at :
      (h : Bytes) (items : List SyncPageItem)
      → any_row
          (λ (d : Bytes). bytes_eq d (full_href username slug h))
          (emitted_deletions username slug items)
        ≡ any_row (λ (it : SyncPageItem). it.deleted && bytes_eq it.href h) items
  unfolding emitted_deletions
  deletions-at h [] = refl
  deletions-at h (it ∷ rest) = ground (arith, deletions-at h rest, full_href-injective it.href h)

  updates-at :
      (h : Bytes) (items : List SyncPageItem) (old : Option Bytes)
      → Distinct items
      → (if any_row (λ (it : SyncPageItem). it.deleted && bytes_eq it.href h) items
          then none
          else refreshed
              (first_row
                (λ (u : SyncRef). bytes_eq u.href (full_href username slug h))
                (emitted_updates username slug items))
              old)
        ≡ outcome (latest h items) old
  unfolding emitted_updates
  updates-at h [] old d = refl
  updates-at h (it ∷ rest) old (once, d) = elim (Bool-cases (bytes_eq it.href h)) [
    | inl same ↦
        let last : has_href h rest ≡ false = rw (← (bytes_eq_iff it.href h).0 same) once in
        ground
          (arith, full_href-injective it.href h, latest-none h rest last, no_deletion h rest last)
    | inr other ↦ ground (arith, full_href-injective it.href h, updates-at h rest old d)
  ]

-- Applying the answer for a page leaves the client with what the last item of each href of the page
-- says, and with its old value for an href without an item.
pub apply_result-page_result :
    (b head : ℕ) (username slug : Bytes) (items : List SyncPageItem) (limit : ℕ) (v : View)
    (h : Bytes)
    → apply_result (page_result b head username slug items limit) v (full_href username slug h)
      ≡ outcome (latest h (page_items limit items)) (v (full_href username slug h))
unfolding apply_result page_result
apply_result-page_result b head username slug items limit v h =
    let page = page_items limit items in
    rw (collapse-last_only page, deletions-at username slug h (last_only page))
      (updates-at username slug h (last_only page) (v (full_href username slug h))
          (last_only-Distinct page)
        ∙ ap (λ o. outcome o (v (full_href username slug h))) (latest-last_only h page))
