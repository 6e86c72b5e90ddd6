-- ===== src/Sync/Pages/Collapse.antt =====
-- collapseSyncPageItems of internal/carddavx/sync.go, against a description with no indices.
use go_contactd.Prelude.{
  ℕ, suc, ◌≤◌, Bytes, Bool, true, false, List, [], ◌∷◌, Option, none, some, bytes_eq, bytes_eq_iff,
  bytes_eq_refl, if◌then◌else◌, any_row, ◌≡◌, refl, arith, Bool-cases, inl, inr,
}
use go_contactd.Sync.Pages.{
  SyncPageItem, IndexMap, assign, last_indices, keep_last, collapse_sync_page_items,
}

abbrev pub has_href : Bytes → List SyncPageItem → Bool
has_href h items = any_row (λ (it : SyncPageItem). bytes_eq it.href h) items

-- The items with no later item of the same href.
abbrev pub last_only : List SyncPageItem → List SyncPageItem
last_only [] = []
last_only (it ∷ rest) = if has_href it.href rest then last_only rest else it ∷ last_only rest

last_indices-ne :
    (i : ℕ) (items : List SyncPageItem) (m : IndexMap) (h : Bytes)
    → has_href h items ≡ false
    → last_indices i items m h ≡ m h
unfolding last_indices
last_indices-ne i [] m h e = refl
last_indices-ne i (it ∷ rest) m h e =
    ground (arith, last_indices-ne (suc i) rest (assign it.href i m) h)

last_indices-ge :
    (i : ℕ) (items : List SyncPageItem) (m : IndexMap) (h : Bytes)
    → has_href h items ≡ true
    → i ≤ last_indices i items m h
unfolding last_indices
last_indices-ge i [] m h e = absurd (cc)
last_indices-ge i (it ∷ rest) m h e = elim (Bool-cases (has_href h rest)) [
  | inl later ↦ omega (arith, last_indices-ge (suc i) rest (assign it.href i m) h later)
  | inr last ↦ ground (arith, last_indices-ne (suc i) rest (assign it.href i m) h)
]

keep_last-last_only :
    (i : ℕ) (items : List SyncPageItem) (m : IndexMap)
    → keep_last (last_indices i items m) i items ≡ last_only items
unfolding last_indices keep_last
keep_last-last_only i [] m = refl
keep_last-last_only i (it ∷ rest) m =
    let m' = assign it.href i m in
    ground (
      arith,
      keep_last-last_only (suc i) rest m',
      last_indices-ne (suc i) rest m' it.href,
      last_indices-ge (suc i) rest m' it.href,
      bytes_eq_refl it.href,
    )

-- The two loops over indices keep exactly the items that no later item of the page overrides, in
-- their order.
pub collapse-last_only :
    (items : List SyncPageItem) → collapse_sync_page_items items ≡ last_only items
unfolding collapse_sync_page_items
collapse-last_only items = keep_last-last_only 0 items (λ h. 0)

-- The last item of an href.
abbrev pub latest : Bytes → List SyncPageItem → Option SyncPageItem
latest h [] = none
latest h (it ∷ rest) = elim (latest h rest) [
  | some later ↦ some later
  | none ↦ if bytes_eq it.href h then some it else none
]

-- Each href once.
abbrev pub Distinct : List SyncPageItem → Type 0
Distinct [] = Unit
Distinct (it ∷ rest) = (has_href it.href rest ≡ false) × Distinct rest

has_href-last_only :
    (h : Bytes) (items : List SyncPageItem) → has_href h (last_only items) ≡ has_href h items
has_href-last_only h [] = refl
has_href-last_only h (it ∷ rest) = ground (arith, has_href-last_only h rest, bytes_eq_iff it.href h)

pub last_only-Distinct : (items : List SyncPageItem) → Distinct (last_only items)
last_only-Distinct [] = tt
last_only-Distinct (it ∷ rest) = elim (Bool-cases (has_href it.href rest)) [
  | inl later ↦ rw later (last_only-Distinct rest)
  | inr last ↦ rw last (rw has_href-last_only last, last_only-Distinct rest)
]

pub latest-none :
    (h : Bytes) (items : List SyncPageItem) → has_href h items ≡ false → latest h items ≡ none
latest-none h [] e = refl
latest-none h (it ∷ rest) e = ground (arith, latest-none h rest)

latest-some :
    (h : Bytes) (items : List SyncPageItem)
    → has_href h items ≡ true
    → (it : SyncPageItem) × (latest h items ≡ some it)
latest-some h [] e = absurd (cc)
latest-some h (it ∷ rest) e = elim (Bool-cases (has_href h rest)) [
  | inl later ↦ let (last, found) = latest-some h rest later in (last, rw found)
  | inr none_later ↦ (it, ground (arith, latest-none h rest))
]

has_href-eq :
    (h k : Bytes) (items : List SyncPageItem)
    → bytes_eq h k ≡ true
    → has_href h items ≡ true
    → has_href k items ≡ true
has_href-eq h k items e t = rw (← (bytes_eq_iff h k).0 e) t

-- Collapsing keeps the last item of each href.
pub latest-last_only :
    (h : Bytes) (items : List SyncPageItem) → latest h (last_only items) ≡ latest h items
latest-last_only h [] = refl
latest-last_only h (it ∷ rest) = elim (Bool-cases (has_href it.href rest)) [
  | inr last ↦ ground (arith, latest-last_only h rest)
  | inl later ↦ elim (Bool-cases (bytes_eq it.href h)) [
    | inr other ↦ ground (arith, latest-last_only h rest)
    | inl same ↦
        let (last, found) = latest-some h rest (has_href-eq it.href h rest same later) in
        ground (arith, latest-last_only h rest, found)
  ]
]
