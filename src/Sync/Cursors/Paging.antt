-- ===== src/Sync/Cursors/Paging.antt =====
-- The cursor cache of internal/carddavx/sync.go between two pages: what a truncated page leaves for
-- the next request.
use mathlib.Core.List.{append-nil}
use go_contactd.Prelude.{
  ℕ, ◌≤◌, ◌+◌, Bytes, true, false, List, [], ◌∷◌, ◌++◌, some, bytes_eq_refl, ◌≡◌, refl, ap, ◌∙◌,
  arith, Bool-cases, inl, inr, take-append-drop,
}
use go_contactd.Sync.Token.{SyncToken, format_sync_token}
use go_contactd.Sync.Pages.{
  SyncPageItem, SyncResult, page_result, page_items, sync_page_token_revision, is_truncated,
  remaining_items,
}
use go_contactd.Sync.Cursors.{
  SyncCursor, Page, Caps, expired, too_large, lookup_cursor, store_cursor, prune_expired_cursors,
  cursor_cache_over_cap, evict_cursors, put_cursor, build_paged_sync_result, take_cursor_page,
}

pub lookup-prune :
    (k : Bytes) (now : ℕ) (page : Page) (cur : SyncCursor)
    → lookup_cursor k page ≡ some cur
    → expired now cur ≡ false
    → lookup_cursor k (prune_expired_cursors now page) ≡ some cur
unfolding lookup_cursor prune_expired_cursors
lookup-prune k now [] cur e fresh = absurd (ground arith)
lookup-prune k now (x ∷ page) cur e fresh = ground (arith, lookup-prune k now page cur)

-- The items of a page and the items that its cursor keeps are all the items, in their order.
pub page_items-remaining_items :
    (limit : ℕ) (items : List SyncPageItem)
    → page_items limit items ++ remaining_items limit items ≡ items
page_items-remaining_items limit items = elim (Bool-cases (is_truncated limit items)) [
  | inl cut ↦ ground (arith, take-append-drop limit items)
  | inr whole ↦ ground (arith, append-nil items)
]

module _ (caps : Caps) where
  put_cursor-kept :
      (token : Bytes) (cur : SyncCursor) (now : ℕ) (page : Page)
      → too_large caps cur ≡ false
      → cursor_cache_over_cap caps (store_cursor token cur (prune_expired_cursors now page)) ≡ false
      → lookup_cursor token (put_cursor caps token cur now page) ≡ some cur
  unfolding put_cursor evict_cursors store_cursor lookup_cursor
  put_cursor-kept token cur now page small room = ground (arith, bytes_eq_refl token)

  -- The cursor that a truncated page leaves: the items after it and the head it was made at.
  abbrev pub rest_of_page : (b head : ℕ) → List SyncPageItem → (limit now : ℕ) → SyncCursor
  rest_of_page b head items limit now = record {
    addressbook_id = b;
    head_revision = head;
    expires_at = now + caps.ttl;
    items = remaining_items limit items;
  }

  pub built :
      (b head : ℕ) (username slug : Bytes) (items : List SyncPageItem) (limit now later : ℕ)
      (page : Page)
      → is_truncated limit items ≡ true
      → let out = page_result b head username slug items limit in
        let token =
          format_sync_token b (sync_page_token_revision head (page_items limit items) true) in
        build_paged_sync_result caps b head username slug items limit now later page ≡ (
          record out { sync_token = token },
          put_cursor caps token (rest_of_page b head items limit now) later page,
        )
  unfolding build_paged_sync_result page_result
  built b head username slug items limit now later page cut = ground (arith, cut)

  pub take-usable :
      (token : SyncToken) (username slug : Bytes) (limit t : ℕ) (page : Page) (cur : SyncCursor)
      → lookup_cursor (format_sync_token token.addressbook_id token.revision) page ≡ some cur
      → cur.addressbook_id ≡ token.addressbook_id
      → expired t cur ≡ false
      → (take_cursor_page caps token username slug limit t page).0
        ≡ some (page_result token.addressbook_id cur.head_revision username slug cur.items limit)
  unfolding take_cursor_page build_paged_sync_result
  take-usable token username slug limit t page cur found same fresh = ground (
    arith,
    lookup-prune (format_sync_token token.addressbook_id token.revision) t page cur found fresh,
  )

  -- A page that is cut leaves a cursor under the token that it answers with, when the cache has
  -- room for it. The next request with that token, before the cursor expires, gets the page of
  -- exactly the items that were left, made at the head of the first page.
  pub build_paged_sync_result-take_cursor_page :
      (b head : ℕ) (username slug : Bytes) (items : List SyncPageItem) (limit now later t : ℕ)
      (page : Page)
      → is_truncated limit items ≡ true
      → t ≤ now + caps.ttl
      → too_large caps (rest_of_page b head items limit now) ≡ false
      → cursor_cache_over_cap caps (
          store_cursor
            (format_sync_token b (sync_page_token_revision head (page_items limit items) true))
            (rest_of_page b head items limit now)
            (prune_expired_cursors later page))
        ≡ false
      → let (out, next) =
          build_paged_sync_result caps b head username slug items limit now later page in
        let revision = sync_page_token_revision head (page_items limit items) true in
        (out.sync_token ≡ format_sync_token b revision)
        × ((take_cursor_page caps
              (record { addressbook_id = b; revision = revision })
              username
              slug
              limit
              t
              next).0
            ≡ some (page_result b head username slug (remaining_items limit items) limit))
  build_paged_sync_result-take_cursor_page b head username slug items limit now later t page cut
        early small room =
      let revision = sync_page_token_revision head (page_items limit items) true in
      let cur = rest_of_page b head items limit now in
      let left = built b head username slug items limit now later page cut in
      (
        ap (λ (o : SyncResult × Page). o.0.sync_token) left,
        ap
              (λ (o : SyncResult × Page).
                (take_cursor_page caps (record { addressbook_id = b; revision = revision }) username
                  slug limit t o.1).0)
              left
            ∙ take-usable (record { addressbook_id = b; revision = revision }) username slug limit t
                _ cur (put_cursor-kept (format_sync_token b revision) cur later page small room)
                refl (ground (arith, early)),
      )
