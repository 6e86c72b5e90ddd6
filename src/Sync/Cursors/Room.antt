-- ===== src/Sync/Cursors/Room.antt =====
-- The room that a continuation has in the cursor cache of internal/carddavx/sync.go: a taken cursor
-- leaves more than the cursor of the items after its page needs.
use go_contactd.Prelude.{
  ℕ, zero, suc, ◌≤◌, ◌+◌, Bytes, true, false, List, [], ◌∷◌, Option, some, bytes_eq_refl, length,
  ◌≡◌, ap, ◌∙◌, arith, drop,
}
use go_contactd.Sync.Token.{SyncToken, format_sync_token}
use go_contactd.Sync.Pages.{
  SyncPageItem, SyncResult, page_items, sync_page_token_revision, is_truncated,
}
use go_contactd.Sync.Cursors.{
  SyncCursor, Page, Caps, expired, too_large, lookup_cursor, delete_cursor, store_cursor,
  prune_expired_cursors, count_cursor_items, cursor_cache_over_cap, evict_cursors, put_cursor,
  build_paged_sync_result, take_cursor_page,
}
use go_contactd.Sync.Cursors.Paging.{lookup-prune, rest_of_page, built}

-- The first cache is not larger than the second.
abbrev Fits : Page → Page → Type 0
Fits q p = (length q ≤ length p) × (count_cursor_items q ≤ count_cursor_items p)

delete_cursor-Fits : (k : Bytes) (page : Page) → Fits (delete_cursor k page) page
unfolding delete_cursor count_cursor_items
delete_cursor-Fits k [] = ground arith
delete_cursor-Fits k (e ∷ page) = ground (arith, delete_cursor-Fits k page)

prune_expired_cursors-Fits : (t : ℕ) (page : Page) → Fits (prune_expired_cursors t page) page
unfolding prune_expired_cursors count_cursor_items
prune_expired_cursors-Fits t [] = ground arith
prune_expired_cursors-Fits t (e ∷ page) = ground (arith, prune_expired_cursors-Fits t page)

lookup-delete_cursor :
    (k : Bytes) (page : Page) (cur : SyncCursor)
    → lookup_cursor k page ≡ some cur
    → (length (delete_cursor k page) + 1 ≤ length page)
      × (count_cursor_items (delete_cursor k page) + length cur.items ≤ count_cursor_items page)
unfolding lookup_cursor delete_cursor count_cursor_items
lookup-delete_cursor k [] cur e = absurd (ground arith)
lookup-delete_cursor k (x ∷ page) cur e =
    ground (arith, lookup-delete_cursor k page cur, delete_cursor-Fits k page)

length-drop : (n : ℕ) (items : List SyncPageItem) → length (drop n items) ≤ length items
length-drop zero items = omega arith
length-drop (suc n) [] = omega arith
length-drop (suc n) (it ∷ items) = ground (arith, length-drop n items)

module _ (caps : Caps) where
  Fits-within :
      (q p : Page)
      → Fits q p
      → cursor_cache_over_cap caps p ≡ false
      → cursor_cache_over_cap caps q ≡ false
  unfolding cursor_cache_over_cap
  Fits-within q p fits within = ground arith

  put_cursor-stored :
      (token : Bytes) (cur : SyncCursor) (now : ℕ) (page : Page)
      → too_large caps cur ≡ false
      → cursor_cache_over_cap caps (store_cursor token cur (prune_expired_cursors now page)) ≡ false
      → put_cursor caps token cur now page ≡ store_cursor token cur (prune_expired_cursors now page)
  unfolding put_cursor evict_cursors store_cursor
  put_cursor-stored token cur now page small room = ground arith

  module _ (token : SyncToken) (username slug : Bytes) (limit t : ℕ) (page : Page)
      (cur : SyncCursor) where
    abbrev raw : Bytes
    raw = format_sync_token token.addressbook_id token.revision

    abbrev pub continuation : Bytes
    continuation =
        format_sync_token token.addressbook_id
          (sync_page_token_revision cur.head_revision (page_items limit cur.items) true)

    abbrev pub left : SyncCursor
    left = rest_of_page caps token.addressbook_id cur.head_revision cur.items limit t

    -- The cache once the cursor has been taken.
    abbrev emptied : Page
    emptied = delete_cursor raw (prune_expired_cursors t page)

    continuation-Fits :
        lookup_cursor raw page ≡ some cur
        → expired t cur ≡ false
        → is_truncated limit cur.items ≡ true
        → Fits (store_cursor continuation left (prune_expired_cursors t emptied)) page
    unfolding store_cursor count_cursor_items
    continuation-Fits found fresh cut =
        let kept = prune_expired_cursors t page in
        let again = prune_expired_cursors t emptied in
        ground (
          arith,
          lookup-delete_cursor raw kept cur (lookup-prune raw t page cur found fresh),
          prune_expired_cursors-Fits t page,
          prune_expired_cursors-Fits t emptied,
          delete_cursor-Fits continuation again,
          length-drop limit cur.items,
        )

    small-left :
        lookup_cursor raw page ≡ some cur
        → cursor_cache_over_cap caps page ≡ false
        → too_large caps left ≡ false
    unfolding cursor_cache_over_cap
    small-left found within =
        ground (arith, lookup-delete_cursor raw page cur found, length-drop limit cur.items)

    taken :
        lookup_cursor raw page ≡ some cur
        → cur.addressbook_id ≡ token.addressbook_id
        → expired t cur ≡ false
        → take_cursor_page caps token username slug limit t page ≡ (
          some
              (build_paged_sync_result caps token.addressbook_id cur.head_revision username slug
                cur.items limit t t emptied).0,
          (build_paged_sync_result caps token.addressbook_id cur.head_revision username slug
              cur.items limit t t emptied).1,
        )
    unfolding take_cursor_page
    taken found same fresh = ground (arith, lookup-prune raw t page cur found fresh)

    -- Taking the cursor of a page that is cut leaves one for the items after it, and the cache
    -- within its caps.
    pub take_cursor_page-left :
        lookup_cursor raw page ≡ some cur
        → cur.addressbook_id ≡ token.addressbook_id
        → expired t cur ≡ false
        → is_truncated limit cur.items ≡ true
        → cursor_cache_over_cap caps page ≡ false
        → let next = (take_cursor_page caps token username slug limit t page).1 in
          (lookup_cursor continuation next ≡ some left) × (cursor_cache_over_cap caps next ≡ false)
    unfolding store_cursor lookup_cursor
    take_cursor_page-left found same fresh cut within =
        let room =
          Fits-within (store_cursor continuation left (prune_expired_cursors t emptied)) page
            (continuation-Fits found fresh cut) within in
        let stored = put_cursor-stored continuation left t emptied (small-left found within) room in
        let cleared =
          ap (λ (o : Option SyncResult × Page). o.1) (taken found same fresh)
          ∙ (ap (λ (o : SyncResult × Page). o.1)
                (built caps token.addressbook_id cur.head_revision username slug cur.items limit t t
                  emptied cut)
              ∙ stored) in
        (
          ap (lookup_cursor continuation) cleared ∙ ground (arith, bytes_eq_refl continuation),
          ap (cursor_cache_over_cap caps) cleared ∙ room,
        )
