-- ===== src/Sync/Cursors.antt =====
-- The cache of page cursors in internal/carddavx/sync.go. The lock `mu` is held by each operation
-- from its first step to its last, so operations do not interleave. `page` is a Go map: its order is
-- not observed, since `oldest_cursor_key` breaks ties by the key.
pub mod Eviction
pub mod Paging
pub mod Chain
pub mod Follow
pub mod Oldest
pub mod Room
use go_contactd.Prelude.{
  ℕ, zero, suc, ◌+◌, ◌==◌, ◌&&◌, ◌||◌, not, ltb, Bytes, Bool, true, false, List, [], ◌∷◌, Option,
  none, some, bytes_eq, bytes_leb, if◌then◌else◌, length, delete_rows,
}
use go_contactd.Sync.Token.{SyncToken, format_sync_token}
use go_contactd.Sync.Pages.{SyncPageItem, SyncResult, page_result, is_truncated, remaining_items}

pub record SyncCursor : Type 0 where
  pub addressbook_id : ℕ
  pub head_revision : ℕ
  pub expires_at : ℕ
  pub items : List SyncPageItem

abbrev pub Page : Type 0
Page = List (Bytes × SyncCursor)

-- syncCursorTTL, syncCursorCacheMaxEntries and syncCursorCacheMaxTotalItems; ticks are seconds. The
-- last two are variables of the package; 0 turns a cap off.
pub record Caps : Type 0 where
  pub ttl : ℕ
  pub max_entries : ℕ
  pub max_total_items : ℕ

abbrev pub default_caps : Caps
default_caps = record { ttl = 120; max_entries = 256; max_total_items = 200000 }

unfoldable pub lookup_cursor : Bytes → Page → Option SyncCursor
lookup_cursor k [] = none
lookup_cursor k ((j, cur) ∷ page) = if bytes_eq j k then some cur else lookup_cursor k page

unfoldable pub delete_cursor : Bytes → Page → Page
delete_cursor k page = delete_rows (λ (e : Bytes × SyncCursor). bytes_eq e.0 k) page

-- s.page[token] = cur
unfoldable pub store_cursor : Bytes → SyncCursor → Page → Page
store_cursor k cur page = (k, cur) ∷ delete_cursor k page

-- now.After(cur.ExpiresAt)
abbrev pub expired : ℕ → SyncCursor → Bool
expired now cur = ltb cur.expires_at now

unfoldable pub prune_expired_cursors : (now : ℕ) → Page → Page
prune_expired_cursors now page = delete_rows (λ (e : Bytes × SyncCursor). expired now e.1) page

unfoldable pub count_cursor_items : Page → ℕ
count_cursor_items [] = 0
count_cursor_items ((_, cur) ∷ page) = length cur.items + count_cursor_items page

-- Whether the loop of oldestCursorKeyLocked takes (k, cur) over the best so far.
abbrev pub is_older : Bytes → SyncCursor → Bytes × SyncCursor → Bool
is_older k cur best =
    ltb cur.expires_at best.1.expires_at
    || cur.expires_at == best.1.expires_at && not (bytes_leb best.0 k)

abbrev pub oldest_from : Bytes × SyncCursor → Page → Bytes
oldest_from best [] = best.0
oldest_from best ((k, cur) ∷ page) =
    oldest_from (if is_older k cur best then (k, cur) else best) page

unfoldable pub oldest_cursor_key : Page → Option Bytes
oldest_cursor_key [] = none
oldest_cursor_key (e ∷ page) = some (oldest_from e page)

module _ (caps : Caps) where
  unfoldable pub cursor_cache_over_cap : Page → Bool
  cursor_cache_over_cap page =
      ltb 0 caps.max_entries && ltb caps.max_entries (length page)
      || ltb 0 caps.max_total_items && ltb caps.max_total_items (count_cursor_items page)

  -- The loop deletes a cursor each round: as many rounds as there are cursors are enough.
  unfoldable pub evict_cursors : (fuel : ℕ) → Page → Page
  evict_cursors zero page = page
  evict_cursors (suc fuel) page = elim (cursor_cache_over_cap page) [
    | false ↦ page
    | true ↦ elim (oldest_cursor_key page) [
      | none ↦ page
      | some victim ↦ evict_cursors fuel (delete_cursor victim page)
    ]
  ]

  abbrev pub evict_cursors_to_cap : Page → Page
  evict_cursors_to_cap page = evict_cursors (length page) page

  -- `syncCursorCacheMaxTotalItems > 0 && len(cur.Items) > syncCursorCacheMaxTotalItems`
  abbrev pub too_large : SyncCursor → Bool
  too_large cur = ltb 0 caps.max_total_items && ltb caps.max_total_items (length cur.items)

  unfoldable pub put_cursor : (token : Bytes) → SyncCursor → (now : ℕ) → Page → Page
  put_cursor token cur now page =
      let kept = prune_expired_cursors now page in
      if too_large cur then kept else evict_cursors_to_cap (store_cursor token cur kept)

  -- buildPagedSyncResult: `now` is the clock at ExpiresAt, `later` the one that putCursor reads.
  unfoldable pub build_paged_sync_result :
      (addressbook_id head : ℕ) (username slug : Bytes)
      → List SyncPageItem
      → (limit now later : ℕ) → Page
      → SyncResult × Page
  build_paged_sync_result b head username slug items limit now later page =
      let out = page_result b head username slug items limit in
      (
        out,
        if is_truncated limit items
            then put_cursor out.sync_token
                (record {
                  addressbook_id = b;
                  head_revision = head;
                  expires_at = now + caps.ttl;
                  items = remaining_items limit items;
                })
                later page
            else page,
      )

  -- takeCursorPage once the cursor has been found.
  abbrev usable : (addressbook_id now : ℕ) → Option SyncCursor → Option SyncCursor
  usable b now none = none
  usable b now (some cur) =
      if not (cur.addressbook_id == b) || expired now cur then none else some cur

  abbrev take_from :
      (token : SyncToken) (username slug : Bytes) (limit now : ℕ) (page : Page)
      → Option SyncCursor
      → Option SyncResult × Page
  take_from token username slug limit now page none = (none, page)
  take_from token username slug limit now page (some cur) =
      let raw = format_sync_token token.addressbook_id token.revision in
      let (out, page') =
        build_paged_sync_result token.addressbook_id cur.head_revision username slug cur.items limit
          now now (delete_cursor raw page) in
      (some out, page')

  -- takeCursorPage: `none` is `ok == false`.
  unfoldable pub take_cursor_page :
      (token : SyncToken) (username slug : Bytes) (limit now : ℕ) → Page → Option SyncResult × Page
  take_cursor_page token username slug limit now page =
      let raw = format_sync_token token.addressbook_id token.revision in
      let kept = prune_expired_cursors now page in
      take_from token username slug limit now kept
        (usable token.addressbook_id now (lookup_cursor raw kept))
