-- ===== src/Tests/ChainRuns.antt =====
-- A run of a client that follows cut pages of internal/carddavx/sync.go.
use go_contactd.Prelude.{ℕ, Bytes, Bool, true, false, [], ◌∷◌, none, some, lit, ◌≡◌, refl, arith}
use go_contactd.Strings.{format_int}
use go_contactd.Sync.Token.{format_sync_token}
use go_contactd.Sync.Pages.{SyncPageItem, full_href, sync_page_token_revision}
use go_contactd.Sync.Pages.Collapse.{latest}
use go_contactd.Sync.Pages.Client.{View, outcome}
use go_contactd.Sync.Cursors.{
  SyncCursor, Page, default_caps, lookup_cursor, cursor_cache_over_cap, count_cursor_items,
}
use go_contactd.Sync.Cursors.Follow.{follow}
use go_contactd.Sync.Cursors.Chain.{follow-latest}

abbrev item : ℕ → Bytes → Bool → SyncPageItem
item n h deleted = record { revision = n; href = h; etag_hex = lit "aa"; deleted = deleted }

-- The head is 9; x is written twice and y is deleted.
abbrev cursor : SyncCursor
cursor = record {
  addressbook_id = 1;
  head_revision = 9;
  expires_at = 120;
  items = item 5 (lit "x") false ∷ item 6 (lit "y") true ∷ item 7 (lit "x") false ∷ [];
}

abbrev cache : Page
cache = (format_sync_token 1 4, cursor) ∷ []

follow-latest_example :
    (w : View) × (follow default_caps
        (lit "alice")
        (lit "contacts")
        1
        (100 ∷ 200 ∷ 300 ∷ [])
        (format_sync_token 1 4)
        cache
        (λ h. none)
      ≡ some (w, format_sync_token 1 (sync_page_token_revision 9 (cursor.items) false)))
    × ((h : Bytes)
        → w (full_href (lit "alice") (lit "contacts") h) ≡ outcome (latest h cursor.items) none)
unfolding lookup_cursor format_sync_token format_int cursor_cache_over_cap count_cursor_items
follow-latest_example =
    follow-latest default_caps (lit "alice") (lit "contacts") 1 1 (omega arith) (omega arith)
      (omega arith) (100 ∷ 200 ∷ 300 ∷ []) 4 cache (λ h. none) cursor (omega arith) (omega arith)
      (omega arith, (omega arith, (omega arith, tt))) refl refl refl
      (omega arith, (omega arith, (omega arith, tt))) (omega arith) (omega arith)
