-- ===== src/Tests/SyncRuns.antt =====
-- Runs of internal/carddavx/sync.go.
use mathlib.Core.Option
use go_contactd.Prelude.{
  ℕ, Bytes, Bool, true, false, List, [], ◌∷◌, ◌++◌, none, some, lit, ◌≡◌, refl, if◌then◌else◌,
  arith, bytes_eq, map,
}
use go_contactd.Strings.{
  has_prefix, trim_prefix, spaces, matched, trim_front, trim_back, trim_space, is_blank, split,
  format_int, parse_int,
}
use go_contactd.Store.Tables.{ChangeRow}
use go_contactd.Store.Exec.{Conn, exec, set_foreign_keys, apply_conn_pragmas, with_immediate_tx}
use go_contactd.Store.Statements.{
  find_card, find_book, insert_card, update_card, bump_revision, select_revision, insert_change,
}
use go_contactd.Store.Vcard.{canonicalize_vcard, compute_etag_hex, replace_all}
use go_contactd.Store.Cards.{precondition_fails, write_card, put_card_conn, put_card_checked}
use go_contactd.Store.Changes.{to_change, list_card_changes_since}
use go_contactd.Store.Books.{find_addressbook, get_addressbook_by_username_slug}
use go_contactd.Sync.Token.{SyncToken, format_sync_token, parse_sync_token}
use go_contactd.Sync.Token
use go_contactd.Sync.Token.Roundtrip.{parse_sync_token-format_sync_token}
use go_contactd.Sync.Pages.{
  SyncPageItem, SyncResult, full_href, quoted, collapse_sync_page_items, sync_page_token_revision,
  emitted_updates, emitted_deletions, page_items, remaining_items, page_result,
}
use go_contactd.Sync.Pages.Collapse.{last_only, collapse-last_only, latest, latest-last_only}
use go_contactd.Sync.Pages.Client.{
  View, apply_result, apply_result-page_result, full_href-injective,
}
use go_contactd.Sync.Cursors.{
  SyncCursor, Page, default_caps, Caps, lookup_cursor, delete_cursor, store_cursor,
  prune_expired_cursors, count_cursor_items, cursor_cache_over_cap, evict_cursors_to_cap,
  build_paged_sync_result, take_cursor_page,
}
use go_contactd.Sync.Cursors.Eviction.{Evicts, Within, evict_cursors_to_cap-Evicts}
use go_contactd.Sync.Cursors.Paging.{
  build_paged_sync_result-take_cursor_page, page_items-remaining_items,
}
use go_contactd.Sync.History.{Since, etag_at, revision_at}
use go_contactd.Sync.History.Steps.{Reach, here, next, put, Since-Reach}
use go_contactd.Store.Books.Keys.{DistinctIds}
use go_contactd.Sync.Service.{
  State, SyncReply, ok, sync_collection, is_stale, changes_sync, resume, token_sync,
}
use go_contactd.Sync.Service.Items.{is_stale-lost}
use go_contactd.Sync.Service.Incremental.{Since-start}
use go_contactd.Sync.Service.Current.{incremental_sync}
use go_contactd.Tests.Data.{checksum, two_books, working, new_input, old_change}

parse_sync_token-format_sync_token_example :
    parse_sync_token (format_sync_token 3 17)
    ≡ Token.ok (record { addressbook_id = 3; revision = 17 })
parse_sync_token-format_sync_token_example =
    parse_sync_token-format_sync_token 3 17 (omega arith) (omega arith) (omega arith)

abbrev item : ℕ → Bytes → Bool → SyncPageItem
item n h deleted = record { revision = n; href = h; etag_hex = lit "aa"; deleted = deleted }

-- x is written twice and y is deleted.
abbrev items : List SyncPageItem
items = item 1 (lit "x") false ∷ item 2 (lit "y") true ∷ item 3 (lit "x") false ∷ []

collapse-last_only_example :
    collapse_sync_page_items items ≡ item 2 (lit "y") true ∷ item 3 (lit "x") false ∷ []
collapse-last_only_example = collapse-last_only items

latest-last_only_example : latest (lit "x") (last_only items) ≡ some (item 3 (lit "x") false)
latest-last_only_example = latest-last_only (lit "x") items

page_items-remaining_items_example : page_items 2 items ++ remaining_items 2 items ≡ items
page_items-remaining_items_example = page_items-remaining_items 2 items

apply_result-page_result_example :
    apply_result
      (page_result 1 3 (lit "alice") (lit "contacts") items 500)
      (λ k. none)
      (full_href (lit "alice") (lit "contacts") (lit "x"))
    ≡ some (quoted (lit "aa"))
apply_result-page_result_example =
    apply_result-page_result 1 3 (lit "alice") (lit "contacts") items 500 (λ k. none) (lit "x")

room_left :
    cursor_cache_over_cap default_caps (
      store_cursor
        (format_sync_token 1 (sync_page_token_revision 3 (page_items 2 items) true))
        (record {
          addressbook_id = 1;
          head_revision = 3;
          expires_at = 130;
          items = remaining_items 2 items;
        })
        (prune_expired_cursors 10 []))
    ≡ false
unfolding cursor_cache_over_cap store_cursor delete_cursor prune_expired_cursors count_cursor_items
room_left = refl

build_paged_sync_result-take_cursor_page_example :
    let out =
      build_paged_sync_result default_caps 1 3 (lit "alice") (lit "contacts") items 2 10 10 [] in
    let revision = sync_page_token_revision 3 (page_items 2 items) true in
    (out.0.sync_token ≡ format_sync_token 1 revision)
    × ((take_cursor_page default_caps
          (record { addressbook_id = 1; revision = revision })
          (lit "alice")
          (lit "contacts")
          2
          20
          out.1).0
        ≡ some (page_result 1 3 (lit "alice") (lit "contacts") (remaining_items 2 items) 2))
build_paged_sync_result-take_cursor_page_example =
    build_paged_sync_result-take_cursor_page default_caps 1 3 (lit "alice") (lit "contacts") items 2
      10 10 20 [] refl (omega arith) refl room_left

abbrev one_cursor : Caps
one_cursor = record { ttl = 120; max_entries = 1; max_total_items = 0 }

abbrev cursor_until : ℕ → SyncCursor
cursor_until n = record { addressbook_id = 1; head_revision = 3; expires_at = n; items = items }

abbrev two_cursors : Page
two_cursors = (lit "b", cursor_until 20) ∷ (lit "a", cursor_until 10) ∷ []

evict_cursors_to_cap-Evicts_example :
    Evicts one_cursor two_cursors (evict_cursors_to_cap one_cursor two_cursors)
    × Within one_cursor (evict_cursors_to_cap one_cursor two_cursors)
evict_cursors_to_cap-Evicts_example = evict_cursors_to_cap-Evicts one_cursor two_cursors

abbrev change_at : ℕ → ChangeRow
change_at n = record old_change { id = n; revision = n }

is_stale-lost_example : is_stale 1 3 (map to_change (change_at 3 ∷ [])) ≡ true
is_stale-lost_example = is_stale-lost 1 (change_at 2 ∷ []) (change_at 3 ∷ []) (refl, tt)

-- Alice's client has the state of `two_books` and the token 1:1; then a card is added.
abbrev after_put : Conn
after_put = (put_card_checked checksum 7 none new_input none working).1

abbrev state : State
state = record { conn = after_put; page = [] }

a_put : Reach two_books after_put.db
a_put = next here (put checksum 7 none new_input none working refl ((omega arith), tt) refl)

at_revision_1 : revision_at 1 two_books ≡ some 1
unfolding find_book
at_revision_1 = refl

Since-Reach_example : Since 1 1 (λ h. etag_at 1 h two_books) after_put.db
Since-Reach_example =
    Since-Reach 1 1 (λ h. etag_at 1 h two_books) (Since-start 1 1 two_books at_revision_1 refl)
      a_put

abbrev client : View
client k =
    if bytes_eq (full_href (lit "alice") (lit "contacts") (lit "x.vcf")) k
    then some (quoted (lit "aa"))
    else none

client_agrees :
    (h : Bytes)
    → client (full_href (lit "alice") (lit "contacts") h)
      ≡ Option.map quoted (etag_at 1 h two_books)
unfolding find_card
client_agrees h = ground (arith, full_href-injective (lit "alice") (lit "contacts") (lit "x.vcf") h)

abbrev synced : SyncReply SyncResult × State
synced =
    sync_collection default_caps (lit "alice") (lit "contacts") 500 10 10 (format_sync_token 1 1)
      state

abbrev answer : SyncResult
answer = record {
  sync_token = format_sync_token 1 2;
  updated =
      (record {
        href = full_href (lit "alice") (lit "contacts") (lit "y.vcf");
        etag = quoted (lit "01");
      })
      ∷ [];
  deleted = [];
  truncated = false;
}

sync_answers : synced ≡ (ok answer, synced.1)
unfolding put_card_checked put_card_conn write_card precondition_fails canonicalize_vcard
    compute_etag_hex replace_all has_prefix find_card find_book insert_card update_card
    bump_revision select_revision insert_change exec set_foreign_keys apply_conn_pragmas
    with_immediate_tx sync_collection get_addressbook_by_username_slug find_addressbook token_sync
    resume changes_sync is_stale list_card_changes_since take_cursor_page lookup_cursor
    prune_expired_cursors build_paged_sync_result page_result collapse_sync_page_items
    sync_page_token_revision emitted_updates emitted_deletions format_sync_token parse_sync_token
    is_blank trim_space spaces trim_front trim_back matched trim_prefix split format_int parse_int
sync_answers = refl

no_cursor : lookup_cursor (format_sync_token 1 1) [] ≡ none
unfolding lookup_cursor
no_cursor = refl

distinct_books : DistinctIds after_put.db.books
unfolding put_card_checked put_card_conn write_card precondition_fails canonicalize_vcard
    compute_etag_hex replace_all has_prefix find_card find_book insert_card update_card
    bump_revision select_revision insert_change exec set_foreign_keys apply_conn_pragmas
    with_immediate_tx
distinct_books = (refl, (refl, tt))

incremental_sync_example :
    ((h : Bytes)
      → apply_result answer client (full_href (lit "alice") (lit "contacts") h)
        ≡ Option.map quoted (etag_at 1 h after_put.db))
    × (n : ℕ) × (revision_at 1 after_put.db ≡ some n)
    × (answer.sync_token ≡ format_sync_token 1 n)
incremental_sync_example =
    incremental_sync default_caps (lit "alice") (lit "contacts") 500 10 10 1 1 two_books state
      (omega arith) (omega arith) (omega arith) at_revision_1 refl a_put distinct_books no_cursor
      sync_answers refl client client_agrees
