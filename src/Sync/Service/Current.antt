-- ===== src/Sync/Service/Current.antt =====
-- Incremental sync of internal/carddavx/sync.go, from the token that a client was given to the
-- answer it gets, whatever the store of internal/db/store.go has done in between.
use mathlib.Core.Option
use mathlib.Core.Path.{subst}
use go_contactd.Prelude.{ℕ, ◌<◌, ◌^◌, Bytes, false, [], none, some, ◌≡◌, sym, ap, ◌∙◌, arith}
use go_contactd.Strings.{trim_space}
use go_contactd.Store.Tables.{Addressbook, Database}
use go_contactd.Store.Books.Keys.{DistinctIds, find_addressbook-revision}
use go_contactd.Store.Changes.{changes_since}
use go_contactd.Sync.Token.{SyncToken, format_sync_token, parse_sync_token}
use go_contactd.Sync.Token
use go_contactd.Sync.Token.Roundtrip.{
  parse_sync_token-format_sync_token, trim_space-format_sync_token, is_blank-format_sync_token,
}
use go_contactd.Sync.Pages.{SyncResult, full_href, quoted}
use go_contactd.Sync.Pages.Client.{View, apply_result}
use go_contactd.Sync.Cursors.{Caps, lookup_cursor}
use go_contactd.Sync.History.{Since, etag_at, revision_at}
use go_contactd.Sync.History.Steps.{Reach, Since-Reach}
use go_contactd.Sync.Service.{ok, State, changes_sync, resume, token_sync, sync_collection}
use go_contactd.Sync.Service.Steps.{sync_collection-token}
use go_contactd.Sync.Service.Incremental.{resume-log, changes_sync-current, Since-start}

module _ (caps : Caps) (username slug : Bytes) (limit now later : ℕ) where
  token_sync-ok :
      (ab : Addressbook) (token : SyncToken) (s : State) {out : SyncResult} {s' : State}
      → token_sync caps username slug limit now later ab (Token.ok token) s ≡ (ok out, s')
      → (token.addressbook_id ≡ ab.id)
        × (resume caps username slug limit now later ab token s ≡ (ok out, s'))
  unfolding token_sync
  token_sync-ok ab token s h = ground arith

  -- A client holds, for the hrefs of a collection, the ETags of a moment at which the head of the
  -- book is `r` and nothing is logged after it, and its token is the one for `r`. After any
  -- sequence of puts, imports, deletes of cards, prunes, metadata updates and created books, with
  -- any failures, where the clock of each write of a card is not before the changes that are
  -- logged, a sync with that token finds no cursor for it and answers, not truncated, while no
  -- other request writes. Then the client that applies the answer holds for each href the ETag that
  -- the store has now, nothing for a card that is gone, and the new token is that of the new head.
  -- The book's id is positive, it and `r` are int64 numbers, and the ids of the books are distinct.
  pub incremental_sync :
      (b r : ℕ) (before : Database) (s : State) {out : SyncResult} {s' : State}
      → 0 < b
      → b < 2 ^ 63
      → r < 2 ^ 63
      → revision_at b before ≡ some r
      → changes_since b r before ≡ []
      → Reach before s.conn.db
      → DistinctIds s.conn.db.books
      → lookup_cursor (format_sync_token b r) s.page ≡ none
      → sync_collection caps username slug limit now later (format_sync_token b r) s ≡ (ok out, s')
      → out.truncated ≡ false
      → (held : View)
      → ((h : Bytes) → held (full_href username slug h) ≡ Option.map quoted (etag_at b h before))
      → ((h : Bytes)
          → apply_result out held (full_href username slug h)
            ≡ Option.map quoted (etag_at b h s.conn.db))
        × (n : ℕ) × (revision_at b s.conn.db ≡ some n)
        × (out.sync_token ≡ format_sync_token b n)
  incremental_sync b r before s {out} {s'} positive fits rfits head settled reach keys absent h
        whole held agrees =
      let (ab, s1, found, same_db, same_page, asked) =
        sync_collection-token caps username slug limit now later (format_sync_token b r) s
          (is_blank-format_sync_token b r) h in
      let parsed : parse_sync_token (trim_space (format_sync_token b r))
          ≡ Token.ok (record { addressbook_id = b; revision = r }) =
        ap parse_sync_token (trim_space-format_sync_token b r)
        ∙ parse_sync_token-format_sync_token b r positive fits rfits in
      let (same_book, resumed) =
        token_sync-ok ab (record { addressbook_id = b; revision = r }) s1
          (subst (λ p. token_sync caps username slug limit now later ab p s1 ≡ (ok out, s')) parsed
            asked) in
      let (page, answered) =
        resume-log caps username slug limit now later ab
          (record { addressbook_id = b; revision = r }) s1
          (ap (lookup_cursor (format_sync_token b r)) same_page ∙ absent) resumed in
      let since = Since-Reach b r _ (Since-start b r before head settled) reach in
      let current_head = find_addressbook-revision username slug s.conn.db ab keys found in
      let (current, token) =
        changes_sync-current caps username slug limit now later ab r (λ k. etag_at b k before)
          (record s1 { page = page })
          (subst (λ i. Since i r (λ k. etag_at b k before) s1.conn.db) same_book
            (subst (Since b r (λ k. etag_at b k before)) (sym same_db) since))
          (ap (revision_at ab.id) same_db ∙ current_head)
          (subst
            (λ i.
              changes_sync caps username slug limit now later ab
                (record { addressbook_id = i; revision = r }) (record s1 { page = page })
              ≡ (ok out, s'))
            same_book answered)
          whole held agrees in
      (
        λ k.
            current k
            ∙ ap (λ d. Option.map quoted (etag_at ab.id k d)) same_db
            ∙ ap (λ i. Option.map quoted (etag_at i k s.conn.db)) (sym same_book),
        ab.revision,
        ap (λ i. revision_at i s.conn.db) same_book ∙ current_head,
        token ∙ ap (λ i. format_sync_token i ab.revision) (sym same_book),
      )
