-- ===== src/Sync/Service/Steps.antt =====
-- The calls of the store that SyncCollection of internal/carddavx/sync.go makes.
use go_contactd.Prelude.{ℕ, Bytes, false, some, ◌≡◌, refl, arith, Option-cases, inl, inr}
use go_contactd.Strings.{trim_space, is_blank}
use go_contactd.Store.Tables.{Addressbook}
use go_contactd.Store.Exec.{exec, query}
use go_contactd.Store.Books.{find_addressbook, get_addressbook_by_username_slug}
use go_contactd.Sync.Token.{parse_sync_token}
use go_contactd.Sync.Pages.{SyncResult}
use go_contactd.Sync.Cursors.{Caps}
use go_contactd.Sync.Service.{ok, State, token_sync, sync_collection}

module _ (caps : Caps) (username slug : Bytes) (limit now later : ℕ) where
  -- A sync with a token that succeeds has found the collection, and looked at the token.
  pub sync_collection-token :
      (raw : Bytes) (s : State) {out : SyncResult} {s' : State}
      → is_blank raw ≡ false
      → sync_collection caps username slug limit now later raw s ≡ (ok out, s')
      → (ab : Addressbook) × (s1 : State) × (find_addressbook username slug s.conn.db ≡ some ab)
        × (s1.conn.db ≡ s.conn.db)
        × (s1.page ≡ s.page)
        × (token_sync caps username slug limit now later ab (parse_sync_token (trim_space raw)) s1
            ≡ (ok out, s'))
  unfolding sync_collection get_addressbook_by_username_slug exec
  sync_collection-token raw s blank h =
      let s1 = record s { conn = (query (find_addressbook username slug) s.conn).1 } in
      elim (Option-cases (find_addressbook username slug s.conn.db)) [
        | inl missing ↦ absurd (ground arith)
        | inr (ab, found) ↦ (ab, s1, found, ground arith, refl, ground arith)
      ]
