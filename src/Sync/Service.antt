-- ===== src/Sync/Service.antt =====
-- SyncService of internal/carddavx/sync.go: CollectionState and SyncCollection over the store. The
-- service runs on a connection and its cursor cache; `username` and `slug` name the collection.
pub mod Items
pub mod Steps
pub mod Incremental
pub mod Current
pub mod Reads
use go_contactd.Prelude.{
  ℕ, ◌+◌, ◌==◌, ◌&&◌, ltb, Bytes, Bool, true, false, List, [], ◌∷◌, Option, none, some, map,
  if◌then◌else◌,
}
use go_contactd.Strings.{trim_space, is_blank, format_int}
use go_contactd.Store.Tables.{Addressbook, CardChange, CardSyncState}
use go_contactd.Store.Exec.{StoreError, Conn, Exec}
use go_contactd.Store.Exec
use go_contactd.Store.Books.{get_addressbook_by_username_slug}
use go_contactd.Store.Changes.{list_card_changes_since, list_current_card_sync_states}
use go_contactd.Sync.Token.{SyncToken, TokenError, Parsed, format_sync_token, parse_sync_token}
use go_contactd.Sync.Token
use go_contactd.Sync.Pages.{SyncPageItem, SyncResult}
use go_contactd.Sync.Cursors.{Page, Caps, build_paged_sync_result, take_cursor_page}

-- The causes of an invalidSyncTokenError, and the errors of the store.
pub data SyncError : Type 0 where
  malformed : TokenError → SyncError
  addressbook_mismatch revision_ahead stale_token : SyncError
  store_error : StoreError → SyncError

-- IsInvalidSyncToken
unfoldable pub is_invalid_sync_token : SyncError → Bool
is_invalid_sync_token (store_error e) = false
is_invalid_sync_token _ = true

pub data SyncReply {ℓ} (A : Type ℓ) : Type ℓ where
  ok : A → SyncReply A
  err : SyncError → SyncReply A

pub record State : Type 0 where
  pub conn : Conn
  pub page : Page

abbrev pub Service : Type 0 → Type 0
Service A = State → SyncReply A × State

pub record CollectionState : Type 0 where
  pub addressbook_id : ℕ
  pub revision : ℕ
  pub sync_token : Bytes
  pub ctag : Bytes

module _ {A B : Type 0} where
  abbrev pub continue : SyncReply A → (A → Service B) → Service B
  continue (ok a) f s = f a s
  continue (err e) f s = (err e, s)

  infixl 5 ◌>>=◌
  abbrev pub ◌>>=◌ : Service A → (A → Service B) → Service B
  ◌>>=◌ m f s = let (r, s') = m s in continue r f s'

module _ {A : Type 0} where
  abbrev pub pure : A → Service A
  pure a s = (ok a, s)

  abbrev pub refuse : SyncError → Service A
  refuse e s = (err e, s)

  abbrev pub from_store : Exec.Result A → SyncReply A
  from_store (Exec.ok a) = ok a
  from_store (Exec.err e) = err (store_error e)

  abbrev pub store : Exec A → Service A
  store m s = let (r, c) = m s.conn in (from_store r, record s { conn = c })

unfoldable pub collection_state : (username slug : Bytes) → Service CollectionState
collection_state username slug = do
  ab ← store (get_addressbook_by_username_slug username slug)
  pure (record {
    addressbook_id = ab.id;
    revision = ab.revision;
    sync_token = format_sync_token ab.id ab.revision;
    ctag = format_int ab.revision;
  })

abbrev pub state_item : CardSyncState → SyncPageItem
state_item c = record {
  revision = c.revision;
  href = c.href;
  etag_hex = c.etag_hex;
  deleted = false;
}

abbrev pub change_item : CardChange → SyncPageItem
change_item ch = record {
  revision = ch.revision;
  href = ch.href;
  etag_hex = ch.etag_hex;
  deleted = ch.deleted;
}

-- The checks after the query: a gap between the token and the first change that is still logged.
unfoldable pub is_stale : (token_revision head : ℕ) → List CardChange → Bool
is_stale token_revision head [] = ltb token_revision head
is_stale token_revision head (c ∷ cs) =
    ltb token_revision head && ltb (token_revision + 1) c.revision

module _ (caps : Caps) (username slug : Bytes) (limit now later : ℕ) where
  abbrev answer : Addressbook → List SyncPageItem → Service SyncResult
  answer ab items s =
      let (out, page) =
        build_paged_sync_result caps ab.id ab.revision username slug items limit now later s.page in
      (ok out, record s { page = page })

  -- Without a token: the live cards, whatever the limit.
  unfoldable pub initial_sync : Addressbook → Service SyncResult
  initial_sync ab = do
    states ← store (list_current_card_sync_states ab.id 0)
    answer ab (map state_item states)

  -- With a token that has no cursor: the changes after it, if the log still has them all.
  unfoldable pub changes_sync : Addressbook → SyncToken → Service SyncResult
  changes_sync ab token = if ltb ab.revision token.revision then refuse revision_ahead else do
    changes ← store (list_card_changes_since ab.id token.revision 0)
    if is_stale token.revision ab.revision changes
        then refuse stale_token
        else answer ab (map change_item changes)

  abbrev from_cursor : Addressbook → SyncToken → Option SyncResult → Service SyncResult
  from_cursor ab token (some out) = pure out
  from_cursor ab token none = changes_sync ab token

  unfoldable pub resume : Addressbook → SyncToken → Service SyncResult
  resume ab token s =
      if ltb 0 limit
      then (let (found, page) = take_cursor_page caps token username slug limit now s.page in
          from_cursor ab token found (record s { page = page }))
      else changes_sync ab token s

  unfoldable pub token_sync : Addressbook → Parsed SyncToken → Service SyncResult
  token_sync ab (Token.err e) = refuse (malformed e)
  token_sync ab (Token.ok token) =
      if token.addressbook_id == ab.id then resume ab token else refuse addressbook_mismatch

  -- Here no other request writes between the query for the book and the one for its changes or
  -- states; the Go code runs them outside a transaction.
  unfoldable pub sync_collection : (raw_token : Bytes) → Service SyncResult
  sync_collection raw_token = do
    ab ← store (get_addressbook_by_username_slug username slug)
    if is_blank raw_token
        then initial_sync ab
        else token_sync ab (parse_sync_token (trim_space raw_token))
