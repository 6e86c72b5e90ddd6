-- ===== src/Sync/Service/Reads.antt =====
-- SyncService of internal/carddavx/sync.go leaves the tables as they are.
use go_contactd.Prelude.{ℕ, Bytes, ◌≡◌, refl, ◌∙◌, arith, Bool-cases, inl, inr, ltb}
use go_contactd.Strings.{trim_space}
use go_contactd.Store.Tables.{Addressbook}
use go_contactd.Store.Exec.{exec}
use go_contactd.Store.Books.{get_addressbook_by_username_slug}
use go_contactd.Store.Changes.{list_card_changes_since, list_current_card_sync_states}
use go_contactd.Sync.Token.{SyncToken, Parsed, parse_sync_token}
use go_contactd.Sync.Token
use go_contactd.Sync.Cursors.{Caps, take_cursor_page}
use go_contactd.Sync.Service.{
  Service, State, SyncReply, ok, err, continue, ◌>>=◌, store, collection_state, initial_sync,
  changes_sync, resume, token_sync, sync_collection,
}

abbrev pub Reads : {A : Type 0} → Service A → Type 0
Reads m = (s : State) → (m s).1.conn.db ≡ s.conn.db

continue-Reads :
    {A B : Type 0} (r : SyncReply A) (g : A → Service B) (s : State)
    → ((a : A) → Reads (g a))
    → (continue r g s).1.conn.db ≡ s.conn.db
continue-Reads (ok a) g s k = k a s
continue-Reads (err e) g s k = refl

bind-Reads :
    {A B : Type 0} (m : Service A) (g : A → Service B)
    → Reads m
    → ((a : A) → Reads (g a))
    → Reads (m >>= g)
bind-Reads m g km kg s = continue-Reads (m s).0 g (m s).1 kg ∙ km s

find_book-Reads : (user slug : Bytes) → Reads (store (get_addressbook_by_username_slug user slug))
unfolding get_addressbook_by_username_slug exec
find_book-Reads user slug s = ground arith

pub collection_state-Reads : (user slug : Bytes) → Reads (collection_state user slug)
unfolding collection_state
collection_state-Reads user slug =
    bind-Reads (store (get_addressbook_by_username_slug user slug)) _ (find_book-Reads user slug)
      (λ ab s. refl)

module _ (caps : Caps) (username slug : Bytes) (limit now later : ℕ) where
  initial_sync-Reads :
      (ab : Addressbook) → Reads (initial_sync caps username slug limit now later ab)
  unfolding initial_sync list_current_card_sync_states exec
  initial_sync-Reads ab =
      bind-Reads (store (list_current_card_sync_states ab.id 0)) _ (λ s. ground arith)
        (λ states s. refl)

  changes_sync-Reads :
      (ab : Addressbook) (token : SyncToken)
      → Reads (changes_sync caps username slug limit now later ab token)
  unfolding changes_sync
  changes_sync-Reads ab token s = elim (Bool-cases (ltb ab.revision token.revision)) [
    | inl ahead ↦ rw ahead refl
    | inr behind ↦ rw behind (
        bind-Reads (store (list_card_changes_since ab.id token.revision 0)) _
          (λ s. unfold list_card_changes_since exec in ground arith) (λ changes s. ground arith) s)
  ]

  resume-Reads :
      (ab : Addressbook) (token : SyncToken)
      → Reads (resume caps username slug limit now later ab token)
  unfolding resume
  resume-Reads ab token s =
      let (found, page) = take_cursor_page caps token username slug limit now s.page in
      ground (
        arith,
        changes_sync-Reads ab token s,
        changes_sync-Reads ab token (record s { page = page }),
      )

  token_sync-Reads :
      (ab : Addressbook) (token : Parsed SyncToken)
      → Reads (token_sync caps username slug limit now later ab token)
  unfolding token_sync
  token_sync-Reads ab (Token.err e) s = refl
  token_sync-Reads ab (Token.ok token) s = ground (arith, resume-Reads ab token s)

  pub sync_collection-Reads :
      (raw_token : Bytes) → Reads (sync_collection caps username slug limit now later raw_token)
  unfolding sync_collection
  sync_collection-Reads raw =
      bind-Reads (store (get_addressbook_by_username_slug username slug)) _
        (find_book-Reads username slug)
        (λ ab s. ground (
          arith,
          initial_sync-Reads ab s,
          token_sync-Reads ab (parse_sync_token (trim_space raw)) s,
        ))
