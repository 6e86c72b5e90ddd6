-- ===== src/Handler/Tenants.antt =====
-- The writes of internal/server/handler.go leave the cards of other users' books alone.
pub mod Requests
pub mod Methods
use go_contactd.Prelude.{
  ℕ, ◌==◌, not, Bytes, Bool, true, false, List, [], ◌∷◌, Option, none, some, ◌≡◌, refl, sym, ap,
  ◌∙◌, arith, Bool-cases, inl, inr, ◌&&◌, ◌||◌, bytes_eq, any_row, first_row, delete_rows, lit,
}
use mathlib.Core.Option
use go_contactd.Store.Tables.{BookRow, Card, Database}
use go_contactd.Store.Exec.{StoreError, Conn, exec}
use go_contactd.Store.Statements.{find_card, card_at}
use go_contactd.Store.Books.{
  owned_by, owned_at, delete_books, delete_addressbook, update_addressbook_metadata,
  create_addressbook, ensure_addressbook,
}
use go_contactd.Store.Users.{user_id_by_username}
use go_contactd.Store.Cards.Lookup.{content_at}
use go_contactd.Carddav.{
  Request, lift, ◌>>=◌, continue, store, parse_addressbook_path_for_principal,
  parse_card_path_for_principal, principal_from_context, create_address_book, delete_address_book,
  update_address_book_metadata, store_with, create_err, default_string,
}
use go_contactd.Carddav.Paths.{parse_addressbook_path_for_principal-own}
use go_contactd.Carddav.Objects.{
  Codec, PutAddressObjectOptions, put_address_object, delete_address_object,
}
use go_contactd.Carddav.Objects.Others.{Keeps, bind-Keeps, continue-at}
use go_contactd.Carddav.Objects.Tenants.{
  owns, put_address_object-tenant, delete_address_object-tenant,
}

-- The context is not that of the book's owner.
abbrev pub Foreign : Option Bytes → ℕ → Database → Type 0
Foreign none b' d = Unit
Foreign (some principal) b' d = owns principal b' d ≡ false

module _ (b' : ℕ) (h' : Bytes) where
  not_doomed :
      (username slug : Bytes) (d : Database) (rows : List BookRow)
      → any_row (λ (r : BookRow). r.id == b' && owned_by username d r) rows ≡ false
      → any_row (λ (r : BookRow). owned_at username slug d r && r.id == b') rows ≡ false
  not_doomed username slug d [] e = refl
  not_doomed username slug d (r ∷ rows) e = ground (arith, not_doomed username slug d rows)

  first_row-kept :
      (gone : ℕ → Bool) (cs : List Card)
      → gone b' ≡ false
      → first_row (card_at b' h') (delete_rows (λ (c : Card). gone c.addressbook_id) cs)
        ≡ first_row (card_at b' h') cs
  first_row-kept gone [] e = refl
  first_row-kept gone (c ∷ cs) e = elim (Bool-cases (c.addressbook_id == b')) [
    | inl same ↦ ground (arith, first_row-kept gone cs e)
    | inr other ↦ ground (arith, first_row-kept gone cs e)
  ]

  content_at-delete_books :
      (username slug : Bytes) (fk : Bool) (d : Database)
      → owns username b' d ≡ false
      → content_at b' h' (delete_books (owned_at username slug d) fk d) ≡ content_at b' h' d
  unfolding find_card
  content_at-delete_books username slug fk d e = ap (Option.map _) (
      first_row-kept
        (λ b. fk && any_row (λ (r : BookRow). owned_at username slug d r && r.id == b) d.books)
        d.cards (ground (arith, not_doomed username slug d d.books)))

  abbrev pub seen : Database → Option (Bytes × Bytes × Bytes)
  seen = content_at b' h'

  delete_addressbook-seen :
      (username slug : Bytes) (c : Conn)
      → owns username b' c.db ≡ false
      → seen (delete_addressbook username slug c).1.db ≡ seen c.db
  unfolding delete_addressbook exec
  delete_addressbook-seen username slug c e =
      ground (arith, content_at-delete_books username slug c.foreign_keys c.db e)

  update_metadata-seen :
      (now : ℕ) (username slug : Bytes) (displayname description color : Option Bytes) (c : Conn)
      → seen (update_addressbook_metadata now username slug displayname description color c).1.db
        ≡ seen c.db
  unfolding update_addressbook_metadata exec find_card
  update_metadata-seen now username slug displayname description color c = ground arith

  ensure_addressbook-seen :
      (now u : ℕ) (slug name : Bytes) (c : Conn)
      → seen (ensure_addressbook now u slug name c).1.db ≡ seen c.db
  unfolding ensure_addressbook create_addressbook exec find_card
  ensure_addressbook-seen now u slug name c = ground arith

  user_id-seen : (user : Bytes) (c : Conn) → seen (user_id_by_username user c).1.db ≡ seen c.db
  unfolding user_id_by_username exec
  user_id-seen user c = ground arith

  module _ (ctx : Option Bytes) where
    pub update_address_book_metadata-seen :
        (now : ℕ) (p : Bytes) (displayname description color : Option Bytes)
        → Keeps seen (update_address_book_metadata ctx now p displayname description color)
    unfolding update_address_book_metadata
    update_address_book_metadata-seen now p displayname description color =
        bind-Keeps seen (lift (parse_addressbook_path_for_principal ctx p)) _ (λ c. refl)
          (λ at c. update_metadata-seen now at.0 at.1 displayname description color c)

    pub create_address_book-seen :
        (now : ℕ) (book : Option (Bytes × Bytes)) → Keeps seen (create_address_book ctx now book)
    unfolding create_address_book
    create_address_book-seen now none = λ c. refl
    create_address_book-seen now (some (path, name)) =
        bind-Keeps seen (lift (parse_addressbook_path_for_principal ctx path)) _ (λ c. refl)
          (λ at.
            bind-Keeps seen (store (user_id_by_username at.0)) _ (λ c. user_id-seen at.0 c)
              (λ u.
                bind-Keeps seen
                  (store_with create_err (ensure_addressbook now u at.1 (default_string name at.1)))
                  _ (λ c. ensure_addressbook-seen now u at.1 (default_string name at.1) c)
                  (λ made c. ground arith)))

  -- A context that is not the owner's.
  pub delete_address_book-seen :
      (ctx : Option Bytes) (p : Bytes) (c : Conn)
      → Foreign ctx b' c.db
      → seen (delete_address_book ctx p c).1.db ≡ seen c.db
  unfolding delete_address_book
  delete_address_book-seen none p c e =
      unfold parse_addressbook_path_for_principal principal_from_context in refl
  delete_address_book-seen (some principal) p c e =
      continue-at seen (parse_addressbook_path_for_principal (some principal) p) _ c (λ at done.
        delete_addressbook-seen at.0 at.1 c (
          ap (λ u. owns u b' c.db)
            (parse_addressbook_path_for_principal-own principal p {user = at.0} {slug = at.1}
              done).1
          ∙ e))

  pub put-seen :
      {VCard : Type 0} (codec : Codec VCard) (ctx : Option Bytes) (sha256 : Bytes → Bytes) (now : ℕ)
      (hook : Option StoreError) (p : Bytes) (card : VCard) (opts : Option PutAddressObjectOptions)
      (c : Conn)
      → Foreign ctx b' c.db
      → seen (put_address_object codec ctx sha256 now hook p card opts (λ d. d) c).1.db ≡ seen c.db
  put-seen codec none sha256 now hook p card opts c e =
      unfold put_address_object parse_card_path_for_principal principal_from_context in refl
  put-seen codec (some principal) sha256 now hook p card opts c e =
      put_address_object-tenant principal b' h' codec sha256 now hook p card opts c e

  pub delete-seen :
      (ctx : Option Bytes) (now : ℕ) (p : Bytes) (etag : Option Bytes) (c : Conn)
      → Foreign ctx b' c.db
      → seen (delete_address_object ctx now p etag c).1.db ≡ seen c.db
  delete-seen none now p etag c e =
      unfold delete_address_object parse_card_path_for_principal principal_from_context in refl
  delete-seen (some principal) now p etag c e =
      delete_address_object-tenant principal b' h' now p etag c e
