-- ===== src/Carddav/Objects/Tenants.antt =====
-- Tenants of internal/carddav/backend.go: a request writes only to its principal's books.
use mathlib.Core.Bool.{true≢false}
use go_contactd.Prelude.{
  ℕ, ◌==◌, ◌&&◌, Bytes, Bool, true, false, List, [], ◌∷◌, Option, some, ◌≡◌, sym, ap, ◌∙◌, arith,
  bytes_eq, any_row, first_row, Option-cases, Bool-cases, ==_iff, inl, inr,
}
use go_contactd.Store.Tables.{Addressbook, BookRow, Database}
use go_contactd.Store.Exec.{StoreError, Conn, exec}
use go_contactd.Store.Books.{owned_by, owned_at, find_addressbook, get_addressbook_by_username_slug}
use go_contactd.Store.Cards.Lookup.{content_at}
use go_contactd.Carddav.{ok, Request, ◌>>=◌, lift, store, parse_card_path_for_principal}
use go_contactd.Carddav.Paths.{parse_card_path_for_principal-own}
use go_contactd.Carddav.Objects.{
  Codec, PutAddressObjectOptions, put_object, put_address_object, delete_address_object,
  delete_with,
}
use go_contactd.Carddav.Objects.Others.{Keeps, continue-at, put_object-other, delete_with-other}

-- Whether the user `username` owns the book `b`.
abbrev pub owns : Bytes → ℕ → Database → Bool
owns username b d = any_row (λ (r : BookRow). r.id == b && owned_by username d r) d.books

first_row-owned :
    (test : BookRow → Bool) (slug : Bytes) (rows : List BookRow) (r : BookRow)
    → first_row (λ x. test x && bytes_eq x.slug slug) rows ≡ some r
    → any_row (λ x. x.id == r.id && test x) rows ≡ true
first_row-owned test slug [] r e = absurd (ground arith)
first_row-owned test slug (x ∷ rows) r e = ground (arith, first_row-owned test slug rows r)

find_addressbook-owned :
    (username slug : Bytes) (d : Database) (ab : Addressbook)
    → find_addressbook username slug d ≡ some ab
    → owns username ab.id d ≡ true
unfolding find_addressbook
find_addressbook-owned username slug d ab e =
    elim (Option-cases (first_row (owned_at username slug d) d.books)) [
      | inl missing ↦ absurd (ground arith)
      | inr (r, found) ↦ ground (arith, first_row-owned (owned_by username d) slug d.books r found)
    ]

not_owned :
    (username slug : Bytes) (b' : ℕ) (d : Database) (ab : Addressbook)
    → owns username b' d ≡ false
    → find_addressbook username slug d ≡ some ab
    → (ab.id == b') ≡ false
not_owned username slug b' d ab foreign found = elim (Bool-cases (ab.id == b')) [
  | inr different ↦ different
  | inl same ↦ absurd (
      true≢false (
        sym (find_addressbook-owned username slug d ab found)
        ∙ ap (λ i. owns username i d) ((==_iff ab.id b').0 same)
        ∙ foreign))
]

find_book-store :
    (username slug : Bytes) (c : Conn)
    → ((ab : Addressbook)
        → (store (get_addressbook_by_username_slug username slug) c).0 ≡ ok ab
        → find_addressbook username slug c.db ≡ some ab)
      × ((store (get_addressbook_by_username_slug username slug) c).1.db ≡ c.db)
unfolding get_addressbook_by_username_slug exec
find_book-store username slug c = (λ ab got. ground arith, ground arith)

module _ (principal : Bytes) (b' : ℕ) (h' : Bytes) where
  -- A write under a path of the principal, once the store has been asked for the book.
  in_own_book :
      {A : Type 0} (go : Bytes × Bytes × Bytes → Addressbook → Request A)
      → ((at : Bytes × Bytes × Bytes) (ab : Addressbook)
          → (ab.id == b') ≡ false
          → Keeps (content_at b' h') (go at ab))
      → (p : Bytes) (c : Conn) → owns principal b' c.db ≡ false
      → content_at b' h'
          ((lift (parse_card_path_for_principal (some principal) p) >>= λ at.
              store (get_addressbook_by_username_slug at.0 at.1) >>= go at)
            c).1.db
        ≡ content_at b' h' c.db
  in_own_book go keeps p c foreign =
      continue-at (content_at b' h') (parse_card_path_for_principal (some principal) p) _ c (λ at e.
        let own =
          parse_card_path_for_principal-own principal p {user = at.0} {slug = at.1} {href = at.2}
            e in
        let (found, same_db) = find_book-store at.0 at.1 c in
        continue-at (content_at b' h') (store (get_addressbook_by_username_slug at.0 at.1) c).0
          (go at) _
          (λ ab got.
            keeps at ab
              (not_owned at.0 at.1 b' c.db ab (ap (λ u. owns u b' c.db) own.1 ∙ foreign)
                (found ab got))
              _)
        ∙ ap (content_at b' h') same_db)

  -- A put writes only into the principal's own address books: whatever the path, the card, the
  -- conditions and the outcome, each card of a book that the principal does not own stays as it is,
  -- if no other request writes between the put's read and its write.
  pub put_address_object-tenant :
      {VCard : Type 0} (codec : Codec VCard) (sha256 : Bytes → Bytes) (now : ℕ)
      (hook : Option StoreError) (p : Bytes) (card : VCard) (opts : Option PutAddressObjectOptions)
      (c : Conn)
      → owns principal b' c.db ≡ false
      → content_at b' h'
          (put_address_object codec (some principal) sha256 now hook p card opts (λ d. d) c).1.db
        ≡ content_at b' h' c.db
  unfolding put_address_object
  put_address_object-tenant codec sha256 now hook p card opts c foreign =
      in_own_book
        (λ at ab. put_object codec sha256 now hook at.0 at.1 at.2 ab.id card opts (λ d. d))
        (λ at ab other.
          put_object-other ab.id b' h' other codec sha256 now hook at.0 at.1 at.2 card opts)
        p c foreign

  -- A delete writes only into the principal's own address books: whatever the path, the ETag and
  -- the outcome, each card of a book that the principal does not own stays as it is.
  pub delete_address_object-tenant :
      (now : ℕ) (p : Bytes) (current_etag : Option Bytes) (c : Conn)
      → owns principal b' c.db ≡ false
      → content_at b' h' (delete_address_object (some principal) now p current_etag c).1.db
        ≡ content_at b' h' c.db
  unfolding delete_address_object
  delete_address_object-tenant now p current_etag c foreign =
      in_own_book (λ at ab. store (delete_with now ab.id at.2 current_etag))
        (λ at ab other. delete_with-other ab.id b' h' other now at.2 current_etag) p c foreign
