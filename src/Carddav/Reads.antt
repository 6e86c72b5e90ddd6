-- ===== src/Carddav/Reads.antt =====
-- The reads of internal/carddav/backend.go leave the tables as they are.
use go_contactd.Prelude.{Bytes, Option, none, refl, arith}
use go_contactd.Store.Tables.{Database, Addressbook}
use go_contactd.Store.Exec.{exec}
use go_contactd.Store.Books.{get_addressbook_by_username_slug, list_addressbooks_by_username}
use go_contactd.Store.Changes.{get_card, list_cards}
use go_contactd.Carddav.{
  Request, ◌>>=◌, lift, store, parse_addressbook_path_for_principal, parse_card_path_for_principal,
  principal_from_context, current_user_principal, list_address_books, get_address_book,
  get_address_book_color,
}
use go_contactd.Carddav.Objects.{
  Codec, get_address_object_with_raw, list_address_objects, query_address_objects, or_status,
  to_address_object,
}
use go_contactd.Carddav.Objects.Others.{Keeps, bind-Keeps, or_status-Keeps, get_card-Keeps}

-- The tables, as what is kept.
abbrev pub tables : Database → Database
tables d = d

abbrev pub Reads : {A : Type 0} → Request A → Type 0
Reads m = Keeps tables m

find_book-Reads : (user slug : Bytes) → Reads (store (get_addressbook_by_username_slug user slug))
unfolding get_addressbook_by_username_slug exec
find_book-Reads user slug c = ground arith

module _ (ctx : Option Bytes) where
  pub current_user_principal-Reads : Reads (current_user_principal ctx)
  unfolding current_user_principal
  current_user_principal-Reads =
      bind-Keeps tables (lift (principal_from_context ctx)) _ (λ c. refl) (λ user c. refl)

  pub list_address_books-Reads : Reads (list_address_books ctx)
  unfolding list_address_books list_addressbooks_by_username exec
  list_address_books-Reads =
      bind-Keeps tables (lift (principal_from_context ctx)) _ (λ c. refl) (λ user c. ground arith)

  -- A read of a book at a path.
  in_book-Reads :
      {A : Type 0} (p : Bytes) (go : Bytes × Bytes → Addressbook → Request A)
      → ((at : Bytes × Bytes) (ab : Addressbook) → Reads (go at ab))
      → Reads (
          lift (parse_addressbook_path_for_principal ctx p) >>= λ at.
          store (get_addressbook_by_username_slug at.0 at.1) >>= go at)
  in_book-Reads p go reads =
      bind-Keeps tables (lift (parse_addressbook_path_for_principal ctx p)) _ (λ c. refl)
        (λ at.
          bind-Keeps tables (store (get_addressbook_by_username_slug at.0 at.1)) (go at)
            (find_book-Reads at.0 at.1) (reads at))

  pub get_address_book-Reads : (p : Bytes) → Reads (get_address_book ctx p)
  unfolding get_address_book
  get_address_book-Reads p = in_book-Reads p _ (λ at ab c. refl)

  pub get_address_book_color-Reads : (p : Bytes) → Reads (get_address_book_color ctx p)
  unfolding get_address_book_color
  get_address_book_color-Reads p = in_book-Reads p _ (λ at ab c. refl)

  module _ {VCard : Type 0} (codec : Codec VCard) where
    pub list_address_objects-Reads : (p : Bytes) → Reads (list_address_objects codec ctx p)
    unfolding list_address_objects list_cards exec
    list_address_objects-Reads p = in_book-Reads p _ (λ at ab.
        bind-Keeps tables (store (list_cards ab.id)) _ (λ c. ground arith)
          (λ rows. or_status-Keeps tables 500 _))

    pub get_address_object_with_raw-Reads :
        (p : Bytes) → Reads (get_address_object_with_raw codec ctx p)
    unfolding get_address_object_with_raw
    get_address_object_with_raw-Reads p =
        bind-Keeps tables (lift (parse_card_path_for_principal ctx p)) _ (λ c. refl)
          (λ at.
            bind-Keeps tables (store (get_addressbook_by_username_slug at.0 at.1)) _
              (find_book-Reads at.0 at.1)
              (λ ab.
                bind-Keeps tables (store (get_card ab.id at.2)) _ (get_card-Keeps tables ab.id at.2)
                  (λ row.
                    bind-Keeps tables (or_status 500 (to_address_object codec at.0 at.1 row)) _
                      (or_status-Keeps tables 500 _) (λ ao c. refl))))

    pub query_address_objects-Reads : (p : Bytes) → Reads (query_address_objects codec ctx p none)
    unfolding query_address_objects
    query_address_objects-Reads p = list_address_objects-Reads p
