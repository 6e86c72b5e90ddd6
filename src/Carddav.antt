-- ===== src/Carddav.antt =====
-- Backend of internal/carddav/backend.go over the store: a request has a principal, and errors are
-- HTTP statuses or the store's. The codec of package vcard and the conditions of package webdav are
-- parameters.
pub mod Paths
pub mod Objects
pub mod Reads
use go_contactd.Prelude.{
  ℕ, Bytes, Bool, true, false, List, [], ◌∷◌, ◌++◌, Option, none, some, lit, bytes_eq,
  if◌then◌else◌, map, ◌||◌, not,
}
use go_contactd.Strings.{is_blank, trim_space}
use go_contactd.Strings.Paths.{is_empty, is_dot, is_dot_dot, contains_byte, path_elements}
use go_contactd.Store.Tables.{Addressbook}
use go_contactd.Store.Exec.{
  StoreError, not_found, precondition_failed, unique_failed, invalid_input, foreign_key_failed,
  hook_failed, bad_hash, driver_failed, Conn, Exec,
}
use go_contactd.Store.Exec
use go_contactd.Store.Books.{
  get_addressbook_by_username_slug, list_addressbooks_by_username, ensure_addressbook,
  delete_addressbook, update_addressbook_metadata,
}
use go_contactd.Store.Users.{user_id_by_username}

-- webdav.HTTPError by its status, PreconditionNoUIDConflict, and the errors passed on.
pub data BackendError : Type 0 where
  http_error : ℕ → BackendError
  no_uid_conflict : BackendError
  store_error : StoreError → BackendError

pub data Reply {ℓ} (A : Type ℓ) : Type ℓ where
  ok : A → Reply A
  err : BackendError → Reply A

abbrev pub Request : Type 0 → Type 0
Request A = Conn → Reply A × Conn

module _ {A B : Type 0} where
  abbrev pub continue : Reply A → (A → Request B) → Request B
  continue (ok a) f c = f a c
  continue (err e) f c = (err e, c)

  infixl 5 ◌>>=◌
  abbrev pub ◌>>=◌ : Request A → (A → Request B) → Request B
  ◌>>=◌ m f c = let (r, c') = m c in continue r f c'

module _ {A : Type 0} where
  abbrev pub pure : A → Request A
  pure a c = (ok a, c)

  abbrev pub refuse : BackendError → Request A
  refuse e c = (err e, c)

  abbrev pub lift : Reply A → Request A
  lift r c = (r, c)

-- mapStoreErr
unfoldable pub map_store_err : StoreError → BackendError
map_store_err precondition_failed = http_error 412
map_store_err not_found = http_error 404
map_store_err e = store_error e

-- isUniqueErr: SQLite's message for a unique constraint.
unfoldable pub is_unique_err : StoreError → Bool
is_unique_err unique_failed = true
is_unique_err _ = false

module _ {A : Type 0} where
  abbrev pub from_store : (StoreError → BackendError) → Exec.Result A → Reply A
  from_store f (Exec.ok a) = ok a
  from_store f (Exec.err e) = err (f e)

  -- A call of the store whose errors go through `f`.
  abbrev pub store_with : (StoreError → BackendError) → Exec A → Request A
  store_with f m c = let (r, c') = m c in (from_store f r, c')

  abbrev pub store : Exec A → Request A
  store m = store_with map_store_err m

-- principalFromContext: `none` is a context without a principal.
unfoldable pub principal_from_context : Option Bytes → Reply Bytes
principal_from_context none = err (http_error 401)
principal_from_context (some v) = if is_blank v then err (http_error 401) else ok v

abbrev pub addressbook_of : Bytes → List Bytes → Reply (Bytes × Bytes)
addressbook_of principal (user ∷ slug ∷ []) =
    if is_empty user || is_empty slug
    then err (http_error 404)
    else if not (bytes_eq user principal)
    then err (http_error 404)
    else ok (user, slug)
addressbook_of principal _ = err (http_error 404)

abbrev pub card_of : Bytes → List Bytes → Reply (Bytes × Bytes × Bytes)
card_of principal (user ∷ slug ∷ href ∷ []) =
    if is_empty user || is_empty slug || is_empty href
    then err (http_error 404)
    else if not (bytes_eq user principal)
    then err (http_error 404)
    else if contains_byte 47 href || contains_byte 92 href || is_dot href || is_dot_dot href
    then err (http_error 400)
    else ok (user, slug, href)
card_of principal _ = err (http_error 404)

abbrev with_principal : {A : Type 0} → Reply Bytes → (Bytes → Reply A) → Reply A
with_principal (ok v) f = f v
with_principal (err e) f = err e

unfoldable pub parse_addressbook_path_for_principal : Option Bytes → Bytes → Reply (Bytes × Bytes)
parse_addressbook_path_for_principal ctx p =
    with_principal (principal_from_context ctx)
      (λ v. addressbook_of v (path_elements (trim_space p)))

unfoldable pub parse_card_path_for_principal : Option Bytes → Bytes → Reply (Bytes × Bytes × Bytes)
parse_card_path_for_principal ctx p =
    with_principal (principal_from_context ctx) (λ v. card_of v (path_elements (trim_space p)))

-- gocarddav.AddressBook, without the constant SupportedAddressData.
pub record AddressBook : Type 0 where
  pub path : Bytes
  pub name : Bytes
  pub description : Bytes

unfoldable pub to_address_book : Addressbook → AddressBook
to_address_book ab = record {
  path = lit "/" ++ (ab.username ++ (lit "/" ++ (ab.slug ++ lit "/")));
  name = ab.display_name;
  description = ab.description;
}

unfoldable pub default_string : (v fallback : Bytes) → Bytes
default_string v fallback = if is_blank v then fallback else v

-- EnsureAddressbook's errors in CreateAddressBook.
abbrev pub create_err : StoreError → BackendError
create_err e = if is_unique_err e then http_error 405 else map_store_err e

module _ (ctx : Option Bytes) where
  unfoldable pub current_user_principal : Request Bytes
  current_user_principal = do
    user ← lift (principal_from_context ctx)
    pure (lit "/" ++ (user ++ lit "/"))

  unfoldable pub address_book_home_set_path : Request Bytes
  address_book_home_set_path = current_user_principal

  unfoldable pub list_address_books : Request (List AddressBook)
  list_address_books = do
    user ← lift (principal_from_context ctx)
    abs ← store_with store_error (list_addressbooks_by_username user)
    pure (map to_address_book abs)

  unfoldable pub get_address_book : Bytes → Request AddressBook
  get_address_book p = do
    (user, slug) ← lift (parse_addressbook_path_for_principal ctx p)
    ab ← store (get_addressbook_by_username_slug user slug)
    pure (to_address_book ab)

  -- `none` is a nil address book, else its path and its name.
  unfoldable pub create_address_book : (now : ℕ) → Option (Bytes × Bytes) → Request (Unit {0})
  create_address_book now none = refuse (http_error 400)
  create_address_book now (some (path, name)) = do
    (user, slug) ← lift (parse_addressbook_path_for_principal ctx path)
    u ← store (user_id_by_username user)
    (id, created) ← store_with create_err (ensure_addressbook now u slug (default_string name slug))
    if created then pure tt else refuse (http_error 405)

  unfoldable pub delete_address_book : Bytes → Request (Unit {0})
  delete_address_book p = do
    (user, slug) ← lift (parse_addressbook_path_for_principal ctx p)
    store (delete_addressbook user slug)

  unfoldable pub update_address_book_metadata :
      (now : ℕ) → Bytes → (displayname description color : Option Bytes) → Request (Unit {0})
  update_address_book_metadata now p displayname description color = do
    (user, slug) ← lift (parse_addressbook_path_for_principal ctx p)
    store (update_addressbook_metadata now user slug displayname description color)

  unfoldable pub get_address_book_color : Bytes → Request Bytes
  get_address_book_color p = do
    (user, slug) ← lift (parse_addressbook_path_for_principal ctx p)
    ab ← store (get_addressbook_by_username_slug user slug)
    pure ab.color
