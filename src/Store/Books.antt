-- ===== src/Store/Books.antt =====
-- Address books in internal/db/store.go.
pub mod Keys
use go_contactd.Prelude.{
  ℕ, ◌+◌, ◌==◌, ◌&&◌, not, Bytes, Bool, true, false, List, [], ◌∷◌, ◌++◌, Option, none, some,
  bytes_eq, if◌then◌else◌, length, map, where_rows, delete_rows, update_rows, any_row, first_row,
  ltb,
}
use mathlib.Core.Option
use go_contactd.Store.Tables.{UserRow, BookRow, Card, ChangeRow, Addressbook, Database}
use go_contactd.Store.Exec.{
  ok, err, not_found, unique_failed, foreign_key_failed, Exec, pure, raise, exec, query, ◌>>=◌,
}

abbrev user_is : ℕ → UserRow → Bool
user_is u r = r.id == u

-- user_id = ? AND slug = ?
abbrev pub book_at : ℕ → Bytes → BookRow → Bool
book_at u slug r = r.user_id == u && bytes_eq r.slug slug

-- JOIN users u ON u.id = ab.user_id WHERE u.username = ?
abbrev pub owned_by : Bytes → Database → BookRow → Bool
owned_by username d r =
    any_row (λ (u : UserRow). u.id == r.user_id && bytes_eq u.username username) d.users

-- … AND ab.slug = ?
abbrev pub owned_at : Bytes → Bytes → Database → BookRow → Bool
owned_at username slug d r = owned_by username d r && bytes_eq r.slug slug

abbrev pub scanned : Bytes → BookRow → Addressbook
scanned username r = record {
  id = r.id;
  user_id = r.user_id;
  username = username;
  slug = r.slug;
  display_name = r.displayname;
  description = r.description;
  color = r.color;
  revision = r.revision;
}

abbrev pub new_book : (id user_id : ℕ) (slug displayname : Bytes) (now : ℕ) → BookRow
new_book i u slug displayname now = record {
  id = i;
  user_id = u;
  slug = slug;
  displayname = displayname;
  description = [];
  color = [];
  revision = 0;
  created_at = now;
  updated_at = now;
}

unfoldable pub create_addressbook : (now user_id : ℕ) (slug displayname : Bytes) → Exec ℕ
create_addressbook now u slug displayname = exec (λ fk d.
    if any_row (book_at u slug) d.books
    then err unique_failed
    else if fk && not (any_row (user_is u) d.users)
    then err foreign_key_failed
    else ok (
      d.next_book,
      record d {
        books = d.books ++ new_book d.next_book u slug displayname now ∷ [];
        next_book = d.next_book + 1;
      },
    ))

abbrev created_or_found :
    (now user_id : ℕ) (slug displayname : Bytes) → Option BookRow → Exec (ℕ × Bool)
created_or_found now u slug displayname (some r) = pure (r.id, false)
created_or_found now u slug displayname none = do
  id ← create_addressbook now u slug displayname
  pure (id, true)

unfoldable pub ensure_addressbook : (now user_id : ℕ) (slug displayname : Bytes) → Exec (ℕ × Bool)
ensure_addressbook now u slug displayname = do
  found ← query (λ d. first_row (book_at u slug) d.books)
  created_or_found now u slug displayname found

unfoldable pub has_addressbook : Bytes → Bytes → Exec Bool
has_addressbook username slug =
    query (λ d. ltb 0 (length (where_rows (owned_at username slug d) d.books)))

-- ORDER BY ab.id ASC is the order of the table.
unfoldable pub list_addressbooks_by_username : Bytes → Exec (List Addressbook)
list_addressbooks_by_username username =
    query (λ d. map (scanned username) (where_rows (owned_by username d) d.books))

unfoldable pub find_addressbook : Bytes → Bytes → Database → Option Addressbook
find_addressbook username slug d =
    Option.map (scanned username) (first_row (owned_at username slug d) d.books)

abbrev pub or_not_found : {A : Type 0} → Option A → Exec A
or_not_found none = raise not_found
or_not_found (some a) = pure a

unfoldable pub get_addressbook_by_username_slug : Bytes → Bytes → Exec Addressbook
get_addressbook_by_username_slug username slug = do
  found ← query (find_addressbook username slug)
  or_not_found found

-- CASE WHEN ? THEN ? ELSE column END
abbrev set_or_keep : Option Bytes → Bytes → Bytes
set_or_keep none old = old
set_or_keep (some new) old = new

abbrev pub with_metadata :
    (now : ℕ) (displayname description color : Option Bytes) → BookRow → BookRow
with_metadata now displayname description color r = record r {
  displayname = set_or_keep displayname r.displayname;
  description = set_or_keep description r.description;
  color = set_or_keep color r.color;
  updated_at = now;
}

-- `if n == 0 { return ErrNotFound }`
abbrev pub affected : ℕ → Exec (Unit {0})
affected n = if n == 0 then raise not_found else pure tt

abbrev update_matching :
    (now : ℕ) (username slug : Bytes) (displayname description color : Option Bytes) → Exec ℕ
update_matching now username slug displayname description color = exec (λ fk d. ok (
  length (where_rows (owned_at username slug d) d.books),
  record d {
    books =
        update_rows (owned_at username slug d) (with_metadata now displayname description color)
          d.books;
  },
))

unfoldable pub update_addressbook_metadata :
    (now : ℕ) (username slug : Bytes) (displayname description color : Option Bytes)
    → Exec (Unit {0})
update_addressbook_metadata now username slug none none none = pure tt
update_addressbook_metadata now username slug displayname description color = do
  n ← update_matching now username slug displayname description color
  affected n

-- ON DELETE CASCADE from addressbooks, if foreign keys are on.
abbrev pub delete_books : (BookRow → Bool) → Bool → Database → Database
delete_books doomed fk d =
    let gone = λ (b : ℕ). fk && any_row (λ (r : BookRow). doomed r && r.id == b) d.books in
    record d {
      books = delete_rows doomed d.books;
      cards = delete_rows (λ (c : Card). gone c.addressbook_id) d.cards;
      changes = delete_rows (λ (r : ChangeRow). gone r.addressbook_id) d.changes;
    }

unfoldable pub delete_addressbook : Bytes → Bytes → Exec (Unit {0})
delete_addressbook username slug = do
  n ← exec (λ fk d. ok (
    length (where_rows (owned_at username slug d) d.books),
    delete_books (owned_at username slug d) fk d,
  ))
  affected n
