-- ===== src/Store/Users.antt =====
-- Users and passwords in internal/db/store.go. bcrypt's comparison is a parameter.
use go_contactd.Prelude.{
  ℕ, ◌+◌, ◌==◌, ◌&&◌, Bytes, Bool, true, false, List, [], ◌∷◌, ◌++◌, Option, none, some, lit,
  bytes_eq, if◌then◌else◌, length, map, where_rows, delete_rows, update_rows, any_row, first_row,
}
use go_contactd.Store.Tables.{UserRow, BookRow, User, Database}
use go_contactd.Store.Exec.{
  ok, err, not_found, unique_failed, bad_hash, Exec, pure, raise, exec, query, ◌>>=◌,
}
use go_contactd.Store.Books.{delete_books, affected}

abbrev pub named : Bytes → UserRow → Bool
named username r = bytes_eq r.username username

abbrev pub new_user : (id : ℕ) (username password_hash : Bytes) (now : ℕ) → UserRow
new_user i username password_hash now = record {
  id = i;
  username = username;
  password_hash = password_hash;
  created_at = now;
}

unfoldable pub create_user : (now : ℕ) (username password_hash : Bytes) → Exec ℕ
create_user now username password_hash = exec (λ fk d.
    if any_row (named username) d.users
    then err unique_failed
    else ok (
      d.next_user,
      record d {
        users = d.users ++ new_user d.next_user username password_hash now ∷ [];
        next_user = d.next_user + 1;
      },
    ))

unfoldable pub user_count : Exec ℕ
user_count = query (λ d. length d.users)

abbrev id_or_not_found : Option UserRow → Exec ℕ
id_or_not_found none = raise not_found
id_or_not_found (some r) = pure r.id

unfoldable pub user_id_by_username : Bytes → Exec ℕ
user_id_by_username username = do
  found ← query (λ d. first_row (named username) d.users)
  id_or_not_found found

unfoldable pub set_user_password_hash : ℕ → Bytes → Exec (Unit {0})
set_user_password_hash u password_hash = do
  n ← exec (λ fk d. ok (
    length (where_rows (λ (r : UserRow). r.id == u) d.users),
    record d {
      users =
          update_rows (λ (r : UserRow). r.id == u) (λ r. record r { password_hash = password_hash })
            d.users;
    },
  ))
  affected n

-- ORDER BY id ASC is the order of the table.
unfoldable pub list_users : Exec (List User)
list_users = query (λ d. map (λ r. record { id = r.id; username = r.username }) d.users)

-- ON DELETE CASCADE from users, through address books, if foreign keys are on.
abbrev pub delete_users : (UserRow → Bool) → Bool → Database → Database
delete_users doomed fk d =
    let gone =
      λ (b : BookRow). fk && any_row (λ (r : UserRow). doomed r && r.id == b.user_id) d.users in
    record (delete_books gone fk d) { users = delete_rows doomed d.users }

unfoldable pub delete_user_by_username : Bytes → Exec (Unit {0})
delete_user_by_username username = do
  n ← exec (λ fk d.
      ok (length (where_rows (named username) d.users), delete_users (named username) fk d))
  affected n

unfoldable pub delete_user_by_id : ℕ → Exec (Unit {0})
delete_user_by_id u = do
  n ← exec (λ fk d. ok (
    length (where_rows (λ (r : UserRow). r.id == u) d.users),
    delete_users (λ (r : UserRow). r.id == u) fk d,
  ))
  affected n

-- What bcrypt.CompareHashAndPassword answers.
pub data Comparison : Type 0 where
  matched mismatched failed : Comparison

abbrev pub bcrypt_dummy_hash : Bytes
bcrypt_dummy_hash = lit "$2a$10$N9qo8uLOickgx2ZMRZoMyeIjZAgcfl7p92ldGxad68LJZdL17lhWy"

module _ (compare : Bytes → Bytes → Comparison) where
  -- The comparison of a row's hash, or of the dummy hash where there is no row.
  abbrev authenticated : Bytes → Option UserRow → Exec (Bool × ℕ)
  authenticated password none = elim (compare bcrypt_dummy_hash password) [
    | matched ↦ pure (false, 0)
    | mismatched ↦ pure (false, 0)
    | failed ↦ raise bad_hash
  ]
  authenticated password (some r) = elim (compare r.password_hash password) [
    | matched ↦ pure (true, r.id)
    | mismatched ↦ pure (false, 0)
    | failed ↦ raise bad_hash
  ]

  unfoldable pub authenticate_user : (username password : Bytes) → Exec (Bool × ℕ)
  authenticate_user username password = do
    found ← query (λ d. first_row (named username) d.users)
    authenticated password found
