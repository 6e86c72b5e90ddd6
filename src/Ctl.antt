-- ===== src/Ctl.antt =====
-- The user commands of internal/ctl/ctl.go over the store. A command ends with an exit code and what
-- it has printed to stdout; messages on stderr are left out. Package flag parses the arguments, bcrypt
-- makes the hashes, and `opened` is whether the database could be opened.
pub mod Export
pub mod Import
use go_contactd.Prelude.{
  ℕ, ◌==◌, ◌&&◌, ◌||◌, not, ltb, leb, Bytes, Bool, true, false, List, [], ◌∷◌, ◌++◌, Option, none,
  some, lit, bytes_eq, if◌then◌else◌, length, any_row,
}
use mathlib.Core.List.{reverse}
use go_contactd.Strings.{trim_space, is_blank, trim_back, format_int}
use go_contactd.Strings.Paths.{is_empty}
use go_contactd.Store.Tables.{User}
use go_contactd.Store.Exec.{Result, ok, err, StoreError, not_found, Conn, Exec}
use go_contactd.Store.Users.{
  create_user, list_users, delete_user_by_username, delete_user_by_id, user_id_by_username,
  set_user_password_hash,
}
use go_contactd.Store.Books.{ensure_addressbook}
use go_contactd.Carddav.{is_unique_err}

-- The arguments of a command: a token that asks for help comes first, flags that do not parse, or
-- flags with the positional arguments after them.
pub data Arguments (F : Type 0) : Type 0 where
  help bad_flags : Arguments F
  flags : F → (positional : List Bytes) → Arguments F

pub record Exit : Type 0 where
  pub code : ℕ
  pub output : Bytes

abbrev pub exit : ℕ → Exit
exit code = record { code = code; output = [] }

abbrev pub Command : Type 0
Command = Conn → Exit × Conn

abbrev pub leave : Exit → Command
leave e c = (e, c)

-- A call of the store: the exit for its error, or what comes after it.
abbrev pub or_exit : {A : Type 0} → (StoreError → Exit) → Result A → (A → Command) → Command
or_exit f (ok a) k = k a
or_exit f (err e) k = leave (f e)

abbrev pub then_do : {A : Type 0} → Exec A → (StoreError → Exit) → (A → Command) → Command
then_do m f k c = let (r, c') = m c in or_exit f r k c'

abbrev pub db_error : StoreError → Exit
db_error e = exit 1

-- An error that is ErrNotFound has its own exit code.
abbrev pub not_found_or_db_error : StoreError → Exit
not_found_or_db_error not_found = exit 3
not_found_or_db_error e = exit 1

-- defaultCLIOpt
unfoldable pub default_cli_opt : (v fallback : Bytes) → Bytes
default_cli_opt v fallback = if is_blank v then fallback else trim_space v

abbrev is_alphanumeric : ℕ → Bool
is_alphanumeric c = leb 97 c && leb c 122 || leb 48 c && leb c 57

abbrev is_name_byte : ℕ → Bool
is_name_byte c = is_alphanumeric c || c == 95 || c == 45

abbrev first_is : (ℕ → Bool) → Bytes → Bool
first_is test [] = false
first_is test (c ∷ s) = test c

-- usernameRE: ^[a-z0-9](?:[a-z0-9_-]{0,62}[a-z0-9])?$
unfoldable pub username_re : Bytes → Bool
username_re s =
    leb (length s) 64
    && first_is is_alphanumeric s
    && first_is is_alphanumeric (reverse s)
    && not (any_row (λ c. not (is_name_byte c)) s)

-- Whether validateUsername returns no error.
unfoldable pub validate_username : Bytes → Bool
validate_username username =
    username_re username
    && not (bytes_eq username (lit ".well-known") || bytes_eq username (lit "health"))

abbrev if_filled : Bytes → Option Bytes
if_filled [] = none
if_filled (c ∷ s) = some (c ∷ s)

-- `stdin` is what can be read of it; `none` is an error.
unfoldable pub resolve_password_input :
    (password : Bytes) (password_stdin : Bool) (stdin : Option Bytes) → Option Bytes
resolve_password_input [] false stdin = none
resolve_password_input [] true none = none
resolve_password_input [] true (some raw) = if_filled (trim_back ((13 ∷ []) ∷ (10 ∷ []) ∷ []) raw)
resolve_password_input (c ∷ password) true stdin = none
resolve_password_input (c ∷ password) false stdin = some (c ∷ password)

pub record UserAdd : Type 0 where
  pub username : Bytes
  pub password : Bytes
  pub password_stdin : Bool
  pub book_slug : Bytes
  pub book_name : Bytes

-- One of a name and an id; "" and 0 are not given. A negative id, which no row has, is left out.
pub record UserRef : Type 0 where
  pub username : Bytes
  pub id : ℕ

pub record UserPasswd : Type 0 where
  pub user : UserRef
  pub password : Bytes
  pub password_stdin : Bool

-- The arguments of a command with flags and no positional argument.
abbrev pub with_flags : {F : Type 0} → Arguments F → (F → Command) → Command
with_flags help k = leave (exit 0)
with_flags bad_flags k = leave (exit 2)
with_flags (flags f []) k = k f
with_flags (flags f (p ∷ ps)) k = leave (exit 2)

abbrev usage_or : {A : Type 0} → Option A → (A → Command) → Command
usage_or none k = leave (exit 2)
usage_or (some a) k = k a

-- Exactly one of the name and the id.
abbrev is_one : UserRef → Bool
is_one u = not (is_empty u.username && u.id == 0 || not (is_empty u.username) && not (u.id == 0))

abbrev named_user : UserRef → Bytes
named_user u =
    if not (is_empty u.username)
    then lit "username=" ++ u.username
    else lit "id=" ++ format_int u.id

abbrev line : Bytes → Bytes
line s = s ++ 10 ∷ []

module _ (opened : Bool) (now : ℕ) (hash_of : Bytes → Option Bytes) where
  -- Once the database is open.
  abbrev pub in_store : Command → Command
  in_store k = if opened then k else leave (exit 1)

  -- bcrypt.GenerateFromPassword
  abbrev hashed : Bytes → (Bytes → Command) → Command
  hashed password k = elim (hash_of password) [ none ↦ leave (exit 1) | some hash ↦ k hash ]

  abbrev create_err : StoreError → Exit
  create_err e = if is_unique_err e then exit 2 else exit 1

  abbrev add_user : UserAdd → (password : Bytes) → Command
  add_user f password = hashed password (λ hash.
      then_do (create_user now f.username hash) create_err (λ id.
        then_do (ensure_addressbook now id f.book_slug f.book_name) db_error (λ book.
          leave (record {
            code = 0;
            output =
                line (lit "user added: id=" ++ (format_int id ++ (lit " username=" ++ f.username)));
          }))))

  unfoldable pub run_user_add : Arguments UserAdd → (stdin : Option Bytes) → Command
  run_user_add args stdin = with_flags args (λ f.
      if is_blank f.username || not (validate_username f.username)
      then leave (exit 2)
      else usage_or (resolve_password_input f.password f.password_stdin stdin)
          (λ password. in_store (add_user f password)))

  -- The table of users; `json` encodes them for the other format and is `none` on an error.
  abbrev table : List User → Bytes
  table [] = []
  table (u ∷ us) = line (format_int u.id ++ (9 ∷ u.username)) ++ table us

  abbrev printed : Option Bytes → Exit
  printed none = exit 1
  printed (some out) = record { code = 0; output = out }

  unfoldable pub run_user_list : (json : List User → Option Bytes) → Arguments Bytes → Command
  run_user_list json args = with_flags args (λ format.
      if not (bytes_eq format (lit "table")) && not (bytes_eq format (lit "json"))
      then leave (exit 2)
      else in_store (
          then_do list_users db_error (λ users. leave (
            printed (
              if bytes_eq format (lit "json")
              then json users
              else some (line (lit "ID" ++ (9 ∷ lit "USERNAME")) ++ table users))))))

  unfoldable pub run_user_delete : Arguments UserRef → Command
  run_user_delete args = with_flags args (λ u.
      if not (is_one u)
      then leave (exit 2)
      else in_store (
          then_do
            (if not (is_empty u.username)
              then delete_user_by_username u.username
              else delete_user_by_id u.id)
            not_found_or_db_error
            (λ done.
              leave (record { code = 0; output = line (lit "user deleted: " ++ named_user u) }))))

  abbrev set_hash : UserRef → (id : ℕ) (hash : Bytes) → Command
  set_hash u id hash = then_do (set_user_password_hash id hash) not_found_or_db_error (λ done.
      leave (record { code = 0; output = line (lit "user password updated: " ++ named_user u) }))

  unfoldable pub run_user_passwd : Arguments UserPasswd → (stdin : Option Bytes) → Command
  run_user_passwd args stdin = with_flags args (λ f.
      if not (is_one f.user)
      then leave (exit 2)
      else usage_or (resolve_password_input f.password f.password_stdin stdin) (λ password.
        in_store (
          hashed password (λ hash.
            if not (is_empty f.user.username)
            then then_do (user_id_by_username f.user.username) not_found_or_db_error
                (λ id. set_hash f.user id hash)
            else set_hash f.user f.user.id hash))))
