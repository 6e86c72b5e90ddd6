-- ===== src/Daemon.antt =====
-- Start-up of internal/daemon/daemon.go with the seed users of internal/config/config.go: the prune
-- round and the seeding of users. Errors carry the store's cause.
pub mod Startup
pub mod Server
use go_contactd.Prelude.{
  ℕ, zero, suc, ◌==◌, ◌&&◌, ◌||◌, not, ltb, Bytes, Bool, true, false, List, [], ◌∷◌, Option, none,
  some, if◌then◌else◌, any_row,
}
use go_contactd.Strings.{trim_space, split}
use go_contactd.Strings.Paths.{is_empty}
use go_contactd.Store.Exec.{
  Result, ok, err, not_found, bad_hash, Exec, pure, raise, continue, ◌>>=◌, ◌>>◌,
}
use go_contactd.Store.Books.{ensure_addressbook}
use go_contactd.Store.Changes.{prune_card_changes_by_age, prune_card_changes_by_max_revisions}
use go_contactd.Store.Users.{user_count, user_id_by_username, create_user, set_user_password_hash}

pub record SeedUser : Type 0 where
  pub username : Bytes
  pub password_hash : Bytes

-- The fields of config.ServeConfig that start-up and the handler read. Of the limits and of the
-- failure's delay, one that is not positive is 0.
pub record ServeConfig : Type 0 where
  pub base_url : Bytes
  pub request_max_bytes : ℕ
  pub vcard_max_bytes : ℕ
  pub enable_addressbook_color : Bool
  pub auth_max_concurrency : ℕ
  pub auth_fail_delay : ℕ
  pub force_seed : Bool
  pub default_book_slug : Bytes
  pub default_book_name : Bytes
  pub change_retention_days : ℕ
  pub change_retention_max_revisions : ℕ
  pub users : List SeedUser

-- strings.SplitN(s, ":", 2): `none` if there is no colon.
abbrev with_first : ℕ → Option (Bytes × Bytes) → Option (Bytes × Bytes)
with_first c none = none
with_first c (some (name, rest)) = some (c ∷ name, rest)

unfoldable pub split_pair : Bytes → Option (Bytes × Bytes)
split_pair [] = none
split_pair (c ∷ s) = let rest = split_pair s in if c == 58 then some ([], s) else with_first c rest

abbrev pub seed_of : Option (Bytes × Bytes) → Option SeedUser
seed_of none = none
seed_of (some (name, hash)) =
    if is_empty (trim_space name) || is_empty (trim_space hash)
    then none
    else some (record { username = trim_space name; password_hash = trim_space hash })

-- The loop of parseSeedList; `none` is its error.
unfoldable pub parse_seed_parts : List Bytes → Option (List SeedUser)
parse_seed_parts [] = some []
parse_seed_parts (part ∷ parts) =
    let rest = parse_seed_parts parts in
    if is_empty (trim_space part) then rest else elim (seed_of (split_pair (trim_space part))) [
      | none ↦ none
      | some u ↦ elim rest [ none ↦ none | some us ↦ some (u ∷ us) ]
    ]

unfoldable pub parse_seed_list : Bytes → Option (List SeedUser)
parse_seed_list raw = parse_seed_parts (split raw 44)

-- `cutoff` is time.Now().AddDate(0, 0, -cfg.ChangeRetentionDays).
unfoldable pub prune_once : (cutoff : ℕ) → ServeConfig → Exec (Unit {0})
prune_once cutoff cfg = do
  n ← if ltb 0 cfg.change_retention_days then prune_card_changes_by_age cutoff else pure 0
  m ←
      if ltb 0 cfg.change_retention_max_revisions
      then prune_card_changes_by_max_revisions cfg.change_retention_max_revisions
      else pure 0
  pure tt

-- seedUser once the user has been looked up.
abbrev pub seeded_id : (now : ℕ) → SeedUser → (force : Bool) → Result ℕ → Exec ℕ
seeded_id now seed force (err not_found) = create_user now seed.username seed.password_hash
seeded_id now seed force (err e) = raise e
seeded_id now seed force (ok id) =
    if force then set_user_password_hash id seed.password_hash >> pure id else pure id

abbrev pub looked_up : (now : ℕ) → SeedUser → (force : Bool) → Exec ℕ
looked_up now seed force c =
    let (r, c') = user_id_by_username seed.username c in seeded_id now seed force r c'

unfoldable pub seed_user : (now : ℕ) → ServeConfig → SeedUser → (force : Bool) → Exec (Unit {0})
seed_user now cfg seed force = do
  id ← looked_up now seed force
  book ← ensure_addressbook now id cfg.default_book_slug cfg.default_book_name
  pure tt

unfoldable pub seed_users : (now : ℕ) → ServeConfig → List SeedUser → Exec (Unit {0})
seed_users now cfg [] = pure tt
seed_users now cfg (seed ∷ seeds) = do
  seed_user now cfg seed cfg.force_seed
  seed_users now cfg seeds

-- `valid_hash` is whether bcrypt.Cost reads a hash.
unfoldable pub startup_store :
    (valid_hash : Bytes → Bool) (now cutoff : ℕ) → ServeConfig → Exec (Unit {0})
startup_store valid_hash now cutoff cfg =
    if any_row (λ (u : SeedUser). not (valid_hash u.password_hash)) cfg.users
    then raise bad_hash
    else do
      prune_once cutoff cfg
      n ← user_count
      if ltb 0 n && not cfg.force_seed then pure tt else seed_users now cfg cfg.users
