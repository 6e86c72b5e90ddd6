-- ===== src/Daemon/Startup.antt =====
-- What a start of internal/daemon/daemon.go may change, and what the seed list of
-- internal/config/config.go holds.
use go_contactd.Prelude.{
  ℕ, zero, suc, ◌&&◌, not, ltb, Bytes, Bool, true, false, List, [], ◌∷◌, Option, none, some,
  if◌then◌else◌, any_row, length, ◌≡◌, refl, ap, ◌∙◌, arith, Bool-cases, Option-cases, inl, inr,
}
use go_contactd.Strings.{trim_space, split}
use go_contactd.Strings.Paths.{is_empty}
use go_contactd.Store.Tables.{UserRow, BookRow, Card, Database}
use go_contactd.Store.Exec.{Result, ok, err, Conn, Exec, exec, pure, continue, ◌>>=◌}
use go_contactd.Store.Changes.{prune_card_changes_by_age, prune_card_changes_by_max_revisions}
use go_contactd.Store.Users.{user_count}
use go_contactd.Sync.History.{All}
use go_contactd.Daemon.{
  SeedUser, ServeConfig, seed_of, split_pair, parse_seed_parts, parse_seed_list, prune_once,
  seed_users, startup_store,
}

-- All but the log of changes.
abbrev pub kept : Database → List UserRow × List BookRow × List Card
kept d = (d.users, d.books, d.cards)

prune_by_age-kept :
    (cutoff : ℕ) (c : Conn) → kept (prune_card_changes_by_age cutoff c).1.db ≡ kept c.db
unfolding prune_card_changes_by_age exec
prune_by_age-kept cutoff c = ground arith

prune_by_revisions-kept :
    (keep : ℕ) (c : Conn) → kept (prune_card_changes_by_max_revisions keep c).1.db ≡ kept c.db
unfolding prune_card_changes_by_max_revisions exec
prune_by_revisions-kept zero c = refl
prune_by_revisions-kept (suc k) c = ground arith

continue-kept :
    {A B : Type 0} (r : Result A) (g : A → Exec B) (c : Conn)
    → ((a : A) → kept (g a c).1.db ≡ kept c.db)
    → kept (continue r g c).1.db ≡ kept c.db
continue-kept (ok a) g c k = k a
continue-kept (err e) g c k = refl

when-kept :
    (b : Bool) (m : Exec ℕ) (c : Conn)
    → kept (m c).1.db ≡ kept c.db
    → kept ((if b then m else pure 0) c).1.db ≡ kept c.db
when-kept true m c k = k
when-kept false m c k = refl

prune_once-kept :
    (cutoff : ℕ) (cfg : ServeConfig) (c : Conn) → kept (prune_once cutoff cfg c).1.db ≡ kept c.db
unfolding prune_once
prune_once-kept cutoff cfg c =
    let by_age : Exec ℕ =
      if ltb 0 cfg.change_retention_days then prune_card_changes_by_age cutoff else pure 0 in
    let by_max : Exec ℕ =
      if ltb 0 cfg.change_retention_max_revisions
      then prune_card_changes_by_max_revisions cfg.change_retention_max_revisions
      else pure 0 in
    continue-kept (by_age c).0 (λ n. by_max >>= λ m. pure tt) (by_age c).1
      (λ n.
        continue-kept (by_max (by_age c).1).0 (λ m. pure tt) (by_max (by_age c).1).1 (λ m. refl)
        ∙ when-kept (ltb 0 cfg.change_retention_max_revisions)
            (prune_card_changes_by_max_revisions cfg.change_retention_max_revisions) (by_age c).1
            (prune_by_revisions-kept cfg.change_retention_max_revisions (by_age c).1))
    ∙ when-kept (ltb 0 cfg.change_retention_days) (prune_card_changes_by_age cutoff) c
        (prune_by_age-kept cutoff c)

count_then-kept :
    (force : Bool) (seeding : Exec (Unit {0})) (c : Conn)
    → force ≡ false
    → ltb 0 (length c.db.users) ≡ true
    → kept ((user_count >>= λ n. if ltb 0 n && not force then pure tt else seeding) c).1.db
      ≡ kept c.db
unfolding user_count exec
count_then-kept force seeding c unforced populated = ground arith

-- A start without force_seed on a database that has users leaves users, address books and cards as
-- they were, whatever its outcome and whatever the configured seeds.
pub startup_store-kept :
    (valid_hash : Bytes → Bool) (now cutoff : ℕ) (cfg : ServeConfig) (c : Conn)
    → cfg.force_seed ≡ false
    → ltb 0 (length c.db.users) ≡ true
    → kept (startup_store valid_hash now cutoff cfg c).1.db ≡ kept c.db
unfolding startup_store
startup_store-kept valid_hash now cutoff cfg c unforced populated =
    let pruned = prune_once-kept cutoff cfg c in
    let bad = any_row (λ (u : SeedUser). not (valid_hash u.password_hash)) cfg.users in
    let c1 = (prune_once cutoff cfg c).1 in
    elim (Bool-cases bad) [
      | inl refused ↦ rw refused refl
      | inr valid ↦ rw valid (
          continue-kept (prune_once cutoff cfg c).0 _ c1 (λ t.
            count_then-kept cfg.force_seed (seed_users now cfg cfg.users) c1 unforced (
              ap (λ (k : List UserRow × List BookRow × List Card). ltb 0 (length k.0)) pruned
              ∙ populated))
          ∙ pruned)
    ]

abbrev pub Filled : SeedUser → Type 0
Filled u = (is_empty u.username ≡ false) × (is_empty u.password_hash ≡ false)

seed_of-Filled : (pair : Option (Bytes × Bytes)) (u : SeedUser) → seed_of pair ≡ some u → Filled u
seed_of-Filled none u e = absurd (ground arith)
seed_of-Filled (some (name, hash)) u e = ground arith

parts-Filled :
    (parts : List Bytes) (us : List SeedUser) → parse_seed_parts parts ≡ some us → All Filled us
unfolding parse_seed_parts
parts-Filled parts [] e = tt
parts-Filled [] (u ∷ us) e = absurd (ground arith)
parts-Filled (p ∷ parts) (u ∷ us) e = elim (Bool-cases (is_empty (trim_space p))) [
  | inl blank ↦ parts-Filled parts (u ∷ us) (ground arith)
  | inr visible ↦ elim (Option-cases (seed_of (split_pair (trim_space p)))) [
    | inl bad ↦ absurd (ground arith)
    | inr (v, first) ↦ elim (Option-cases (parse_seed_parts parts)) [
      | inl bad ↦ absurd (ground arith)
      | inr (vs, others) ↦ (
        seed_of-Filled (split_pair (trim_space p)) u (ground arith),
        parts-Filled parts us (ground arith),
      )
    ]
  ]
]

-- Each user of a seed list that is accepted has a name and a hash that are not empty.
pub parse_seed_list-Filled :
    (raw : Bytes) (us : List SeedUser) → parse_seed_list raw ≡ some us → All Filled us
unfolding parse_seed_list
parse_seed_list-Filled raw us e = parts-Filled (split raw 44) us e
