-- ===== src/Store/Access.antt =====
-- Passwords of internal/db/store.go: who AuthenticateUser lets in. `compare` is bcrypt's comparison.
use go_contactd.Prelude.{
  Bytes, true, false, List, [], ◌∷◌, ◌++◌, some, ◌≡◌, ◌≢◌, arith, ℕ, any_row, bytes_eq_iff,
  first_row, Option-cases, inl, inr,
}
use go_contactd.Store.Tables.{UserRow}
use go_contactd.Store.Exec.{ok, Conn, exec}
use go_contactd.Store.Users.{
  named, new_user, Comparison, matched, mismatched, failed, create_user, authenticate_user,
}

first_row-named :
    (username : Bytes) (rows : List UserRow) (r : UserRow)
    → first_row (named username) rows ≡ some r
    → r.username ≡ username
first_row-named username [] r e = absurd (ground arith)
first_row-named username (x ∷ rows) r e =
    ground (arith, first_row-named username rows r, bytes_eq_iff x.username username)

first_row-new :
    (username : Bytes) (rows : List UserRow) (r : UserRow)
    → any_row (named username) rows ≡ false
    → r.username ≡ username
    → first_row (named username) (rows ++ r ∷ []) ≡ some r
first_row-new username [] r e n = ground (arith, bytes_eq_iff r.username username)
first_row-new username (x ∷ rows) r e n = ground (arith, first_row-new username rows r)

module _ (compare : Bytes → Bytes → Comparison) where
  -- A login that is accepted is that of the first row with the user's name, its hash matches the
  -- password, and the answer is the row's id: a name without a row is never accepted, whatever the
  -- dummy hash matches. The tables stay as they are.
  pub authenticate_user-accepted :
      (username password : Bytes) (c : Conn) {u : ℕ} {c' : Conn}
      → authenticate_user compare username password c ≡ (ok (true, u), c')
      → (r : UserRow) × (first_row (named username) c.db.users ≡ some r)
        × (r.username ≡ username)
        × (compare r.password_hash password ≡ matched)
        × (u ≡ r.id)
        × (c'.db ≡ c.db)
  unfolding authenticate_user exec
  authenticate_user-accepted username password c h =
      elim (Option-cases (first_row (named username) c.db.users)) [
        | inl missing ↦ absurd (ground arith)
        | inr (r, found) ↦ (
          r,
          found,
          first_row-named username c.db.users r found,
          ground arith,
          ground arith,
          ground arith,
        )
      ]

  -- After a user has been created, when no statement fails in the driver any more and the
  -- comparison of the stored hash with a password is not an error, a login with that password is
  -- accepted, with the new id, exactly if the hash matches it.
  pub create_user-authenticate_user :
      (now : ℕ) (username password_hash password : Bytes) (c : Conn) {u : ℕ} {c' : Conn}
      → create_user now username password_hash c ≡ (ok u, c')
      → c'.faults ≡ []
      → (compare password_hash password ≢ failed)
      → authenticate_user compare username password c' ≡ elim (compare password_hash password) [
        | matched ↦ (ok (true, u), c')
        | mismatched ↦ (ok (false, 0), c')
        | failed ↦ (ok (false, 0), c')
      ]
  unfolding authenticate_user create_user exec
  create_user-authenticate_user now username password_hash password c made fine good = ground (
    arith,
    first_row-new username c.db.users (new_user c.db.next_user username password_hash now),
  )
