-- ===== src/Store/Exec.antt =====
-- Statements on a connection. A statement may fail in the driver (I/O, a busy database, a cancelled
-- context) whatever it says: `faults` says of each statement to come whether it does, and past its
-- end none does. SQLite undoes a failed statement. `foreign_keys` is the connection's pragma.
pub mod Laws
use go_contactd.Prelude.{ℕ, ◌==◌, Bool, true, false, List, [], ◌∷◌, if◌then◌else◌}
use go_contactd.Store.Tables.{Database}

pub data StoreError : Type 0 where
  not_found precondition_failed invalid_input unique_failed foreign_key_failed : StoreError
  hook_failed bad_hash driver_failed : StoreError

pub data Result {ℓ} (A : Type ℓ) : Type ℓ where
  ok : A → Result A
  err : StoreError → Result A

pub record Conn : Type 0 where
  pub db : Database
  pub foreign_keys : Bool
  pub faults : List Bool

abbrev pub Exec : Type 0 → Type 0
Exec A = Conn → Result A × Conn

-- A statement, given whether foreign keys are enforced.
abbrev pub Statement : Type 0 → Type 0
Statement A = Bool → Database → Result (A × Database)

module _ {A : Type 0} where
  abbrev pub pure : A → Exec A
  pure a c = (ok a, c)

  abbrev pub raise : StoreError → Exec A
  raise e c = (err e, c)

  abbrev pub settle : Result (A × Database) → Conn → Result A × Conn
  settle (ok (a, d)) c = (ok a, record c { db = d })
  settle (err e) c = (err e, c)

  -- One statement, with the schedule of the ones after it.
  abbrev pub attempt : List Bool → Statement A → Conn → Result A × Conn
  attempt [] st c = settle (st c.foreign_keys c.db) c
  attempt (true ∷ later) st c = (err driver_failed, record c { faults = later })
  attempt (false ∷ later) st c = settle (st c.foreign_keys c.db) (record c { faults = later })

  unfoldable pub exec : Statement A → Exec A
  exec st c = attempt c.faults st c

abbrev pub query : {A : Type 0} → (Database → A) → Exec A
query q = exec (λ fk d. ok (q d, d))

module _ {A B : Type 0} where
  abbrev pub continue : Result A → (A → Exec B) → Exec B
  continue (ok a) f c = f a c
  continue (err e) f c = (err e, c)

  infixl 5 ◌>>=◌ ◌>>◌
  abbrev pub ◌>>=◌ : Exec A → (A → Exec B) → Exec B
  ◌>>=◌ m f c = let (r, c') = m c in continue r f c'

  abbrev pub ◌>>◌ : Exec A → Exec B → Exec B
  m >> n = m >>= λ _. n

-- Ready: SELECT 1 reads a 1.
unfoldable pub ready : Exec (Unit {0})
unfolding exec
ready = query (λ d. 1) >>= λ one. if one == 1 then pure tt else raise driver_failed

-- PRAGMA foreign_keys = ON, on this connection.
unfoldable pub set_foreign_keys : Exec (Unit {0})
unfolding exec
set_foreign_keys c =
    let (r, c') = query (λ _. tt) c in
    continue r (λ _ d. (ok tt, record d { foreign_keys = true })) c'

-- applyConnPragmas: foreign_keys and busy_timeout.
unfoldable pub apply_conn_pragmas : Exec (Unit {0})
unfolding set_foreign_keys
apply_conn_pragmas = do set_foreign_keys; query (λ _. tt)

module _ {A : Type 0} where
  abbrev pub commit_or_rollback : Database → Result A × Conn → Result A × Conn
  commit_or_rollback before (err e, c) = (err e, record c { db = before })
  commit_or_rollback before (ok a, c) =
      let (r, c') = query (λ _. tt) c in
      continue r (λ _ d. (ok a, d)) (elim r [ ok _ ↦ c' | err _ ↦ record c' { db = before } ])

  -- BEGIN IMMEDIATE takes the write lock, so nothing else writes before the end; then fn and
  -- COMMIT, and ROLLBACK, which is taken to succeed, unless both did. db.Conn, the pragmas and BEGIN may fail first.
  unfoldable pub with_immediate_tx : Exec A → Exec A
  unfolding exec apply_conn_pragmas
  with_immediate_tx fn = do
    query (λ _. tt)
    apply_conn_pragmas
    query (λ _. tt)
    λ c. commit_or_rollback c.db (fn c)
