-- ===== src/Store/Exec/Laws.antt =====
-- What a statement, a sequence and a transaction leave behind.
use go_contactd.Prelude.{Bool, true, false, drop, ◌≡◌, refl, arith, if◌then◌else◌, ◌⊎◌, inl, inr}
use go_contactd.Store.Tables.{Database}
use go_contactd.Store.Exec.{
  StoreError, Result, ok, err, Conn, Exec, raise, exec, query, ◌>>=◌, with_immediate_tx,
}

-- A guard: what follows it ran if the guard passed, and a guard that fails writes nothing.
module _ {A : Type 0} where
  pub guarded-ok :
      (b : Bool) (x : StoreError) (m : Exec A) (c : Conn) {a : A} {c' : Conn}
      → (if b then raise x else m) c ≡ (ok a, c')
      → (b ≡ false) × (m c ≡ (ok a, c'))
  guarded-ok true x m c h = absurd (cc)
  guarded-ok false x m c h = (refl, h)

  pub guarded-err :
      (b : Bool) (x : StoreError) (m : Exec A) (c : Conn) {e : StoreError} {c' : Conn}
      → (m c ≡ (err e, c') → c'.db ≡ c.db)
      → (if b then raise x else m) c ≡ (err e, c')
      → c'.db ≡ c.db
  guarded-err true x m c k h = ground arith
  guarded-err false x m c k h = k h

-- The connection after the four statements up to BEGIN IMMEDIATE.
abbrev begun : Conn → Conn
begun c = record c { foreign_keys = true; faults = drop 4 c.faults }

-- A query hands on what it read, from tables that it leaves as they are.
pub query-bind-ok :
    {A B : Type 0} (q : Database → A) (f : A → Exec B) (c : Conn) {b : B} {c' : Conn}
    → (query q >>= f) c ≡ (ok b, c')
    → (c1 : Conn) × (c1.db ≡ c.db)
      × (c1.foreign_keys ≡ c.foreign_keys)
      × (f (q c.db) c1 ≡ (ok b, c'))
unfolding exec
query-bind-ok q f c h =
    let later = (query q c).1 in (later, ground arith, ground arith, ground arith)

module _ {A : Type 0} where
  -- A transaction that reports an error has changed no table, wherever in it the error arose.
  pub with_immediate_tx-err :
      (fn : Exec A) (c : Conn) {e : StoreError} {c' : Conn}
      → with_immediate_tx fn c ≡ (err e, c')
      → c'.db ≡ c.db
  unfolding with_immediate_tx
  with_immediate_tx-err fn c h = ground arith

  -- A transaction that succeeds has run its body with foreign keys on, and kept what it wrote.
  pub with_immediate_tx-ok :
      (fn : Exec A) (c : Conn) {a : A} {c' : Conn}
      → with_immediate_tx fn c ≡ (ok a, c')
      → (c1 c2 : Conn) × (c1.db ≡ c.db)
        × (c1.foreign_keys ≡ true)
        × (fn c1 ≡ (ok a, c2))
        × (c'.db ≡ c2.db)
  unfolding with_immediate_tx
  with_immediate_tx-ok fn c h = (begun c, (fn (begun c)).1, refl, refl, ground arith, ground arith)

-- An operation has answered or failed.
pub result-cases :
    {A : Type 0} (m : Exec A) (c : Conn)
    → ((a : A) × (m c ≡ (ok a, (m c).1))) ⊎ ((e : StoreError) × (m c ≡ (err e, (m c).1)))
result-cases m c = by_result (m c)
  where
    by_result :
        {A : Type 0} (r : Result A × Conn)
        → ((a : A) × (r ≡ (ok a, r.1))) ⊎ ((e : StoreError) × (r ≡ (err e, r.1)))
    by_result (ok a, c') = inl (a, refl)
    by_result (err e, c') = inr (e, refl)
