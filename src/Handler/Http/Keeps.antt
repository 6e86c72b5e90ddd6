-- ===== src/Handler/Http/Keeps.antt =====
-- What a handler of internal/server/handler.go leaves as it was, call by call.
use mathlib.Core.Path.{subst}
use go_contactd.Prelude.{◌≡◌, refl, sym, ◌∙◌, ap, Bool, true, false, if◌then◌else◌}
use go_contactd.Store.Tables.{Database}
use go_contactd.Sync.Service.{State}
use go_contactd.Handler.Http.{
  Outcome, ok, stop, Action, continue, ◌>>=◌, Handler, respond, response_of, pure, HttpResponse,
}

module _ {X : Type 0} (f : Database → X) where
  abbrev pub ActionKeeps : {E A : Type 0} → Action E A → Type 0
  ActionKeeps m = (s : State) → f (m s).1.conn.db ≡ f s.conn.db

  module _ {E A B : Type 0} where
    continue-Keeps :
        (r : Outcome E A) (g : A → Action E B) (s : State)
        → ((a : A) → ActionKeeps (g a))
        → f (continue r g s).1.conn.db ≡ f s.conn.db
    continue-Keeps (ok a) g s k = k a s
    continue-Keeps (stop e) g s k = refl

    pub bind-Keeps :
        (m : Action E A) (g : A → Action E B)
        → ActionKeeps m
        → ((a : A) → ActionKeeps (g a))
        → ActionKeeps (m >>= g)
    bind-Keeps m g km kg s = continue-Keeps (m s).0 g (m s).1 kg ∙ km s

  -- Whichever way a test goes.
  pub if-Keeps :
      {E A : Type 0} (b : Bool) (m n : Action E A)
      → ActionKeeps m
      → ActionKeeps n
      → ActionKeeps (if b then m else n)
  if-Keeps true m n km kn = km
  if-Keeps false m n km kn = kn

  -- What a handler answers with does not matter.
  pub response_of-Keeps :
      (x : Outcome HttpResponse HttpResponse × State) → f (response_of x).1.conn.db ≡ f x.1.conn.db
  response_of-Keeps (ok a, s) = refl
  response_of-Keeps (stop a, s) = refl

  pub respond-Keeps :
      (m : Handler HttpResponse)
      → ActionKeeps m
      → (s : State) → f (respond m s).1.conn.db ≡ f s.conn.db
  respond-Keeps m k s = response_of-Keeps (m s) ∙ k s

  -- What runs after a call that leaves the tables as they are.
  pub bind-after :
      {E A B : Type 0} (m : Action E A) (g : A → Action E B) (s : State)
      → (m s).1.conn.db ≡ s.conn.db
      → ((a : A) (s' : State) → s'.conn.db ≡ s.conn.db → f (g a s').1.conn.db ≡ f s'.conn.db)
      → f ((m >>= g) s).1.conn.db ≡ f s.conn.db
  bind-after m g s idle k = by_outcome (m s).0 ∙ ap f idle
    where
      by_outcome : (r : Outcome _ _) → f (continue r g (m s).1).1.conn.db ≡ f (m s).1.conn.db
      by_outcome (ok a) = k a (m s).1 idle
      by_outcome (stop e) = refl

-- A property of the tables after a call that leaves them as they are.
module _ (P : Database → Type 0) {E A B : Type 0} where
  pub bind-Holds :
      (m : Action E A) (g : A → Action E B) (s : State)
      → (m s).1.conn.db ≡ s.conn.db
      → P s.conn.db
      → ((a : A) (s' : State) → (m s).0 ≡ ok a → P s'.conn.db → P (g a s').1.conn.db)
      → P ((m >>= g) s).1.conn.db
  bind-Holds m g s idle holds k = by_outcome (m s).0 refl (subst P (sym idle) holds)
    where
      by_outcome :
          (r : Outcome E A) → (m s).0 ≡ r → P (m s).1.conn.db → P (continue r g (m s).1).1.conn.db
      by_outcome (ok a) e h = k a (m s).1 e h
      by_outcome (stop x) e h = h

  pub then-Holds :
      (m : Action E A) (g : A → B) (s : State)
      → P (m s).1.conn.db
      → P ((m >>= λ a. pure (g a)) s).1.conn.db
  then-Holds m g s holds = by_outcome (m s).0
    where
      by_outcome : (r : Outcome E A) → P (continue r (λ a. pure (g a)) (m s).1).1.conn.db
      by_outcome (ok a) = holds
      by_outcome (stop x) = holds
