-- ===== src/Prelude/Lists.antt =====
-- Lists measured by native numbers, and the row selections that the SQL statements stand on.
use Prim.Native.Nat.{ℕ, zero, suc, ◌+◌}
use mathlib.Core.Path.{◌≡◌, refl}
use mathlib.Core.Bool.{Bool, false, not, ◌||◌}
use mathlib.Core.Option.{Option, none, some}
use mathlib.Core.List.{List, [], ◌∷◌, ◌++◌}
use native.Mathlib.Omega.{arith}
use go_contactd.Prelude.Tests.{if◌then◌else◌}

module _ {ℓ} {A : Type ℓ} where
  abbrev pub length : List A → ℕ
  length [] = 0
  length (x ∷ xs) = suc (length xs)

  abbrev pub take : ℕ → List A → List A
  take zero xs = []
  take (suc n) [] = []
  take (suc n) (x ∷ xs) = x ∷ take n xs

  abbrev pub drop : ℕ → List A → List A
  drop zero xs = xs
  drop (suc n) [] = []
  drop (suc n) (x ∷ xs) = drop n xs

  pub length-append : (xs ys : List A) → length (xs ++ ys) ≡ length xs + length ys
  length-append [] ys = omega arith
  length-append (x ∷ xs) ys = omega (arith, length-append xs ys)

  pub take-append-drop : (n : ℕ) (xs : List A) → take n xs ++ drop n xs ≡ xs
  take-append-drop zero xs = refl
  take-append-drop (suc n) [] = refl
  take-append-drop (suc n) (x ∷ xs) = rw (take-append-drop n xs)

-- Rows that pass a test: all of them, the first, whether there is one, and a change to each.
module _ {ℓ} {A : Type ℓ} (test : A → Bool) where
  abbrev pub where_rows : List A → List A
  where_rows [] = []
  where_rows (x ∷ xs) = if test x then x ∷ where_rows xs else where_rows xs

  abbrev pub first_row : List A → Option A
  first_row [] = none
  first_row (x ∷ xs) = if test x then some x else first_row xs

  abbrev pub any_row : List A → Bool
  any_row [] = false
  any_row (x ∷ xs) = test x || any_row xs

  abbrev pub update_rows : (A → A) → List A → List A
  update_rows f [] = []
  update_rows f (x ∷ xs) = (if test x then f x else x) ∷ update_rows f xs

  pub where_rows-append : (xs ys : List A) → where_rows (xs ++ ys) ≡ where_rows xs ++ where_rows ys
  where_rows-append [] ys = refl
  where_rows-append (x ∷ xs) ys = ground (arith, where_rows-append xs ys)

abbrev pub delete_rows {ℓ} : {A : Type ℓ} → (A → Bool) → List A → List A
delete_rows test = where_rows (λ x. not (test x))

-- ORDER BY, as a stable insertion sort.
module _ {ℓ} {A : Type ℓ} (le : A → A → Bool) where
  abbrev pub order_insert : A → List A → List A
  order_insert x [] = x ∷ []
  order_insert x (y ∷ ys) = if le x y then x ∷ y ∷ ys else y ∷ order_insert x ys

  abbrev pub order_by : List A → List A
  order_by [] = []
  order_by (x ∷ xs) = order_insert x (order_by xs)
