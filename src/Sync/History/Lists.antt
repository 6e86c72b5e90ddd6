-- ===== src/Sync/History/Lists.antt =====
-- Lists of changes: appending, filtering, and what pruning leaves of them.
use mathlib.Core.Option
use go_contactd.Prelude.{
  ℕ, ◌+◌, ◌≤◌, ◌==◌, Bytes, Bool, false, List, [], ◌∷◌, ◌++◌, Option, if◌then◌else◌, length,
  where_rows, delete_rows, first_row, update_rows, order_by, ◌≡◌, refl, sym, ap, arith, Bool-cases,
  inl, inr,
}
use go_contactd.Store.Tables.{BookRow, ChangeRow}
use go_contactd.Store.Statements.{book_is, bumped}
use go_contactd.Store.Changes.{change_le}
use go_contactd.Sync.History.{All, Consecutive, Timed, after_change, after_changes}

pub Consecutive-append :
    (r : ℕ) (ws : List ChangeRow) (w : ChangeRow)
    → Consecutive r ws
    → w.revision ≡ r + length ws + 1
    → Consecutive r (ws ++ w ∷ [])
Consecutive-append r [] w c e = (omega arith, tt)
Consecutive-append r (x ∷ ws) w c e = (c.0, Consecutive-append (r + 1) ws w c.1 (omega arith))

-- The second part of a run of revisions starts where the first ends.
pub Consecutive-drop :
    (r : ℕ) (xs ys : List ChangeRow) → Consecutive r (xs ++ ys) → Consecutive (r + length xs) ys
Consecutive-drop r [] ys c = rw (r_zero r) c
  where
    r_zero : (r : ℕ) → r + 0 ≡ r
    r_zero r = omega arith
Consecutive-drop r (x ∷ xs) ys c =
    let e : r + length (x ∷ xs) ≡ r + 1 + length xs = omega arith in
    rw e (Consecutive-drop (r + 1) xs ys c.1)

pub order_by-Consecutive :
    (r : ℕ) (ws : List ChangeRow) → Consecutive r ws → order_by change_le ws ≡ ws
order_by-Consecutive r [] c = refl
order_by-Consecutive r (x ∷ []) c = refl
order_by-Consecutive r (x ∷ y ∷ ws) c = ground (arith, order_by-Consecutive (r + 1) (y ∷ ws) c.1)

pub after_changes-append :
    (ws : List ChangeRow) (w : ChangeRow) (h : Bytes) (old : Option Bytes)
    → after_changes (ws ++ w ∷ []) h old ≡ after_change w h (after_changes ws h old)
after_changes-append [] w h old = refl
after_changes-append (x ∷ ws) w h old = after_changes-append ws w h (after_change x h old)

pub Timed-append :
    (ws : List ChangeRow) (w : ChangeRow)
    → Timed ws
    → All (λ (x : ChangeRow). x.changed_at ≤ w.changed_at) ws
    → Timed (ws ++ w ∷ [])
Timed-append [] w t a = (tt, tt)
Timed-append (x ∷ ws) w t a = (all_later ws t.0 a.0, Timed-append ws w t.1 a.1)
  where
    all_later :
        (ys : List ChangeRow)
        → All (λ (y : ChangeRow). x.changed_at ≤ y.changed_at) ys
        → x.changed_at ≤ w.changed_at
        → All (λ (y : ChangeRow). x.changed_at ≤ y.changed_at) (ys ++ w ∷ [])
    all_later [] h l = (l, tt)
    all_later (y ∷ ys) h l = (h.0, all_later ys h.1 l)

module _ {ℓ κ} {A : Type ℓ} (P : A → Type κ) (test : A → Bool) where
  pub All-where_rows : (xs : List A) → All P xs → All P (where_rows test xs)
  All-where_rows [] a = tt
  All-where_rows (x ∷ xs) a = elim (Bool-cases (test x)) [
    | inl t ↦ rw t (a.0, All-where_rows xs a.1)
    | inr f ↦ rw f (All-where_rows xs a.1)
  ]

pub where_rows_comm {ℓ} :
    {A : Type ℓ} (p q : A → Bool) (xs : List A)
    → where_rows p (where_rows q xs) ≡ where_rows q (where_rows p xs)
where_rows_comm p q [] = refl
where_rows_comm p q (x ∷ xs) = ground (arith, where_rows_comm p q xs)

-- Once a row is spared, so are all rows after it.
abbrev pub SparesRest : (ChangeRow → Bool) → List ChangeRow → Type 0
SparesRest doomed [] = Unit
SparesRest doomed (x ∷ xs) =
    (doomed x ≡ false → All (λ (y : ChangeRow). doomed y ≡ false) xs) × SparesRest doomed xs

spared-All :
    (doomed : ChangeRow → Bool) (xs : List ChangeRow)
    → All (λ (y : ChangeRow). doomed y ≡ false) xs
    → delete_rows doomed xs ≡ xs
spared-All doomed [] a = refl
spared-All doomed (x ∷ xs) a = ground (arith, spared-All doomed xs a.1)

-- What is pruned is then a first part of the list.
pub pruned_prefix :
    (doomed : ChangeRow → Bool) (xs : List ChangeRow)
    → SparesRest doomed xs
    → (lost : List ChangeRow) × (xs ≡ lost ++ delete_rows doomed xs)
pruned_prefix doomed [] s = ([], refl)
pruned_prefix doomed (x ∷ xs) s = elim (Bool-cases (doomed x)) [
  | inl dead ↦ let (lost, e) = pruned_prefix doomed xs s.1 in (x ∷ lost, rw dead (ap (◌∷◌ x) e))
  | inr alive ↦ ([], rw alive (ap (◌∷◌ x) (sym (spared-All doomed xs (s.0 alive)))))
]

pub first_row-bumped :
    (b b' now : ℕ) (books : List BookRow)
    → first_row (book_is b) (update_rows (book_is b') (bumped now) books) ≡ (
        if b' == b
        then Option.map (bumped now) (first_row (book_is b) books)
        else first_row (book_is b) books)
first_row-bumped b b' now [] = ground arith
first_row-bumped b b' now (x ∷ books) = ground (arith, first_row-bumped b b' now books)
