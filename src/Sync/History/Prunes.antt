-- ===== src/Sync/History/Prunes.antt =====
-- Pruning of the change log of internal/db/store.go in the history of a book.
use mathlib.Core.List.{append_assoc}
use go_contactd.Prelude.{
  ℕ, ◌+◌, ◌≤◌, ◌==◌, ◌&&◌, ltb, Bytes, Bool, false, List, [], ◌∷◌, ◌++◌, Option, where_rows,
  delete_rows, not, length, ◌≡◌, refl, sym, ap, ◌∙◌, arith, Bool-cases, inl, inr,
}
use go_contactd.Store.Tables.{BookRow, ChangeRow, Database}
use go_contactd.Store.Statements.{find_card, find_book}
use go_contactd.Store.Changes.{beyond}
use go_contactd.Sync.History.{All, Consecutive, Timed, Since}
use go_contactd.Sync.History.Lists.{Consecutive-drop, where_rows_comm, SparesRest, pruned_prefix}

Timed-drop : (xs ys : List ChangeRow) → Timed (xs ++ ys) → Timed ys
Timed-drop [] ys t = t
Timed-drop (x ∷ xs) ys t = Timed-drop xs ys t.1

abbrev pub pruned : (ChangeRow → Bool) → Database → Database
pruned doomed d = record d { changes = delete_rows doomed d.changes }

-- Pruning a first part of what is kept moves it to what is gone.
Since-pruned :
    (b r : ℕ) (v : Bytes → Option Bytes) (doomed : ChangeRow → Bool) (d : Database)
    (s : Since b r v d)
    → SparesRest doomed s.kept
    → Since b r v (pruned doomed d)
unfolding find_card find_book
Since-pruned b r v doomed d s spares =
    let (lost, parts) = pruned_prefix doomed s.kept spares in
    let regroup : (s.gone ++ lost) ++ delete_rows doomed s.kept ≡ s.gone ++ s.kept =
      append_assoc s.gone lost (delete_rows doomed s.kept) ∙ ap (λ k. s.gone ++ k) (sym parts) in
    record {
      gone = s.gone ++ lost;
      kept = delete_rows doomed s.kept;
      logged =
          where_rows_comm (λ (x : ChangeRow). x.addressbook_id == b && ltb r x.revision)
            (λ x. not (doomed x)) d.changes
          ∙ ap (delete_rows doomed) s.logged;
      numbered = rw regroup s.numbered;
      head = rw regroup s.head;
      timed = Timed-drop lost (delete_rows doomed s.kept) (rw parts at s.timed);
      current = λ h. rw regroup (s.current h);
    }

-- WHERE changed_at < cutoff spares what came after a row that it spares.
SparesRest-age :
    (cutoff : ℕ) (ws : List ChangeRow)
    → Timed ws
    → SparesRest (λ (x : ChangeRow). ltb x.changed_at cutoff) ws
SparesRest-age cutoff [] t = tt
SparesRest-age cutoff (w ∷ ws) t = (λ young. go ws t.0 young, SparesRest-age cutoff ws t.1)
  where
    go :
        (ys : List ChangeRow)
        → All (λ (y : ChangeRow). w.changed_at ≤ y.changed_at) ys
        → ltb w.changed_at cutoff ≡ false
        → All (λ (y : ChangeRow). ltb y.changed_at cutoff ≡ false) ys
    go [] a young = tt
    go (y ∷ ys) a young = (ground (arith, a.0), go ys a.1 young)

-- A change with a larger revision of the same book is not beyond the limit either.
beyond_mono :
    (keep : ℕ) (books : List BookRow) (x y : ChangeRow)
    → x.addressbook_id ≡ y.addressbook_id
    → x.revision ≤ y.revision
    → beyond keep books x ≡ false
    → beyond keep books y ≡ false
beyond_mono keep [] x y same le e = refl
beyond_mono keep (ab ∷ books) x y same le e = ground (arith, beyond_mono keep books x y same le)

All-book :
    (b r : ℕ) (cs : List ChangeRow)
    → All
        (λ (x : ChangeRow). x.addressbook_id ≡ b)
        (where_rows (λ (x : ChangeRow). x.addressbook_id == b && ltb r x.revision) cs)
All-book b r [] = tt
All-book b r (x ∷ cs) = elim (Bool-cases (x.addressbook_id == b && ltb r x.revision)) [
  | inl t ↦ rw t (ground arith, All-book b r cs)
  | inr f ↦ rw f (All-book b r cs)
]

-- WHERE revision <= head - keep spares what came after a row that it spares.
SparesRest-revisions :
    (keep : ℕ) (books : List BookRow) (b n : ℕ) (ws : List ChangeRow)
    → Consecutive n ws
    → All (λ (x : ChangeRow). x.addressbook_id ≡ b) ws
    → SparesRest (beyond keep books) ws
SparesRest-revisions keep books b n [] c a = tt
SparesRest-revisions keep books b n (w ∷ ws) c a = (
  λ spared. go (n + 1) ws c.1 a.1 (omega (arith, c.0)) spared,
  SparesRest-revisions keep books b (n + 1) ws c.1 a.1,
)
  where
    go :
        (m : ℕ) (ys : List ChangeRow)
        → Consecutive m ys
        → All (λ (y : ChangeRow). y.addressbook_id ≡ b) ys
        → w.revision ≤ m
        → beyond keep books w ≡ false
        → All (λ (y : ChangeRow). beyond keep books y ≡ false) ys
    go m [] cs bs le spared = tt
    go m (y ∷ ys) cs bs le spared = (
      beyond_mono keep books w y (a.0 ∙ sym bs.0) (omega (arith, cs.0)) spared,
      go (m + 1) ys cs.1 bs.1 (omega arith) spared,
    )

module _ (b r : ℕ) (v : Bytes → Option Bytes) (d : Database) (s : Since b r v d) where
  pub Since-prune_by_age :
      (cutoff : ℕ) → Since b r v (pruned (λ (x : ChangeRow). ltb x.changed_at cutoff) d)
  Since-prune_by_age cutoff =
      Since-pruned b r v (λ (x : ChangeRow). ltb x.changed_at cutoff) d s
        (SparesRest-age cutoff s.kept s.timed)

  pub Since-prune_by_revisions : (keep : ℕ) → Since b r v (pruned (beyond keep d.books) d)
  Since-prune_by_revisions keep = Since-pruned b r v (beyond keep d.books) d s (
      SparesRest-revisions keep d.books b (r + length s.gone) s.kept
        (Consecutive-drop r s.gone s.kept s.numbered) (rw (← s.logged) (All-book b r d.changes)))
