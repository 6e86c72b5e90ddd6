-- ===== src/Sync/History/Writes.antt =====
-- The card writes of internal/db/store.go in the history of a book.
use mathlib.Core.List.{append_assoc, append-nil}
use go_contactd.Prelude.{
  ℕ, ◌+◌, ◌==◌, ◌&&◌, ltb, Bytes, Bool, true, false, [], ◌∷◌, ◌++◌, Option, some, if◌then◌else◌,
  length, length-append, where_rows, where_rows-append, ◌≡◌, refl, sym, ap, ◌∙◌, arith, Bool-cases,
  inl, inr,
}
use go_contactd.Store.Tables.{Card, ChangeRow, Database, PutCardInput, PutCardResult}
use go_contactd.Store.Statements.{find_card, find_book, new_change}
use go_contactd.Store.Cards.Effect.{Stored, Removed}
use go_contactd.Store.Cards.Lookup.{content_at-Stored, content_at-Removed}
use go_contactd.Sync.History.{revision_at, Since, Logged, IsLatest}
use go_contactd.Sync.History.Lists.{
  Consecutive-append, Timed-append, after_changes-append, All-where_rows, first_row-bumped,
}

pub Stored-Logged :
    (sha256 : Bytes → Bytes) (now : ℕ) (in_ : PutCardInput) (d : Database) {res : PutCardResult}
    {d' : Database}
    → Stored sha256 now in_ (find_card in_.addressbook_id in_.href d) d res d'
    → Logged in_.addressbook_id now
        (new_change d.next_change in_.addressbook_id in_.href res.etag_hex false res.revision now)
        d
        d'
Stored-Logged sha256 now in_ d s = record {
  changes = s.changes;
  books = s.books;
  book = refl;
  time = refl;
  revision = s.revision;
  etags = λ b h. ground (arith, content_at-Stored sha256 now in_ b h d s);
}

pub Removed-Logged :
    (now b : ℕ) (h : Bytes) (card : Card) (d : Database) {rev : ℕ} {d' : Database}
    → Removed now b h card d rev d'
    → Logged b now (new_change d.next_change b h card.etag_hex true rev now) d d'
Removed-Logged now b h card d r = record {
  changes = r.changes;
  books = r.books;
  book = refl;
  time = refl;
  revision = r.bumped_to;
  etags = λ b' h'. ground (arith, content_at-Removed now b h b' h' card d r);
}

module _ (b r : ℕ) (v : Bytes → Option Bytes) (b' now : ℕ) (w : ChangeRow) (d d' : Database) where
  revision_at-Logged :
      (n : ℕ)
      → Logged b' now w d d'
      → revision_at b d ≡ some n
      → revision_at b d' ≡ some (if b' == b then n + 1 else n)
  unfolding find_book
  revision_at-Logged n l e = ground (arith, l.books, first_row-bumped b b' now d.books)

  abbrev since_r : ChangeRow → Bool
  since_r x = x.addressbook_id == b && ltb r x.revision

  -- A write to another book is none of the changes since.
  Since-other : Logged b' now w d d' → (b' == b) ≡ false → Since b r v d → Since b r v d'
  Since-other l other s = record {
    gone = s.gone;
    kept = s.kept;
    logged =
        ap (where_rows since_r) l.changes
        ∙ where_rows-append since_r d.changes (w ∷ [])
        ∙ ground (arith, s.logged, l.book, append-nil s.kept);
    numbered = s.numbered;
    head = ground (arith, revision_at-Logged _ l s.head);
    timed = s.timed;
    current = λ h. ground (arith, l.etags b h, s.current h);
  }

  -- A write to the book is the last of the changes since.
  Since-same :
      Logged b' now w d d' → (b' == b) ≡ true → IsLatest now d → Since b r v d → Since b r v d'
  Since-same l same latest s =
      let before = s.gone ++ s.kept in
      let regroup : s.gone ++ (s.kept ++ w ∷ []) ≡ before ++ w ∷ [] =
        sym (append_assoc s.gone s.kept (w ∷ [])) in
      let head' : revision_at b d' ≡ some (r + length before + 1) =
        ground (arith, revision_at-Logged (r + length before) l s.head) in
      let number : w.revision ≡ r + length before + 1 = ground (arith, l.revision) in
      record {
        gone = s.gone;
        kept = s.kept ++ w ∷ [];
        logged =
            ap (where_rows since_r) l.changes
            ∙ where_rows-append since_r d.changes (w ∷ [])
            ∙ ground (arith, s.logged, l.book, number);
        numbered = rw regroup (Consecutive-append r before w s.numbered number);
        head =
            head'
            ∙ ap some (
                omega
                  (arith, ap (length {A = ChangeRow}) regroup, length-append {0} before (w ∷ [])));
        timed =
            Timed-append s.kept w s.timed
              (rw (l.time, ← s.logged) (All-where_rows _ since_r d.changes latest));
        current =
            λ h. rw (regroup, after_changes-append) (ground (arith, l.etags b h, s.current h));
      }

  pub Since-Logged : Logged b' now w d d' → IsLatest now d → Since b r v d → Since b r v d'
  Since-Logged l latest s = elim (Bool-cases (b' == b)) [
    | inl same ↦ Since-same l same latest s
    | inr other ↦ Since-other l other s
  ]
