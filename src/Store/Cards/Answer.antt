-- ===== src/Store/Cards/Answer.antt =====
-- What putCard of internal/db/store.go answers when no statement fails in the driver.
use mathlib.Core.Option
use go_contactd.Prelude.{
  ℕ, ◌+◌, not, Bytes, Bool, true, false, List, [], ◌∷◌, Option, none, some, if◌then◌else◌, ◌≡◌,
  refl, ap, ◌∙◌, arith, any_row, first_row, update_rows, Bool-cases, inl, inr,
}
use go_contactd.Store.Tables.{
  BookRow, Card, Database, PutCardInput, PutCardConditions, PutCardResult,
}
use go_contactd.Store.Exec.{
  Result, Exec, commit_or_rollback, query, raise, ◌>>=◌, ok, err, invalid_input,
  precondition_failed, unique_failed, Conn, exec, set_foreign_keys, apply_conn_pragmas,
  with_immediate_tx,
}
use go_contactd.Store.Statements.{
  card_at, uid_taken, book_is, bumped, find_card, find_book, insert_card, update_card,
  bump_revision, select_revision, insert_change,
}
use go_contactd.Store.Vcard.{canonicalize_vcard, compute_etag_hex}
use go_contactd.Store.Cards.{
  exists, invalid_put, precondition_fails, write_card, put_card_conn, put_card_checked,
}

pub first_row-any_row :
    {A : Type 0} (test : A → Bool) (xs : List A)
    → any_row test xs ≡ elim (first_row test xs) [ none ↦ false | some x ↦ true ]
first_row-any_row test [] = refl
first_row-any_row test (x ∷ xs) = ground (arith, first_row-any_row test xs)

first_row-bumped :
    (b now : ℕ) (rows : List BookRow)
    → first_row (book_is b) (update_rows (book_is b) (bumped now) rows)
      ≡ Option.map (bumped now) (first_row (book_is b) rows)
first_row-bumped b now [] = refl
first_row-bumped b now (r ∷ rows) = ground (arith, first_row-bumped b now rows)

pub any_row-bumped :
    (k b now : ℕ) (rows : List BookRow)
    → any_row (book_is k) (update_rows (book_is b) (bumped now) rows) ≡ any_row (book_is k) rows
any_row-bumped k b now [] = refl
any_row-bumped k b now (r ∷ rows) = ground (arith, any_row-bumped k b now rows)

query-run :
    {A B : Type 0} (q : Database → A) (f : A → Exec B) (c : Conn)
    → c.faults ≡ []
    → (query q >>= f) c ≡ f (q c.db) c
unfolding exec
query-run q f c fine = rw fine refl

if-at :
    {A : Type 0} (b : Bool) (m n : Exec A) (c : Conn)
    → (if b then m else n) c ≡ (if b then m c else n c)
if-at true m n c = refl
if-at false m n c = refl

in_transaction :
    {A : Type 0} (fn : Exec A) (c : Conn)
    → c.faults ≡ []
    → with_immediate_tx fn c ≡ commit_or_rollback c.db (fn (record c { foreign_keys = true }))
unfolding with_immediate_tx apply_conn_pragmas set_foreign_keys exec
in_transaction fn c fine = rw fine refl

commit-answer :
    {A : Type 0} (before : Database) (out : Result A × Conn)
    → out.1.faults ≡ []
    → (commit_or_rollback before out).0 ≡ out.0
unfolding exec
commit-answer before (err e, c) still = refl
commit-answer before (ok a, c) still = rw still refl

pub with_immediate_tx-answer :
    {A : Type 0} (fn : Exec A) (c : Conn)
    → c.faults ≡ []
    → (fn (record c { foreign_keys = true })).1.faults ≡ []
    → (with_immediate_tx fn c).0 ≡ (fn (record c { foreign_keys = true })).0
with_immediate_tx-answer fn c fine still =
    ap (λ (x : Result _ × Conn). x.0) (in_transaction fn c fine)
    ∙ commit-answer c.db (fn (record c { foreign_keys = true })) still

-- The answer where the book is there.
abbrev pub put_answer :
    (Bytes → Bytes)
    → PutCardInput
    → Option PutCardConditions
    → BookRow
    → Database
    → Result PutCardResult
put_answer sha256 in_ cond book d =
    let existing = find_card in_.addressbook_id in_.href d in
    if invalid_put in_
    then err invalid_input
    else if precondition_fails cond existing
    then err precondition_failed
    else if any_row (uid_taken in_.addressbook_id in_.href in_.uid) d.cards
    then err unique_failed
    else ok (record {
      created = not (exists existing);
      etag_hex = compute_etag_hex sha256 (canonicalize_vcard in_.vcard);
      revision = book.revision + 1;
    })

module _ (sha256 : Bytes → Bytes) (now : ℕ) where
  write_card-answer :
      (in_ : PutCardInput) (c : Conn) (book : BookRow)
      → c.faults ≡ []
      → find_book in_.addressbook_id c.db ≡ some book
      → (write_card sha256 now none in_ (find_card in_.addressbook_id in_.href c.db) c).0 ≡ (
          if any_row (uid_taken in_.addressbook_id in_.href in_.uid) c.db.cards
          then err unique_failed
          else ok (record {
            created = not (exists (find_card in_.addressbook_id in_.href c.db));
            etag_hex = compute_etag_hex sha256 (canonicalize_vcard in_.vcard);
            revision = book.revision + 1;
          }))
  unfolding write_card exec insert_card update_card bump_revision select_revision insert_change
      find_book find_card
  write_card-answer in_ c book fine there = ground (
    arith,
    first_row-any_row (card_at in_.addressbook_id in_.href) c.db.cards,
    first_row-any_row (book_is in_.addressbook_id) c.db.books,
    first_row-bumped in_.addressbook_id now c.db.books,
    any_row-bumped in_.addressbook_id in_.addressbook_id now c.db.books,
  )

  write_card-faults :
      (in_ : PutCardInput) (existing : Option Card) (c : Conn)
      → c.faults ≡ []
      → (write_card sha256 now none in_ existing c).1.faults ≡ []
  unfolding write_card exec
  write_card-faults in_ existing c fine = ground arith

  put_card_conn-run :
      (in_ : PutCardInput) (cond : Option PutCardConditions) (c : Conn)
      → c.faults ≡ []
      → put_card_conn sha256 now none in_ cond c ≡ (
          if invalid_put in_
          then (err invalid_input, c)
          else if precondition_fails cond (find_card in_.addressbook_id in_.href c.db)
          then (err precondition_failed, c)
          else write_card sha256 now none in_ (find_card in_.addressbook_id in_.href c.db) c)
  unfolding put_card_conn
  put_card_conn-run in_ cond c fine = elim (Bool-cases (invalid_put in_)) [
    | inl bad ↦ rw bad refl
    | inr valid ↦ rw valid (
        query-run (find_card in_.addressbook_id in_.href) _ c fine
        ∙ if-at (precondition_fails cond (find_card in_.addressbook_id in_.href c.db))
            (raise precondition_failed) _ c)
  ]

  pub put_card_conn-answer :
      (in_ : PutCardInput) (cond : Option PutCardConditions) (c : Conn) (book : BookRow)
      → c.faults ≡ []
      → find_book in_.addressbook_id c.db ≡ some book
      → ((put_card_conn sha256 now none in_ cond c).0 ≡ put_answer sha256 in_ cond book c.db)
        × ((put_card_conn sha256 now none in_ cond c).1.faults ≡ [])
  put_card_conn-answer in_ cond c book fine there =
      let existing = find_card in_.addressbook_id in_.href c.db in
      (
        ground (arith, put_card_conn-run in_ cond c fine, write_card-answer in_ c book fine there),
        ground (arith, put_card_conn-run in_ cond c fine, write_card-faults in_ existing c fine),
      )

  -- When the book is there, no statement fails in the driver and no test hook is set, a put
  -- answers, in this order: an error for an invalid input, an error for a condition that fails, an
  -- error for a UID that another card of the book has, and else success, with the next revision of
  -- the book, the ETag of the canonical text and whether the card is new.
  pub put_card_checked-answer :
      (in_ : PutCardInput) (cond : Option PutCardConditions) (c : Conn) (book : BookRow)
      → c.faults ≡ []
      → find_book in_.addressbook_id c.db ≡ some book
      → (put_card_checked sha256 now none in_ cond c).0 ≡ put_answer sha256 in_ cond book c.db
  unfolding put_card_checked
  put_card_checked-answer in_ cond c book fine there =
      let inside = record c { foreign_keys = true } in
      let (answer, still) = put_card_conn-answer in_ cond inside book fine there in
      let committed =
        with_immediate_tx-answer (put_card_conn sha256 now none in_ cond) c fine still in
      ground (arith, committed, answer)
