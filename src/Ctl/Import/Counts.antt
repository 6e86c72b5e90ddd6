-- ===== src/Ctl/Import/Counts.antt =====
-- The counts that a dry run of internal/ctl/ctl.go prints, and those of the import.
use go_contactd.Prelude.{
  ℕ, ◌+◌, Bytes, Bool, true, false, List, [], ◌∷◌, Option, none, some, ◌≡◌, refl, ap, ◌∙◌, sym,
  arith, any_row, Bool-cases, Option-cases, inl, inr,
}
use go_contactd.Store.Tables.{PutCardInput, PutCardResult}
use go_contactd.Store.Exec.{Result, Conn, Exec, with_immediate_tx}
use go_contactd.Store.Exec
use go_contactd.Store.Statements.{book_is, find_book, find_card, uid_taken}
use go_contactd.Store.Cards.{
  invalid_put, precondition_fails, put_card_conn, put_cards_conn, put_cards_atomic,
}
use go_contactd.Store.Cards.Answer.{
  first_row-any_row, put_card_conn-answer, with_immediate_tx-answer,
}
use go_contactd.Store.Cards.Effect.{put_card_conn-Stored}
use go_contactd.Ctl.Import.{
  Imported, ok, err, continue, pure, from_store, counted, count, dry_run_batch,
  put_or_classify_imported_card, apply_imported_batch, ◌>>=◌,
}
use go_contactd.Ctl.Import.Batch.{
  AllReady, AllApart, Independent, says, add_count, then_count, expected, expected-Stored,
  Independent-Stored, AllReady-Stored,
}
use go_contactd.Ctl.Import.DryRun.{UniqueUids, created_of, classified, classified-still}

-- The counts of an import that succeeds.
abbrev pub counts_of : Imported (ℕ × ℕ) → Option (ℕ × ℕ)
counts_of (ok n) = some n
counts_of (err e) = none

abbrev counts_in : Result (List PutCardResult) → Option (ℕ × ℕ)
counts_in (Exec.ok results) = some (count results)
counts_in (Exec.err e) = none

abbrev created_in : Result PutCardResult → Option Bool
created_in (Exec.ok res) = some res.created
created_in (Exec.err e) = none

module _ (sha256 : Bytes → Bytes) (clock : ℕ → ℕ) where
  counts-rest :
      (created : Bool) (out : Imported (ℕ × ℕ) × Conn)
      → counts_of (continue out.0 (λ n. pure (counted created n)) out.1).0
        ≡ add_count created (counts_of out.0)
  counts-rest created (ok n, c) = refl
  counts-rest created (err e, c) = refl

  counts-card :
      (batch : List PutCardInput) (c : Conn) (said : Option Bool) (out : Imported Bool × Conn)
      → created_of out.0 ≡ said
      → out.1 ≡ c
      → counts_of
          (continue out.0
            (λ created. dry_run_batch sha256 clock none batch >>= λ n. pure (counted created n))
            out.1).0
        ≡ then_count said (counts_of (dry_run_batch sha256 clock none batch c).0)
  counts-card batch c said (err e, c') says still =
      ap (λ s. then_count s (counts_of (dry_run_batch sha256 clock none batch c).0)) says
  counts-card batch c said (ok created, c') says still =
      counts-rest created (dry_run_batch sha256 clock none batch c')
      ∙ ap (λ x. add_count created (counts_of (dry_run_batch sha256 clock none batch x).0)) still
      ∙ ap (λ s. then_count s (counts_of (dry_run_batch sha256 clock none batch c).0)) says

  dry_run_batch-expected :
      (batch : List PutCardInput) (c : Conn)
      → c.faults ≡ []
      → UniqueUids c.db.cards
      → counts_of (dry_run_batch sha256 clock none batch c).0 ≡ expected batch c.db
  unfolding dry_run_batch
  dry_run_batch-expected [] c fine keys = refl
  dry_run_batch-expected (i ∷ batch) c fine keys =
      counts-card batch c (says i c.db) (put_or_classify_imported_card sha256 clock none i true c)
        (classified sha256 clock i c (find_card i.addressbook_id i.href c.db) refl fine keys)
        (classified-still sha256 clock i c fine)
      ∙ ap (then_count (says i c.db)) (dry_run_batch-expected batch c fine keys)

module _ (sha256 : Bytes → Bytes) where
  -- What is said of a card that is really put.
  put_card_conn-says :
      (now : ℕ) (i : PutCardInput) (c : Conn)
      → c.faults ≡ []
      → invalid_put i ≡ false
      → any_row (book_is i.addressbook_id) c.db.books ≡ true
      → (created_in (put_card_conn sha256 now none i none c).0 ≡ says i c.db)
        × ((put_card_conn sha256 now none i none c).1.faults ≡ [])
  unfolding find_book precondition_fails
  put_card_conn-says now i c fine valid there =
      elim (Option-cases (find_book i.addressbook_id c.db)) [
        | inl missing ↦
            absurd (ground (arith, first_row-any_row (book_is i.addressbook_id) c.db.books))
        | inr (book, found) ↦
            let (answer, still) = put_card_conn-answer sha256 now i none c book fine found in
            (
              ap created_in answer
                  ∙ elim (Bool-cases
                      (any_row (uid_taken i.addressbook_id i.href i.uid) c.db.cards)) [
                        | inl clash ↦ rw valid (rw clash refl)
                        | inr free ↦ rw valid (rw free refl)
                      ],
              still,
            )
      ]

  results-rest :
      (res : PutCardResult) (out : Result (List PutCardResult) × Conn)
      → (counts_in (Exec.continue out.0 (λ rest. Exec.pure (res ∷ rest)) out.1).0
          ≡ add_count res.created (counts_in out.0))
        × ((Exec.continue out.0 (λ rest. Exec.pure (res ∷ rest)) out.1).1.faults ≡ out.1.faults)
  results-rest res (Exec.ok rest, c) = (refl, refl)
  results-rest res (Exec.err e, c) = (refl, refl)

  -- The rest of a batch, after a card of it.
  abbrev and_then : (ℕ → ℕ) → List PutCardInput → PutCardResult → Exec (List PutCardResult)
  and_then clock batch res c =
      let (r, c') = put_cards_conn sha256 none (λ n. clock (n + 1)) batch c in
      Exec.continue r (λ rest. Exec.pure (res ∷ rest)) c'

  -- What the cards after a card of a batch come to.
  abbrev Counted : (ℕ → ℕ) → List PutCardInput → Conn → Type 0
  Counted clock batch c =
      (counts_in (put_cards_conn sha256 none clock batch c).0 ≡ expected batch c.db)
      × ((put_cards_conn sha256 none clock batch c).1.faults ≡ [])

  after_card :
      (clock : ℕ → ℕ) (i : PutCardInput) (batch : List PutCardInput) (c : Conn)
      → AllReady batch c.db
      → AllApart i batch c.db.cards
      → Independent batch c.db.cards
      → ((c' : Conn)
          → c'.faults ≡ []
          → AllReady batch c'.db
          → Independent batch c'.db.cards
          → Counted (λ n. clock (n + 1)) batch c')
      → (out : Result PutCardResult × Conn) → put_card_conn sha256 (clock 0) none i none c ≡ out
      → created_in out.0 ≡ says i c.db
      → out.1.faults ≡ []
      → (counts_in (Exec.continue out.0 (and_then clock batch) out.1).0 ≡ expected (i ∷ batch) c.db)
        × ((Exec.continue out.0 (and_then clock batch) out.1).1.faults ≡ [])
  after_card clock i batch c ready apart independent later (Exec.err e, c') ran said still =
      (ap (λ s. then_count s (expected batch c.db)) said, still)
  after_card clock i batch c ready apart independent later (Exec.ok res, c') ran said still =
      let (passed, stored) = put_card_conn-Stored sha256 (clock 0) none i none c ran in
      let (summed, quiet) =
        results-rest res (put_cards_conn sha256 none (λ n. clock (n + 1)) batch c') in
      let (numbers, unfailed) =
        later c' still (AllReady-Stored sha256 (clock 0) i c.db c'.db stored batch ready)
          (Independent-Stored sha256 (clock 0) i c.db c'.db stored batch apart independent) in
      (
        summed
            ∙ ap (add_count res.created)
                (numbers ∙ expected-Stored sha256 (clock 0) i c.db c'.db stored batch apart)
            ∙ ap (λ s. then_count s (expected batch c.db)) said,
        quiet ∙ unfailed,
      )

  put_cards_conn-expected :
      (clock : ℕ → ℕ) (batch : List PutCardInput) (c : Conn)
      → c.faults ≡ []
      → AllReady batch c.db
      → Independent batch c.db.cards
      → Counted clock batch c
  unfolding put_cards_conn
  put_cards_conn-expected clock [] c fine ready independent = (refl, fine)
  put_cards_conn-expected clock (i ∷ batch) c fine ((valid, there), ready) (apart, independent) =
      let (said, still) = put_card_conn-says (clock 0) i c fine valid there in
      after_card clock i batch c ready apart independent
        (λ c'. put_cards_conn-expected (λ n. clock (n + 1)) batch c')
        (put_card_conn sha256 (clock 0) none i none c) refl said still

  put_cards_atomic-expected :
      (clock : ℕ → ℕ) (batch : List PutCardInput) (c : Conn)
      → c.faults ≡ []
      → AllReady batch c.db
      → Independent batch c.db.cards
      → counts_in (put_cards_atomic sha256 none clock batch c).0 ≡ expected batch c.db
  unfolding put_cards_atomic
  put_cards_atomic-expected clock [] c fine ready independent = refl
  put_cards_atomic-expected clock (i ∷ batch) c fine ready independent =
      let inside = record c { foreign_keys = true } in
      let (counted, still) =
        put_cards_conn-expected clock (i ∷ batch) inside fine ready independent in
      ap counts_in
        (with_immediate_tx-answer (put_cards_conn sha256 none clock (i ∷ batch)) c fine still)
      ∙ counted

  imported-counts :
      (r : Result (List PutCardResult)) (c : Conn)
      → counts_of (continue (from_store r) (λ results. pure (count results)) c).0 ≡ counts_in r
  imported-counts (Exec.ok results) c = refl
  imported-counts (Exec.err e) c = refl

  -- A dry run of a batch and the import of the batch both succeed, with the same numbers of created
  -- and of updated cards, or both fail. This is where no statement fails in the driver and no test
  -- hook is set, no two stored cards of a book share a UID, each input is valid and its book
  -- exists, and of each two inputs the hrefs differ, the UIDs differ, and no stored card at the
  -- href of the first has the UID of the second.
  pub apply_imported_batch-dry_run :
      (clock : ℕ → ℕ) (batch : List PutCardInput) (c : Conn)
      → c.faults ≡ []
      → UniqueUids c.db.cards
      → AllReady batch c.db
      → Independent batch c.db.cards
      → counts_of (apply_imported_batch sha256 clock none batch true c).0
        ≡ counts_of (apply_imported_batch sha256 clock none batch false c).0
  unfolding apply_imported_batch
  apply_imported_batch-dry_run clock batch c fine keys ready independent =
      dry_run_batch-expected sha256 clock batch c fine keys
      ∙ sym (
          imported-counts (put_cards_atomic sha256 none clock batch c).0
            (put_cards_atomic sha256 none clock batch c).1
          ∙ put_cards_atomic-expected clock batch c fine ready independent)
