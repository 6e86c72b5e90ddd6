-- ===== src/Sync/History/Imports.antt =====
-- The import of cards in internal/db/store.go, PutCardsAtomic, in the history of a book.
use mathlib.Core.Path.{subst}
use go_contactd.Prelude.{
  ℕ, ◌+◌, ◌≤◌, Bytes, List, [], ◌∷◌, ◌++◌, Option, none, ◌≡◌, refl, sym, ap, arith,
}
use go_contactd.Store.Tables.{ChangeRow, Database, PutCardInput, PutCardResult}
use go_contactd.Store.Exec.{Result, ok, err, StoreError, Conn, Exec, continue, pure}
use go_contactd.Store.Exec.Laws.{with_immediate_tx-ok}
use go_contactd.Store.Cards.{put_card_conn, put_cards_conn, put_cards_atomic}
use go_contactd.Store.Cards.Atomic.{put_cards_atomic-atomic}
use go_contactd.Store.Cards.Effect.{put_card_conn-Stored}
use go_contactd.Sync.History.{All, Since, Logged, IsLatest}
use go_contactd.Sync.History.Writes.{Stored-Logged, Since-Logged}

-- What ran where a sequence has succeeded.
bind-ok :
    {A B : Type 0} (f : A → Exec B) (out : Result A × Conn) {b : B} {c' : Conn}
    → continue out.0 f out.1 ≡ (ok b, c')
    → (a : A) × (c : Conn) × (out ≡ (ok a, c)) × (f a c ≡ (ok b, c'))
bind-ok f (ok a, c) h = (a, c, refl, h)
bind-ok f (err e, c) h = absurd (cc)

All-later :
    (m n : ℕ) (rows : List ChangeRow)
    → m ≤ n
    → All (λ (x : ChangeRow). x.changed_at ≤ m) rows
    → All (λ (x : ChangeRow). x.changed_at ≤ n) rows
All-later m n [] le all = tt
All-later m n (r ∷ rows) le (first, all) = (omega arith, All-later m n rows le all)

All-append :
    (n : ℕ) (rows : List ChangeRow) (w : ChangeRow)
    → All (λ (x : ChangeRow). x.changed_at ≤ n) rows
    → w.changed_at ≤ n
    → All (λ (x : ChangeRow). x.changed_at ≤ n) (rows ++ w ∷ [])
All-append n [] w all last = (last, tt)
All-append n (r ∷ rows) w (first, all) last = (first, All-append n rows w all last)

IsLatest-Logged :
    (b now later : ℕ) (w : ChangeRow) (d d' : Database)
    → Logged b now w d d'
    → now ≤ later
    → IsLatest now d
    → IsLatest later d'
IsLatest-Logged b now later w d d' l le latest =
    subst (All (λ (x : ChangeRow). x.changed_at ≤ later)) (sym l.changes) (
      All-append later d.changes w (All-later now later d.changes le latest)
        (omega (arith, l.time)))

module _ (b r : ℕ) (v : Bytes → Option Bytes) (sha256 : Bytes → Bytes)
    (hook : Option StoreError) where
  Since-put_cards_conn :
      (clock : ℕ → ℕ) (batch : List PutCardInput) (c : Conn) {out : List PutCardResult} {c' : Conn}
      → ((i : ℕ) → clock i ≤ clock (i + 1))
      → IsLatest (clock 0) c.db
      → Since b r v c.db
      → put_cards_conn sha256 hook clock batch c ≡ (ok out, c')
      → Since b r v c'.db
  unfolding put_cards_conn
  Since-put_cards_conn clock [] c onward latest s ran =
      subst (Since b r v) (ap (λ (o : Result (List PutCardResult) × Conn). o.1.db) ran) s
  Since-put_cards_conn clock (in_ ∷ batch) c onward latest s ran =
      let (res, c1, put, rest) = bind-ok _ (put_card_conn sha256 (clock 0) hook in_ none c) ran in
      let (out, c2, puts, done) =
        bind-ok (λ out. pure (res ∷ out)) (put_cards_conn sha256 hook (λ i. clock (i + 1)) batch c1)
          rest in
      let (passed, stored) = put_card_conn-Stored sha256 (clock 0) hook in_ none c put in
      let logged = Stored-Logged sha256 (clock 0) in_ c.db stored in
      let later =
        IsLatest-Logged in_.addressbook_id (clock 0) (clock 1) _ c.db c1.db logged (onward 0)
          latest in
      subst (Since b r v) (ap (λ (o : Result (List PutCardResult) × Conn). o.1.db) done) (
        Since-put_cards_conn (λ i. clock (i + 1)) batch c1 (λ i. onward (i + 1)) later
          (Since-Logged b r v in_.addressbook_id (clock 0) _ c.db c1.db logged latest s) puts)

  pub Since-import :
      (clock : ℕ → ℕ) (batch : List PutCardInput) (c : Conn)
      → ((i : ℕ) → clock i ≤ clock (i + 1))
      → IsLatest (clock 0) c.db
      → Since b r v c.db
      → (out : Result (List PutCardResult) × Conn)
      → put_cards_atomic sha256 hook clock batch c ≡ out
      → Since b r v out.1.db
  unfolding put_cards_atomic
  Since-import clock batch c onward latest s (err x, c') e =
      subst (Since b r v) (sym (put_cards_atomic-atomic sha256 hook clock batch c e)) s
  Since-import clock [] c onward latest s (ok out, c') e =
      subst (Since b r v) (ap (λ (o : Result (List PutCardResult) × Conn). o.1.db) e) s
  Since-import clock (in_ ∷ batch) c onward latest s (ok out, c') e =
      let (c1, c2, before, keys, puts, after) =
        with_immediate_tx-ok (put_cards_conn sha256 hook clock (in_ ∷ batch)) c e in
      subst (Since b r v) (sym after) (
        Since-put_cards_conn clock (in_ ∷ batch) c1 onward
          (subst (IsLatest (clock 0)) (sym before) latest) (subst (Since b r v) (sym before) s)
          puts)
