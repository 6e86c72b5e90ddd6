-- ===== src/Store/Cards/Atomic.antt =====
-- The card writes of internal/db/store.go are all or nothing.
use go_contactd.Prelude.{ℕ, Bytes, List, [], ◌∷◌, Option, ◌≡◌, ◌==◌, ◌||◌}
use go_contactd.Store.Tables.{PutCardInput, PutCardConditions}
use go_contactd.Store.Exec.{StoreError, err, invalid_input, Conn, with_immediate_tx}
use go_contactd.Store.Exec.Laws.{guarded-err, with_immediate_tx-err}
use go_contactd.Store.Cards.{
  put_card_conn, put_card_checked, put_cards_conn, put_cards_atomic, invalid_put, is_empty,
  delete_card_conn, delete_card_checked,
}

module _ (sha256 : Bytes → Bytes) (now : ℕ) (hook : Option StoreError) where
  -- A put that fails, at whatever statement and for whatever reason, leaves the tables as they
  -- were.
  pub put_card_checked-atomic :
      (in_ : PutCardInput) (cond : Option PutCardConditions) (c : Conn) {e : StoreError} {c' : Conn}
      → put_card_checked sha256 now hook in_ cond c ≡ (err e, c')
      → c'.db ≡ c.db
  unfolding put_card_checked
  put_card_checked-atomic in_ cond c =
      guarded-err (invalid_put in_) invalid_input
        (with_immediate_tx (put_card_conn sha256 now hook in_ cond)) c
        (with_immediate_tx-err (put_card_conn sha256 now hook in_ cond) c)

-- An import of cards of which one fails leaves the tables as they were: no card of it is stored.
pub put_cards_atomic-atomic :
    (sha256 : Bytes → Bytes) (hook : Option StoreError) (clock : ℕ → ℕ) (inputs : List PutCardInput)
    (c : Conn) {e : StoreError} {c' : Conn}
    → put_cards_atomic sha256 hook clock inputs c ≡ (err e, c')
    → c'.db ≡ c.db
unfolding put_cards_atomic
put_cards_atomic-atomic sha256 hook clock [] c h = absurd (cc)
put_cards_atomic-atomic sha256 hook clock (in_ ∷ rest) c h =
    with_immediate_tx-err (put_cards_conn sha256 hook clock (in_ ∷ rest)) c h

-- A deletion of a card that fails, at whatever statement and for whatever reason, leaves the tables
-- as they were.
pub delete_card_checked-atomic :
    (now b : ℕ) (h : Bytes) (expected : Option Bytes) (c : Conn) {e : StoreError} {c' : Conn}
    → delete_card_checked now b h expected c ≡ (err e, c')
    → c'.db ≡ c.db
unfolding delete_card_checked
delete_card_checked-atomic now b h expected c =
    guarded-err (b == 0 || is_empty h) invalid_input
      (with_immediate_tx (delete_card_conn now b h expected)) c
      (with_immediate_tx-err (delete_card_conn now b h expected) c)
