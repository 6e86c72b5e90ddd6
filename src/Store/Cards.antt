-- ===== src/Store/Cards.antt =====
-- Writes of cards in internal/db/store.go: putCard, deleteCard and their callers. `now` is the clock
-- that the operation reads, `hook` the error of the test hook before the change is logged, if any.
pub mod Atomic
pub mod Effect
pub mod Lookup
pub mod Answer
use go_contactd.Prelude.{
  ℕ, ◌+◌, Bytes, Bool, true, false, List, [], ◌∷◌, Option, none, some, ◌==◌, ◌&&◌, ◌||◌, not,
  bytes_eq, if◌then◌else◌,
}
use go_contactd.Store.Tables.{Card, PutCardInput, PutCardConditions, PutCardResult}
use go_contactd.Store.Exec.{
  StoreError, not_found, precondition_failed, invalid_input, hook_failed, Exec, pure, raise, exec,
  query, ◌>>=◌, ◌>>◌, with_immediate_tx,
}
use go_contactd.Store.Statements.{
  find_card, insert_card, update_card, bump_revision, select_revision, insert_change,
  delete_card_row,
}
use go_contactd.Store.Vcard.{canonicalize_vcard, compute_etag_hex}

abbrev pub is_empty : Bytes → Bool
is_empty [] = true
is_empty (c ∷ s) = false

-- The guard that putCard and putCardConn both begin with.
abbrev pub invalid_put : PutCardInput → Bool
invalid_put in_ = in_.addressbook_id == 0 || is_empty in_.href || is_empty in_.uid

-- cond.ExpectedCurrentETagHex against the row that is there.
abbrev pub etag_differs : Option Bytes → Option Card → Bool
etag_differs none existing = false
etag_differs (some e) none = true
etag_differs (some e) (some c) = not (bytes_eq c.etag_hex e)

abbrev pub exists : Option Card → Bool
exists none = false
exists (some c) = true

unfoldable pub precondition_fails : Option PutCardConditions → Option Card → Bool
precondition_fails none existing = false
precondition_fails (some cond) existing =
    cond.require_absent && exists existing || etag_differs cond.expected_current_etag_hex existing

abbrev pub run_hook : Option StoreError → Exec (Unit {0})
run_hook none = pure tt
run_hook (some e) = raise hook_failed

module _ (sha256 : Bytes → Bytes) (now : ℕ) (hook : Option StoreError) where
  -- The statements once the card that is there has been read and the conditions hold.
  unfoldable pub write_card : PutCardInput → Option Card → Exec PutCardResult
  write_card in_ existing = do
    let canonical = canonicalize_vcard in_.vcard
    let etag = compute_etag_hex sha256 canonical
    if exists existing
        then exec (update_card in_.addressbook_id in_.href in_.uid etag canonical now)
        else exec (insert_card in_.addressbook_id in_.href in_.uid etag canonical now)
    exec (bump_revision in_.addressbook_id now)
    revision ← exec (select_revision in_.addressbook_id)
    run_hook hook
    exec (insert_change in_.addressbook_id in_.href etag false revision now)
    pure (record { created = not (exists existing); etag_hex = etag; revision = revision })

  unfoldable pub put_card_conn : PutCardInput → Option PutCardConditions → Exec PutCardResult
  put_card_conn in_ cond = if invalid_put in_ then raise invalid_input else do
    existing ← query (find_card in_.addressbook_id in_.href)
    if precondition_fails cond existing then raise precondition_failed else write_card in_ existing

  unfoldable pub put_card_checked : PutCardInput → Option PutCardConditions → Exec PutCardResult
  put_card_checked in_ cond =
      if invalid_put in_ then raise invalid_input else with_immediate_tx (put_card_conn in_ cond)

  -- PutCard and PutCardConditional
  unfoldable pub put_card : PutCardInput → Exec PutCardResult
  put_card in_ = put_card_checked in_ none

  unfoldable pub put_card_conditional : PutCardInput → PutCardConditions → Exec PutCardResult
  put_card_conditional in_ cond = put_card_checked in_ (some cond)

module _ (sha256 : Bytes → Bytes) (hook : Option StoreError) where
  -- The loop of PutCardsAtomic. Each card reads the clock: `clock i` is what the i-th of them reads.
  unfoldable pub put_cards_conn : (clock : ℕ → ℕ) → List PutCardInput → Exec (List PutCardResult)
  put_cards_conn clock [] = pure []
  put_cards_conn clock (in_ ∷ rest) = do
    res ← put_card_conn sha256 (clock 0) hook in_ none
    out ← put_cards_conn (λ i. clock (i + 1)) rest
    pure (res ∷ out)

  unfoldable pub put_cards_atomic : (clock : ℕ → ℕ) → List PutCardInput → Exec (List PutCardResult)
  put_cards_atomic clock [] = pure []
  put_cards_atomic clock (in_ ∷ rest) = with_immediate_tx (put_cards_conn clock (in_ ∷ rest))

-- The transaction of deleteCard, once the card has been read.
unfoldable pub remove_card : ℕ → ℕ → Bytes → Option Bytes → Option Card → Exec (Unit {0})
remove_card now b h expected none = raise not_found
remove_card now b h expected (some c) =
    if etag_differs expected (some c) then raise precondition_failed else do
      exec (delete_card_row b h)
      exec (bump_revision b now)
      revision ← exec (select_revision b)
      exec (insert_change b h c.etag_hex true revision now)

unfoldable pub delete_card_conn : ℕ → ℕ → Bytes → Option Bytes → Exec (Unit {0})
delete_card_conn now b h expected = do
  existing ← query (find_card b h)
  remove_card now b h expected existing

unfoldable pub delete_card_checked : ℕ → ℕ → Bytes → Option Bytes → Exec (Unit {0})
delete_card_checked now b h expected =
    if b == 0 || is_empty h
    then raise invalid_input
    else with_immediate_tx (delete_card_conn now b h expected)

-- DeleteCard and DeleteCardConditional
unfoldable pub delete_card : ℕ → ℕ → Bytes → Exec (Unit {0})
delete_card now b h = delete_card_checked now b h none

unfoldable pub delete_card_conditional : ℕ → ℕ → Bytes → Bytes → Exec (Unit {0})
delete_card_conditional now b h expected = delete_card_checked now b h (some expected)
