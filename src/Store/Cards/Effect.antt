-- ===== src/Store/Cards/Effect.antt =====
-- What a card write of internal/db/store.go has done when it succeeds.
use go_contactd.Prelude.{
  ℕ, Bytes, true, false, [], ◌∷◌, ◌++◌, Option, none, some, ◌≡◌, arith, not, if◌then◌else◌, any_row,
  update_rows, delete_rows, List, sym, refl, ◌∙◌, ◌==◌, ◌||◌,
}
use mathlib.Core.Option
use mathlib.Core.Path.{subst}
use go_contactd.Store.Tables.{
  BookRow, Card, Database, PutCardInput, PutCardConditions, PutCardResult,
}
use go_contactd.Store.Exec.{
  StoreError, invalid_input, precondition_failed, ok, Conn, raise, exec, query, ◌>>=◌,
  with_immediate_tx,
}
use go_contactd.Store.Exec.Laws.{query-bind-ok, guarded-ok, with_immediate_tx-ok}
use go_contactd.Store.Statements.{
  card_at, uid_taken, book_is, find_card, find_book, new_card, rewritten, bumped, new_change,
  insert_card, update_card, bump_revision, select_revision, insert_change, delete_card_row,
}
use go_contactd.Store.Vcard.{canonicalize_vcard, compute_etag_hex}
use go_contactd.Store.Cards.{
  exists, etag_differs, remove_card, delete_card_conn, delete_card_checked, is_empty, write_card,
  put_card_conn, put_card_checked, invalid_put, precondition_fails,
}

-- The tables after a put of `in_` that gave the book the revision of `res`.
abbrev pub stored_cards : (Bytes → Bytes) → ℕ → PutCardInput → Option Card → Database → List Card
stored_cards sha256 now in_ existing d =
    let canonical = canonicalize_vcard in_.vcard in
    let etag = compute_etag_hex sha256 canonical in
    if exists existing
    then update_rows (card_at in_.addressbook_id in_.href) (rewritten in_.uid etag canonical now)
        d.cards
    else d.cards ++ new_card d.next_card in_.addressbook_id in_.href in_.uid etag canonical now ∷ []

pub record Stored (sha256 : Bytes → Bytes) (now : ℕ) (in_ : PutCardInput) (existing : Option Card)
    (d : Database) (res : PutCardResult) (d' : Database) : Type 0 where
  pub users : d'.users ≡ d.users
  pub cards : d'.cards ≡ stored_cards sha256 now in_ existing d
  pub books : d'.books ≡ update_rows (book_is in_.addressbook_id) (bumped now) d.books
  pub changes :
      d'.changes
      ≡ d.changes
        ++ new_change d.next_change in_.addressbook_id in_.href res.etag_hex false res.revision now
          ∷ []
  pub revision :
      Option.map (λ (r : BookRow). r.revision) (find_book in_.addressbook_id d') ≡ some res.revision
  pub uid_free : any_row (uid_taken in_.addressbook_id in_.href in_.uid) d.cards ≡ false
  pub created : res.created ≡ not (exists existing)
  pub etag : res.etag_hex ≡ compute_etag_hex sha256 (canonicalize_vcard in_.vcard)

module _ (sha256 : Bytes → Bytes) (now : ℕ) (hook : Option StoreError) where
  write_card-Stored :
      (in_ : PutCardInput) (existing : Option Card) (c : Conn) {res : PutCardResult} {c' : Conn}
      → write_card sha256 now hook in_ existing c ≡ (ok res, c')
      → Stored sha256 now in_ existing c.db res c'.db
  unfolding write_card exec insert_card update_card bump_revision select_revision insert_change
      find_book
  write_card-Stored in_ existing c h = ground arith

  pub put_card_conn-Stored :
      (in_ : PutCardInput) (cond : Option PutCardConditions) (c : Conn) {res : PutCardResult}
      {c' : Conn}
      → put_card_conn sha256 now hook in_ cond c ≡ (ok res, c')
      → (precondition_fails cond (find_card in_.addressbook_id in_.href c.db) ≡ false)
        × Stored sha256 now in_ (find_card in_.addressbook_id in_.href c.db) c.db res c'.db
  unfolding put_card_conn
  put_card_conn-Stored in_ cond c {res} {c'} h =
      let read = find_card in_.addressbook_id in_.href in
      let go = λ (existing : Option Card).
        if precondition_fails cond existing
        then raise precondition_failed
        else write_card sha256 now hook in_ existing in
      let (valid, ran) = guarded-ok (invalid_put in_) invalid_input (query read >>= go) c h in
      let (c1, same, keys, rest) = query-bind-ok read go c ran in
      let (passed, wrote) =
        guarded-ok (precondition_fails cond (read c.db)) precondition_failed
          (write_card sha256 now hook in_ (read c.db)) c1 rest in
      (
        passed,
        subst (λ d. Stored sha256 now in_ (read c.db) d res c'.db) same
            (write_card-Stored in_ (read c.db) c1 wrote),
      )

  -- A put that succeeds had a valid input and met its conditions on the tables that it found; it
  -- stored the canonical card, raised the revision of the book by one, logged one change with the
  -- new revision and the new ETag, and answered that revision, that ETag and whether the card is
  -- new.
  pub put_card_checked-Stored :
      (in_ : PutCardInput) (cond : Option PutCardConditions) (c : Conn) {res : PutCardResult}
      {c' : Conn}
      → put_card_checked sha256 now hook in_ cond c ≡ (ok res, c')
      → (invalid_put in_ ≡ false)
        × (precondition_fails cond (find_card in_.addressbook_id in_.href c.db) ≡ false)
        × Stored sha256 now in_ (find_card in_.addressbook_id in_.href c.db) c.db res c'.db
  unfolding put_card_checked
  put_card_checked-Stored in_ cond c {res} {c'} h =
      let conn_put = put_card_conn sha256 now hook in_ cond in
      let (valid, ran) =
        guarded-ok (invalid_put in_) invalid_input (with_immediate_tx conn_put) c h in
      let (c1, c2, before, keys, put, after) = with_immediate_tx-ok conn_put c ran in
      let (passed, stored) = put_card_conn-Stored in_ cond c1 put in
      let read = find_card in_.addressbook_id in_.href in
      let (passed, stored) =
        subst
          (λ d.
            (precondition_fails cond (read d) ≡ false) × Stored sha256 now in_ (read d) d res c2.db)
          before (put_card_conn-Stored in_ cond c1 put) in
      (valid, passed, subst (Stored sha256 now in_ (read c.db) c.db res) (sym after) stored)

-- The tables after the card `c` was deleted, and the revision that the deletion got.
pub record Removed (now b : ℕ) (h : Bytes) (c : Card) (d : Database) (revision : ℕ) (d' : Database)
    : Type 0 where
  pub users : d'.users ≡ d.users
  pub cards : d'.cards ≡ delete_rows (card_at b h) d.cards
  pub books : d'.books ≡ update_rows (book_is b) (bumped now) d.books
  pub changes :
      d'.changes ≡ d.changes ++ new_change d.next_change b h c.etag_hex true revision now ∷ []
  pub bumped_to : Option.map (λ (r : BookRow). r.revision) (find_book b d') ≡ some revision

abbrev pub revision_of : ℕ → Database → ℕ
revision_of b d = elim (find_book b d) [ none ↦ 0 | some r ↦ r.revision ]

remove_card-Removed :
    (now b : ℕ) (h : Bytes) (expected : Option Bytes) (existing : Option Card) (c : Conn)
    {c' : Conn}
    → remove_card now b h expected existing c ≡ (ok tt, c')
    → (card : Card) × (existing ≡ some card)
      × (etag_differs expected existing ≡ false)
      × Removed now b h card c.db (revision_of b c'.db) c'.db
unfolding remove_card exec bump_revision select_revision insert_change delete_card_row find_book
remove_card-Removed now b h expected none c done = absurd (cc)
remove_card-Removed now b h expected (some card) c done = (card, refl, ground arith, ground arith)

-- A deletion that succeeds found the card, with the ETag that was asked for if one was; it removed
-- the card, raised the revision of the book by one, and logged one tombstone with the new revision
-- and the card's last ETag.
pub delete_card_checked-Removed :
    (now b : ℕ) (h : Bytes) (expected : Option Bytes) (c : Conn) {c' : Conn}
    → delete_card_checked now b h expected c ≡ (ok tt, c')
    → (card : Card) × (find_card b h c.db ≡ some card)
      × (etag_differs expected (find_card b h c.db) ≡ false)
      × Removed now b h card c.db (revision_of b c'.db) c'.db
unfolding delete_card_checked delete_card_conn
delete_card_checked-Removed now b h expected c {c'} done =
    let body = delete_card_conn now b h expected in
    let (valid, ran) =
      guarded-ok (b == 0 || is_empty h) invalid_input (with_immediate_tx body) c done in
    let (c1, c2, before, keys, deleted, after) = with_immediate_tx-ok body c ran in
    let (c3, same, keys', rest) =
      query-bind-ok (find_card b h) (remove_card now b h expected) c1 deleted in
    let (card, found, passed, removed) =
      remove_card-Removed now b h expected (find_card b h c1.db) c3 rest in
    (
      card,
      subst (λ d. find_card b h d ≡ some card) before found,
      subst (λ d. etag_differs expected (find_card b h d) ≡ false) before passed,
      subst (λ d. Removed now b h card c.db (revision_of b d) d) (sym after)
          (subst (λ d. Removed now b h card d (revision_of b c2.db) c2.db) (same ∙ before) removed),
    )
