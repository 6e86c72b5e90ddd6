-- ===== src/Store/Integrity/Writes.antt =====
-- The operations of internal/db/store.go keep the foreign keys, on a connection that enforces them.
use mathlib.Core.Option
use mathlib.Core.Path.{subst}
use go_contactd.Prelude.{
  ℕ, Bytes, Bool, true, false, List, [], ◌∷◌, ◌++◌, Option, none, some, ◌≡◌, sym, ap, ◌∙◌, arith,
  first_row, update_rows, inl, inr, ◌⊎◌,
}
use go_contactd.Store.Tables.{
  UserRow, BookRow, Card, ChangeRow, Database, PutCardInput, PutCardConditions, PutCardResult,
}
use go_contactd.Store.Exec.{StoreError, Conn, exec}
use go_contactd.Store.Exec.Laws.{result-cases}
use go_contactd.Store.Statements.{book_is, bumped, find_book, card_at, rewritten}
use go_contactd.Store.Books.{delete_books, owned_at, delete_addressbook}
use go_contactd.Store.Users.{named, delete_users, delete_user_by_username}
use go_contactd.Store.Cards.{put_card_checked, delete_card_checked}
use go_contactd.Store.Cards.Effect.{
  Stored, Removed, stored_cards, put_card_checked-Stored, delete_card_checked-Removed,
}
use go_contactd.Store.Cards.Atomic.{put_card_checked-atomic, delete_card_checked-atomic}
use go_contactd.Store.Integrity.{
  Referential, has_id, has_book, has_user, orphans, orphans-grow, orphans-append, orphans-delete,
  delete_books-Referential, delete_users-Referential,
}

either_way : {d x y : Database} → Referential x → Referential y → (d ≡ x) ⊎ (d ≡ y) → Referential d
either_way sx sy (inl e) = subst Referential (sym e) sx
either_way sx sy (inr e) = subst Referential (sym e) sy

delete_user_by_username-cases :
    (username : Bytes) (c : Conn)
    → c.foreign_keys ≡ true
    → ((delete_user_by_username username c).1.db ≡ c.db)
      ⊎ ((delete_user_by_username username c).1.db ≡ delete_users (named username) true c.db)
unfolding delete_user_by_username exec
delete_user_by_username-cases username c on = ground arith

-- On a connection that enforces foreign keys the deletion of a user, whatever its outcome, leaves
-- no book without its user and no card or change without its book, if there was none before.
pub delete_user_by_username-Referential :
    (username : Bytes) (c : Conn)
    → c.foreign_keys ≡ true
    → Referential c.db
    → Referential (delete_user_by_username username c).1.db
delete_user_by_username-Referential username c on s =
    either_way s (delete_users-Referential (named username) c.db s)
      (delete_user_by_username-cases username c on)

delete_addressbook-cases :
    (username slug : Bytes) (c : Conn)
    → c.foreign_keys ≡ true
    → ((delete_addressbook username slug c).1.db ≡ c.db)
      ⊎ ((delete_addressbook username slug c).1.db
          ≡ delete_books (owned_at username slug c.db) true c.db)
unfolding delete_addressbook exec
delete_addressbook-cases username slug c on = ground arith

-- On a connection that enforces foreign keys the deletion of an address book, whatever its outcome,
-- leaves no book without its user and no card or change without its book, if there was none before.
pub delete_addressbook-Referential :
    (username slug : Bytes) (c : Conn)
    → c.foreign_keys ≡ true
    → Referential c.db
    → Referential (delete_addressbook username slug c).1.db
delete_addressbook-Referential username slug c on s =
    either_way s (delete_books-Referential (owned_at username slug c.db) c.db s)
      (delete_addressbook-cases username slug c on)

has_book-bumped :
    (b now : ℕ) (rows : List BookRow) (i : ℕ)
    → has_id (λ (r : BookRow). r.id) rows i ≡ true
    → has_id (λ (r : BookRow). r.id) (update_rows (book_is b) (bumped now) rows) i ≡ true
has_book-bumped b now [] i e = e
has_book-bumped b now (r ∷ rows) i e = ground (arith, has_book-bumped b now rows i)

books-bumped :
    (b now : ℕ) (rows : List BookRow) (there : ℕ → Bool)
    → orphans (λ (r : BookRow). r.user_id) rows there ≡ false
    → orphans (λ (r : BookRow). r.user_id) (update_rows (book_is b) (bumped now) rows) there ≡ false
books-bumped b now [] there e = e
books-bumped b now (r ∷ rows) there e = ground (arith, books-bumped b now rows there)

cards-rewritten :
    (b : ℕ) (h u e v : Bytes) (now : ℕ) (rows : List Card) (there : ℕ → Bool)
    → orphans (λ (c : Card). c.addressbook_id) rows there ≡ false
    → orphans
        (λ (c : Card). c.addressbook_id)
        (update_rows (card_at b h) (rewritten u e v now) rows)
        there
      ≡ false
cards-rewritten b h u e v now [] there o = o
cards-rewritten b h u e v now (r ∷ rows) there o =
    ground (arith, cards-rewritten b h u e v now rows there)

found-there :
    (b n : ℕ) (d : Database)
    → Option.map (λ (r : BookRow). r.revision) (find_book b d) ≡ some n
    → has_book d b ≡ true
unfolding find_book
found-there b n d e = at_row d.books e
  where
    at_row :
        (rows : List BookRow)
        → Option.map (λ (r : BookRow). r.revision) (first_row (book_is b) rows) ≡ some n
        → has_id (λ (r : BookRow). r.id) rows b ≡ true
    at_row [] e = absurd (ground arith)
    at_row (r ∷ rows) e = ground (arith, at_row rows)

module _ (now b : ℕ) (d d' : Database)
    (books : d'.books ≡ update_rows (book_is b) (bumped now) d.books) where
  still_there : (i : ℕ) → has_book d i ≡ true → has_book d' i ≡ true
  still_there i e =
      ap (λ rows. has_id (λ (r : BookRow). r.id) rows i) books ∙ has_book-bumped b now d.books i e

  books_still :
      d'.users ≡ d.users
      → Referential d
      → orphans (λ (r : BookRow). r.user_id) d'.books (has_user d') ≡ false
  books_still users s =
      ap (λ rows. orphans (λ (r : BookRow). r.user_id) rows (has_user d')) books
      ∙ books-bumped b now d.books (has_user d') (
          ap
            (λ us. orphans (λ (r : BookRow). r.user_id) d.books (has_id (λ (u : UserRow). u.id) us))
            users
          ∙ s.books)

  logged_still :
      (r : ChangeRow)
      → d'.changes ≡ d.changes ++ r ∷ []
      → has_book d' r.addressbook_id ≡ true
      → Referential d
      → orphans (λ (x : ChangeRow). x.addressbook_id) d'.changes (has_book d') ≡ false
  logged_still r changes there s =
      ap (λ rows. orphans (λ (x : ChangeRow). x.addressbook_id) rows (has_book d')) changes
      ∙ orphans-append (λ (x : ChangeRow). x.addressbook_id) d.changes r (has_book d')
          (orphans-grow (λ (x : ChangeRow). x.addressbook_id) d.changes (has_book d) (has_book d')
            still_there s.changes)
          there

Stored-Referential :
    (sha256 : Bytes → Bytes) (now : ℕ) (in_ : PutCardInput) (existing : Option Card) (d : Database)
    {res : PutCardResult} {d' : Database}
    → Stored sha256 now in_ existing d res d'
    → Referential d
    → Referential d'
Stored-Referential sha256 now in_ existing d {res} {d'} st s =
    let b = in_.addressbook_id in
    let there = found-there b res.revision d' st.revision in
    let old_cards =
      orphans-grow (λ (c : Card). c.addressbook_id) d.cards (has_book d) (has_book d')
        (still_there now b d d' st.books) s.cards in
    record {
      books = books_still now b d d' st.books st.users s;
      cards =
          ap (λ rows. orphans (λ (c : Card). c.addressbook_id) rows (has_book d')) st.cards
          ∙ elim existing
              as (λ e.
                orphans (λ (c : Card). c.addressbook_id) (stored_cards sha256 now in_ e d)
                  (has_book d')
                ≡ false) [
                  | none ↦
                      orphans-append (λ (c : Card). c.addressbook_id) d.cards _ (has_book d')
                        old_cards there
                  | some c ↦
                      cards-rewritten b in_.href in_.uid _ _ now d.cards (has_book d') old_cards
                ];
      changes = logged_still now b d d' st.books _ st.changes there s;
    }

Removed-Referential :
    (now b : ℕ) (h : Bytes) (card : Card) (d : Database) {n : ℕ} {d' : Database}
    → Removed now b h card d n d'
    → Referential d
    → Referential d'
Removed-Referential now b h card d {n} {d'} gone s = record {
  books = books_still now b d d' gone.books gone.users s;
  cards =
      ap (λ rows. orphans (λ (c : Card). c.addressbook_id) rows (has_book d')) gone.cards
      ∙ orphans-delete (λ (c : Card). c.addressbook_id) d.cards (card_at b h) (has_book d')
          (orphans-grow (λ (c : Card). c.addressbook_id) d.cards (has_book d) (has_book d')
            (still_there now b d d' gone.books) s.cards);
  changes = logged_still now b d d' gone.books _ gone.changes (found-there b n d' gone.bumped_to) s;
}

-- A put, whatever its outcome, leaves no book without its user and no card or change without its
-- book, if there was none before.
pub put_card_checked-Referential :
    (sha256 : Bytes → Bytes) (now : ℕ) (hook : Option StoreError) (in_ : PutCardInput)
    (cond : Option PutCardConditions) (c : Conn)
    → Referential c.db
    → Referential (put_card_checked sha256 now hook in_ cond c).1.db
put_card_checked-Referential sha256 now hook in_ cond c s =
    elim (result-cases (put_card_checked sha256 now hook in_ cond) c) [
      | inl (res, done) ↦
          let (valid, passed, stored) = put_card_checked-Stored sha256 now hook in_ cond c done in
          Stored-Referential sha256 now in_ _ c.db stored s
      | inr (e, failed) ↦
          subst Referential (sym (put_card_checked-atomic sha256 now hook in_ cond c failed)) s
    ]

-- A deletion of a card, whatever its outcome, leaves no book without its user and no card or change
-- without its book, if there was none before.
pub delete_card_checked-Referential :
    (now b : ℕ) (h : Bytes) (expected : Option Bytes) (c : Conn)
    → Referential c.db
    → Referential (delete_card_checked now b h expected c).1.db
delete_card_checked-Referential now b h expected c s =
    elim (result-cases (delete_card_checked now b h expected) c) [
      | inl (t, done) ↦
          let (card, found, passed, gone) = delete_card_checked-Removed now b h expected c done in
          Removed-Referential now b h card c.db gone s
      | inr (e, failed) ↦
          subst Referential (sym (delete_card_checked-atomic now b h expected c failed)) s
    ]
