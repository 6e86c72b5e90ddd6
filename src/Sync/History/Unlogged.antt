-- ===== src/Sync/History/Unlogged.antt =====
-- Operations of internal/db/store.go that log nothing, in the history of a book.
use mathlib.Core.Option
use go_contactd.Prelude.{
  ℕ, ◌+◌, Bytes, Bool, List, [], ◌∷◌, ◌++◌, Option, none, some, first_row, update_rows, ◌≡◌, ◌⊎◌,
  inl, refl, ◌∙◌, arith,
}
use go_contactd.Store.Tables.{BookRow, Database}
use go_contactd.Store.Exec.{Conn, exec}
use go_contactd.Store.Statements.{find_card, find_book, book_is}
use go_contactd.Store.Books.{
  with_metadata, new_book, owned_at, update_addressbook_metadata, ensure_addressbook,
  create_addressbook,
}
use go_contactd.Sync.History.{revision_at, Since}

-- An operation that touches neither cards nor changes, and keeps the revision of every book.
pub record Unlogged (d d' : Database) : Type 0 where
  cards : d'.cards ≡ d.cards
  changes : d'.changes ≡ d.changes
  revisions : (b n : ℕ) → revision_at b d ≡ some n → revision_at b d' ≡ some n

pub Since-Unlogged :
    (b r : ℕ) (v : Bytes → Option Bytes) (d d' : Database)
    → Unlogged d d'
    → Since b r v d
    → Since b r v d'
unfolding find_card
Since-Unlogged b r v d d' u s = record {
  gone = s.gone;
  kept = s.kept;
  logged = rw u.changes s.logged;
  numbered = s.numbered;
  head = u.revisions b _ s.head;
  timed = s.timed;
  current = λ h. rw u.cards (s.current h);
}

revision-with_metadata :
    (b now : ℕ) (test : BookRow → Bool) (dn desc col : Option Bytes) (books : List BookRow)
    → Option.map
        (λ (x : BookRow). x.revision)
        (first_row (book_is b) (update_rows test (with_metadata now dn desc col) books))
      ≡ Option.map (λ (x : BookRow). x.revision) (first_row (book_is b) books)
revision-with_metadata b now test dn desc col [] = refl
revision-with_metadata b now test dn desc col (x ∷ books) =
    ground (arith, revision-with_metadata b now test dn desc col books)

revision-append :
    (b n : ℕ) (new : BookRow) (books : List BookRow)
    → Option.map (λ (x : BookRow). x.revision) (first_row (book_is b) books) ≡ some n
    → Option.map (λ (x : BookRow). x.revision) (first_row (book_is b) (books ++ new ∷ [])) ≡ some n
revision-append b n new [] e = absurd (cc)
revision-append b n new (x ∷ books) e = ground (arith, revision-append b n new books)

pub metadata-cases :
    (now : ℕ) (username slug : Bytes) (dn desc col : Option Bytes) (c : Conn)
    → ((update_addressbook_metadata now username slug dn desc col c).1.db ≡ c.db)
      ⊎ ((update_addressbook_metadata now username slug dn desc col c).1.db ≡ record c.db {
        books =
            update_rows (owned_at username slug c.db) (with_metadata now dn desc col) c.db.books;
      })
unfolding update_addressbook_metadata exec
metadata-cases now username slug none none none c = inl refl
metadata-cases now username slug dn desc col c = ground arith

pub metadata-Unlogged :
    (now : ℕ) (username slug : Bytes) (dn desc col : Option Bytes) (d : Database)
    → Unlogged d (record d {
      books = update_rows (owned_at username slug d) (with_metadata now dn desc col) d.books;
    })
unfolding find_book
metadata-Unlogged now username slug dn desc col d = record {
  cards = refl;
  changes = refl;
  revisions =
      λ b n e. revision-with_metadata b now (owned_at username slug d) dn desc col d.books ∙ e;
}

pub ensure-cases :
    (now u : ℕ) (slug dn : Bytes) (c : Conn)
    → ((ensure_addressbook now u slug dn c).1.db ≡ c.db)
      ⊎ ((ensure_addressbook now u slug dn c).1.db ≡ record c.db {
        books = c.db.books ++ new_book c.db.next_book u slug dn now ∷ [];
        next_book = c.db.next_book + 1;
      })
unfolding ensure_addressbook create_addressbook exec
ensure-cases now u slug dn c = ground arith

pub ensure-Unlogged :
    (now u : ℕ) (slug dn : Bytes) (d : Database)
    → Unlogged d (record d {
      books = d.books ++ new_book d.next_book u slug dn now ∷ [];
      next_book = d.next_book + 1;
    })
unfolding find_book
ensure-Unlogged now u slug dn d = record {
  cards = refl;
  changes = refl;
  revisions = λ b n e. revision-append b n (new_book d.next_book u slug dn now) d.books e;
}
