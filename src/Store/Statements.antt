-- ===== src/Store/Statements.antt =====
-- The SQL statements of internal/db/store.go that the operations share, over the tables.
use go_contactd.Prelude.{
  ℕ, ◌+◌, ◌==◌, ◌&&◌, ◌||◌, not, Bytes, Bool, [], ◌∷◌, ◌++◌, Option, none, some, bytes_eq,
  first_row, any_row, update_rows, delete_rows, if◌then◌else◌,
}
use go_contactd.Store.Tables.{BookRow, Card, ChangeRow, Database}
use go_contactd.Store.Exec.{ok, err, unique_failed, foreign_key_failed, driver_failed, Statement}

-- addressbook_id = ? AND href = ?
abbrev pub card_at : ℕ → Bytes → Card → Bool
card_at b h c = c.addressbook_id == b && bytes_eq c.href h

-- Another card of the book with this uid: UNIQUE (addressbook_id, uid).
abbrev pub uid_taken : ℕ → Bytes → Bytes → Card → Bool
uid_taken b h u c = c.addressbook_id == b && bytes_eq c.uid u && not (bytes_eq c.href h)

-- WHERE id = ?
abbrev pub book_is : ℕ → BookRow → Bool
book_is b r = r.id == b

unfoldable pub find_card : ℕ → Bytes → Database → Option Card
find_card b h d = first_row (card_at b h) d.cards

unfoldable pub find_book : ℕ → Database → Option BookRow
find_book b d = first_row (book_is b) d.books

abbrev pub new_card : (id b : ℕ) (href uid etag vcard : Bytes) (now : ℕ) → Card
new_card i b h u etag vcard now = record {
  id = i;
  addressbook_id = b;
  href = h;
  uid = u;
  etag_hex = etag;
  vcard = vcard;
  mod_time = now;
}

abbrev pub rewritten : (uid etag vcard : Bytes) (now : ℕ) → Card → Card
rewritten u etag vcard now c = record c { uid = u; etag_hex = etag; vcard = vcard; mod_time = now }

abbrev pub bumped : ℕ → BookRow → BookRow
bumped now r = record r { revision = r.revision + 1; updated_at = now }

abbrev pub new_change : (id b : ℕ) (href etag : Bytes) → Bool → (revision now : ℕ) → ChangeRow
new_change i b h etag deleted revision now = record {
  id = i;
  addressbook_id = b;
  href = h;
  etag = etag;
  deleted = deleted;
  revision = revision;
  changed_at = now;
}

-- INSERT INTO cards
unfoldable pub insert_card : (b : ℕ) (href uid etag vcard : Bytes) (now : ℕ) → Statement (Unit {0})
unfolding find_book
insert_card b h u etag vcard now fk d =
    if any_row (card_at b h) d.cards || any_row (uid_taken b h u) d.cards
    then err unique_failed
    else if fk && not (any_row (book_is b) d.books)
    then err foreign_key_failed
    else ok (
      tt,
      record d {
        cards = d.cards ++ new_card d.next_card b h u etag vcard now ∷ [];
        next_card = d.next_card + 1;
      },
    )

-- UPDATE cards SET uid, etag, vcard_text, mod_time WHERE addressbook_id AND href
unfoldable pub update_card : (b : ℕ) (href uid etag vcard : Bytes) (now : ℕ) → Statement (Unit {0})
update_card b h u etag vcard now fk d =
    if any_row (uid_taken b h u) d.cards
    then err unique_failed
    else ok
        (tt, record d { cards = update_rows (card_at b h) (rewritten u etag vcard now) d.cards })

-- UPDATE addressbooks SET revision = revision + 1, updated_at WHERE id
unfoldable pub bump_revision : ℕ → ℕ → Statement (Unit {0})
bump_revision b now fk d =
    ok (tt, record d { books = update_rows (book_is b) (bumped now) d.books })

-- SELECT revision FROM addressbooks WHERE id: no row is an error of Scan.
unfoldable pub select_revision : ℕ → Statement ℕ
unfolding find_book
select_revision b fk d = elim (find_book b d) [
  | none ↦ err driver_failed
  | some r ↦ ok (r.revision, d)
]

-- INSERT INTO card_changes
unfoldable pub insert_change :
    (b : ℕ) (href etag : Bytes) → Bool → (revision now : ℕ) → Statement (Unit {0})
insert_change b h etag deleted revision now fk d =
    if fk && not (any_row (book_is b) d.books)
    then err foreign_key_failed
    else ok (
      tt,
      record d {
        changes = d.changes ++ new_change d.next_change b h etag deleted revision now ∷ [];
        next_change = d.next_change + 1;
      },
    )

-- DELETE FROM cards WHERE addressbook_id AND href
unfoldable pub delete_card_row : ℕ → Bytes → Statement (Unit {0})
delete_card_row b h fk d = ok (tt, record d { cards = delete_rows (card_at b h) d.cards })
