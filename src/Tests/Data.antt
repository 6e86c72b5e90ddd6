-- ===== src/Tests/Data.antt =====
-- The tables, connections and inputs of the runs.
use go_contactd.Prelude.{ℕ, Bytes, true, false, [], ◌∷◌, lit, length}
use go_contactd.Store.Tables.{UserRow, BookRow, Card, ChangeRow, Database, PutCardInput}
use go_contactd.Store.Exec.{Conn}

-- A stand-in for SHA-256.
abbrev pub checksum : Bytes → Bytes
checksum s = length s ∷ []

abbrev pub alice : UserRow
alice = record { id = 1; username = lit "alice"; password_hash = lit "h1"; created_at = 0 }

abbrev pub bob : UserRow
bob = record { id = 2; username = lit "bob"; password_hash = lit "h2"; created_at = 0 }

abbrev pub book_of : (id user_id revision : ℕ) → BookRow
book_of i u n = record {
  id = i;
  user_id = u;
  slug = lit "contacts";
  displayname = lit "Contacts";
  description = [];
  color = [];
  revision = n;
  created_at = 0;
  updated_at = 0;
}

abbrev pub old_card : Card
old_card = record {
  id = 1;
  addressbook_id = 1;
  href = lit "x.vcf";
  uid = lit "u1";
  etag_hex = lit "aa";
  vcard = lit "A";
  mod_time = 3;
}

abbrev pub old_change : ChangeRow
old_change = record {
  id = 1;
  addressbook_id = 1;
  href = lit "x.vcf";
  etag = lit "aa";
  deleted = false;
  revision = 1;
  changed_at = 3;
}

-- Alice's book 1 holds a card; Bob's book 2 is empty.
abbrev pub two_books : Database
two_books = record {
  users = alice ∷ bob ∷ [];
  books = book_of 1 1 1 ∷ book_of 2 2 0 ∷ [];
  cards = old_card ∷ [];
  changes = old_change ∷ [];
  next_user = 3;
  next_book = 3;
  next_card = 2;
  next_change = 2;
}

abbrev pub working : Conn
working = record { db = two_books; foreign_keys = true; faults = [] }

-- The statements of a write up to the log of the change succeed, and that one fails.
abbrev pub broken : Conn
broken = record {
  db = two_books;
  foreign_keys = true;
  faults = false ∷ false ∷ false ∷ false ∷ false ∷ false ∷ false ∷ false ∷ true ∷ [];
}

abbrev pub new_input : PutCardInput
new_input = record { addressbook_id = 1; href = lit "y.vcf"; uid = lit "u2"; vcard = lit "B" }

abbrev pub same_uid : PutCardInput
same_uid = record { addressbook_id = 1; href = lit "z.vcf"; uid = lit "u2"; vcard = lit "C" }
