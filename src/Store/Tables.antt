-- ===== src/Store/Tables.antt =====
-- The rows and tables of internal/db/store.go, with the schema that `migrate` creates. A table is
-- the list of its rows in rowid order; `next_…` is its AUTOINCREMENT counter. Times are ticks.
use go_contactd.Prelude.{ℕ, Bytes, Bool, List, [], Option}

pub record UserRow : Type 0 where
  pub id : ℕ
  pub username : Bytes
  pub password_hash : Bytes
  pub created_at : ℕ

pub record BookRow : Type 0 where
  pub id : ℕ
  pub user_id : ℕ
  pub slug : Bytes
  pub displayname : Bytes
  pub description : Bytes
  pub color : Bytes
  pub revision : ℕ
  pub created_at : ℕ
  pub updated_at : ℕ

pub record Card : Type 0 where
  pub id : ℕ
  pub addressbook_id : ℕ
  pub href : Bytes
  pub uid : Bytes
  pub etag_hex : Bytes
  pub vcard : Bytes
  pub mod_time : ℕ

pub record ChangeRow : Type 0 where
  pub id : ℕ
  pub addressbook_id : ℕ
  pub href : Bytes
  pub etag : Bytes
  pub deleted : Bool
  pub revision : ℕ
  pub changed_at : ℕ

pub record Database : Type 0 where
  pub users : List UserRow
  pub books : List BookRow
  pub cards : List Card
  pub changes : List ChangeRow
  pub next_user : ℕ
  pub next_book : ℕ
  pub next_card : ℕ
  pub next_change : ℕ

-- The tables that `migrate` leaves in a new file.
abbrev pub empty : Database
empty = record {
  users = [];
  books = [];
  cards = [];
  changes = [];
  next_user = 1;
  next_book = 1;
  next_card = 1;
  next_change = 1;
}

-- The values that the queries scan into.
pub record User : Type 0 where
  pub id : ℕ
  pub username : Bytes

pub record Addressbook : Type 0 where
  pub id : ℕ
  pub user_id : ℕ
  pub username : Bytes
  pub slug : Bytes
  pub display_name : Bytes
  pub description : Bytes
  pub color : Bytes
  pub revision : ℕ

pub record CardChange : Type 0 where
  pub href : Bytes
  pub etag_hex : Bytes
  pub deleted : Bool
  pub revision : ℕ

pub record CardSyncState : Type 0 where
  pub href : Bytes
  pub etag_hex : Bytes
  pub revision : ℕ

pub record PutCardInput : Type 0 where
  pub addressbook_id : ℕ
  pub href : Bytes
  pub uid : Bytes
  pub vcard : Bytes

pub record PutCardConditions : Type 0 where
  pub require_absent : Bool
  pub expected_current_etag_hex : Option Bytes

pub record PutCardResult : Type 0 where
  pub created : Bool
  pub etag_hex : Bytes
  pub revision : ℕ
