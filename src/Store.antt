-- ===== src/Store.antt =====
-- internal/db/store.go: the SQLite store of users, address books, cards and the log of card changes.
pub mod Tables
pub mod Exec
pub mod Statements
pub mod Vcard
pub mod Cards
pub mod Changes
pub mod Books
pub mod Users
pub mod Integrity
pub mod Access
