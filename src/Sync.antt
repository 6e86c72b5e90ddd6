-- ===== src/Sync.antt =====
-- internal/carddavx/sync.go: sync tokens, pages and the cache of cursors.
pub mod Token
pub mod Pages
pub mod Cursors
pub mod History
pub mod Service
