-- ===== src/Sync/History.antt =====
-- The history of an address book that a sync token of internal/carddavx/sync.go refers to: which
-- changes were made since, and which of them the log of internal/db/store.go still has.
pub mod Lists
pub mod Writes
pub mod Imports
pub mod Prunes
pub mod Unlogged
pub mod Steps
use mathlib.Core.Option
use go_contactd.Prelude.{
  ℕ, ◌+◌, ◌≤◌, Bytes, List, [], ◌∷◌, ◌++◌, Option, none, some, bytes_eq, if◌then◌else◌, length,
  update_rows, ◌≡◌,
}
use go_contactd.Store.Tables.{BookRow, ChangeRow, Database}
use go_contactd.Store.Statements.{find_book, book_is, bumped}
use go_contactd.Store.Changes.{changes_since}
use go_contactd.Store.Cards.Lookup.{content_at, same_place}

abbrev pub etag_at : ℕ → Bytes → Database → Option Bytes
etag_at b h d = Option.map (λ (x : Bytes × Bytes × Bytes). x.1) (content_at b h d)

abbrev pub revision_at : ℕ → Database → Option ℕ
revision_at b d = Option.map (λ (r : BookRow). r.revision) (find_book b d)

abbrev pub All {ℓ κ} : {A : Type ℓ} → (A → Type κ) → List A → Type κ
All P [] = Unit
All P (x ∷ xs) = P x × All P xs

-- The revisions r + 1, r + 2, …
abbrev pub Consecutive : ℕ → List ChangeRow → Type 0
Consecutive r [] = Unit
Consecutive r (w ∷ ws) = (w.revision ≡ r + 1) × Consecutive (r + 1) ws

-- In the order of the clock.
abbrev pub Timed : List ChangeRow → Type 0
Timed [] = Unit
Timed (w ∷ ws) = All (λ (x : ChangeRow). w.changed_at ≤ x.changed_at) ws × Timed ws

-- What a change makes of the ETag of an href.
abbrev pub after_change : ChangeRow → Bytes → Option Bytes → Option Bytes
after_change w h old = if bytes_eq w.href h then (if w.deleted then none else some w.etag) else old

abbrev pub after_changes : List ChangeRow → Bytes → Option Bytes → Option Bytes
after_changes [] h old = old
after_changes (w ∷ ws) h old = after_changes ws h (after_change w h old)

-- The book had the ETags `v` at revision `r`. The changes since are `gone ++ kept`, one for each
-- revision, and the log still has `kept`.
pub record Since (b r : ℕ) (v : Bytes → Option Bytes) (d : Database) : Type 0 where
  pub gone : List ChangeRow
  pub kept : List ChangeRow
  pub logged : changes_since b r d ≡ kept
  pub numbered : Consecutive r (gone ++ kept)
  pub head : revision_at b d ≡ some (r + length (gone ++ kept))
  pub timed : Timed kept
  pub current : (h : Bytes) → etag_at b h d ≡ after_changes (gone ++ kept) h (v h)

-- A write to the book `b'` at time `now` that logged `w`.
pub record Logged (b' now : ℕ) (w : ChangeRow) (d d' : Database) : Type 0 where
  pub changes : d'.changes ≡ d.changes ++ w ∷ []
  pub books : d'.books ≡ update_rows (book_is b') (bumped now) d.books
  pub book : w.addressbook_id ≡ b'
  pub time : w.changed_at ≡ now
  pub revision : revision_at b' d' ≡ some w.revision
  pub etags :
      (b : ℕ) (h : Bytes)
      → etag_at b h d' ≡ (
          if same_place b' w.href b h
          then (if w.deleted then none else some w.etag)
          else etag_at b h d)

-- No logged change is later than `now`.
abbrev pub IsLatest : ℕ → Database → Type 0
IsLatest now d = All (λ (r : ChangeRow). r.changed_at ≤ now) d.changes
