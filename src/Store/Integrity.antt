-- ===== src/Store/Integrity.antt =====
-- Referential integrity of the tables in internal/db/store.go: the foreign keys of the schema.
pub mod Writes
use go_contactd.Prelude.{
  ℕ, ◌==◌, ◌&&◌, ◌||◌, not, Bytes, Bool, true, false, List, [], ◌∷◌, ◌++◌, if◌then◌else◌, ◌≡◌, refl,
  arith, any_row, delete_rows, update_rows,
}
use go_contactd.Store.Tables.{UserRow, BookRow, Card, ChangeRow, Database}
use go_contactd.Store.Statements.{book_is}
use go_contactd.Store.Books.{delete_books}
use go_contactd.Store.Users.{delete_users}

-- Whether `i` is the key of a row.
abbrev pub has_id {ℓ} : {B : Type ℓ} → (B → ℕ) → List B → ℕ → Bool
has_id key rows i = any_row (λ r. key r == i) rows

-- A row that refers to no row.
abbrev pub orphans {ℓ} : {A : Type ℓ} → (A → ℕ) → List A → (ℕ → Bool) → Bool
orphans ref xs there = any_row (λ x. not (there (ref x))) xs

abbrev pub has_user : Database → ℕ → Bool
has_user d = has_id (λ (u : UserRow). u.id) d.users

abbrev pub has_book : Database → ℕ → Bool
has_book d = has_id (λ (b : BookRow). b.id) d.books

-- Every book has its user, every card and every change its book.
pub record Referential (d : Database) : Type 0 where
  pub books : orphans (λ (b : BookRow). b.user_id) d.books (has_user d) ≡ false
  pub cards : orphans (λ (c : Card). c.addressbook_id) d.cards (has_book d) ≡ false
  pub changes : orphans (λ (r : ChangeRow). r.addressbook_id) d.changes (has_book d) ≡ false

module _ {A : Type 0} (ref : A → ℕ) where
  pub orphans-grow :
      (xs : List A) (there there' : ℕ → Bool)
      → ((i : ℕ) → there i ≡ true → there' i ≡ true)
      → orphans ref xs there ≡ false
      → orphans ref xs there' ≡ false
  orphans-grow [] there there' g e = refl
  orphans-grow (x ∷ xs) there there' g e = ground (arith, g (ref x), orphans-grow xs there there' g)

  pub orphans-append :
      (xs : List A) (x : A) (there : ℕ → Bool)
      → orphans ref xs there ≡ false
      → there (ref x) ≡ true
      → orphans ref (xs ++ x ∷ []) there ≡ false
  orphans-append [] x there e t = ground arith
  orphans-append (y ∷ xs) x there e t = ground (arith, orphans-append xs x there)

  pub orphans-delete :
      (xs : List A) (doomed : A → Bool) (there : ℕ → Bool)
      → orphans ref xs there ≡ false
      → orphans ref (delete_rows doomed xs) there ≡ false
  orphans-delete [] doomed there e = refl
  orphans-delete (x ∷ xs) doomed there e = ground (arith, orphans-delete xs doomed there)

  -- Rows that refer to deleted rows go with them, so the others still refer to rows.
  orphans-cascade :
      (xs : List A) (there gone there' : ℕ → Bool)
      → ((i : ℕ) → there i ≡ true → gone i ≡ false → there' i ≡ true)
      → orphans ref xs there ≡ false
      → orphans ref (delete_rows (λ x. gone (ref x)) xs) there' ≡ false
  orphans-cascade [] there gone there' left e = refl
  orphans-cascade (x ∷ xs) there gone there' left e =
      ground (arith, left (ref x), orphans-cascade xs there gone there' left)

has_id-delete :
    {B : Type 0} (key : B → ℕ) (doomed : B → Bool) (rows : List B) (i : ℕ)
    → has_id key rows i ≡ true
    → any_row (λ r. doomed r && key r == i) rows ≡ false
    → has_id key (delete_rows doomed rows) i ≡ true
has_id-delete key doomed [] i there kept = there
has_id-delete key doomed (r ∷ rows) i there kept = ground (arith, has_id-delete key doomed rows i)

pub delete_books-Referential :
    (doomed : BookRow → Bool) (d : Database)
    → Referential d
    → Referential (delete_books doomed true d)
delete_books-Referential doomed d s =
    let left = has_id-delete (λ (b : BookRow). b.id) doomed d.books in
    record {
      books = orphans-delete (λ (b : BookRow). b.user_id) d.books doomed (has_user d) s.books;
      cards =
          orphans-cascade (λ (c : Card). c.addressbook_id) d.cards (has_book d) _ _ left s.cards;
      changes =
          orphans-cascade (λ (r : ChangeRow). r.addressbook_id) d.changes (has_book d) _ _ left
            s.changes;
    }

pub delete_users-Referential :
    (doomed : UserRow → Bool) (d : Database)
    → Referential d
    → Referential (delete_users doomed true d)
delete_users-Referential doomed d s =
    let gone = λ (b : BookRow). any_row (λ (u : UserRow). doomed u && u.id == b.user_id) d.users in
    let after = delete_books-Referential gone d s in
    record {
      books =
          orphans-cascade (λ (b : BookRow). b.user_id) d.books (has_user d) _ _
            (has_id-delete (λ (u : UserRow). u.id) doomed d.users) s.books;
      cards = after.cards;
      changes = after.changes;
    }
