-- ===== src/Store/Books/Keys.antt =====
-- The primary key of the address books in internal/db/store.go.
use mathlib.Core.Option
use go_contactd.Prelude.{
  ◌==◌, Bytes, Bool, true, false, List, [], ◌∷◌, some, any_row, first_row, ◌≡◌, arith, Bool-cases,
  Option-cases, inl, inr,
}
use go_contactd.Store.Tables.{BookRow, Addressbook, Database}
use go_contactd.Store.Statements.{book_is, find_book}
use go_contactd.Store.Books.{owned_at, find_addressbook}

-- Each id once.
abbrev pub DistinctIds : List BookRow → Type 0
DistinctIds [] = Unit
DistinctIds (r ∷ rs) = (any_row (book_is r.id) rs ≡ false) × DistinctIds rs

first_row-id :
    (test : BookRow → Bool) (x : BookRow) (rs : List BookRow)
    → DistinctIds rs
    → first_row test rs ≡ some x
    → (first_row (book_is x.id) rs ≡ some x) × (any_row (book_is x.id) rs ≡ true)
first_row-id test x [] d e = absurd (cc)
first_row-id test x (r ∷ rs) d e = elim (Bool-cases (test r)) [
  | inl t ↦ ground arith
  | inr f ↦
      let (found, there) = first_row-id test x rs d.1 (ground arith) in
      elim (Bool-cases (r.id == x.id)) [
        | inl same ↦ absurd (ground (arith, d.0))
        | inr other ↦ ground arith
      ]
]

-- The collection that a request names is the row with its id.
pub find_addressbook-revision :
    (username slug : Bytes) (d : Database) (ab : Addressbook)
    → DistinctIds d.books
    → find_addressbook username slug d ≡ some ab
    → Option.map (λ (r : BookRow). r.revision) (find_book ab.id d) ≡ some ab.revision
unfolding find_addressbook find_book
find_addressbook-revision username slug d ab keys e =
    elim (Option-cases (first_row (owned_at username slug d) d.books)) [
      | inl missing ↦ absurd (ground arith)
      | inr (x, found) ↦
          let (same, there) = first_row-id (owned_at username slug d) x d.books keys found in
          ground arith
    ]
