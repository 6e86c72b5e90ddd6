-- ===== src/Tests/StoreRuns.antt =====
-- Runs of the operations of internal/db/store.go.
use mathlib.Core.Logic.{◌≢◌}
use go_contactd.Prelude.{
  Bytes, true, false, [], ◌∷◌, none, some, lit, ◌≡◌, refl, if◌then◌else◌, first_row, bytes_eq,
}
use go_contactd.Store.Tables.{UserRow, Card, PutCardResult}
use go_contactd.Store.Exec.{
  driver_failed, unique_failed, precondition_failed, ok, err, exec, set_foreign_keys,
  apply_conn_pragmas, with_immediate_tx, Conn,
}
use go_contactd.Store.Statements.{
  find_card, find_book, insert_card, update_card, bump_revision, select_revision, insert_change,
  delete_card_row,
}
use go_contactd.Store.Vcard.{canonicalize_vcard, compute_etag_hex, replace_all, cr, lf}
use go_contactd.Store.Vcard.Lines.{line_ends, canonicalize_vcard-line_ends}
use go_contactd.Store.Cards.{
  invalid_put, etag_differs, precondition_fails, write_card, put_card_conn, put_card_checked,
  put_cards_conn, put_cards_atomic, remove_card, delete_card_conn, delete_card_checked,
}
use go_contactd.Store.Cards.Atomic.{
  put_card_checked-atomic, put_cards_atomic-atomic, delete_card_checked-atomic,
}
use go_contactd.Store.Cards.Effect.{
  Stored, Removed, revision_of, put_card_checked-Stored, delete_card_checked-Removed,
}
use go_contactd.Store.Books.{delete_addressbook}
use go_contactd.Store.Users.{
  Comparison, matched, mismatched, failed, named, create_user, authenticate_user,
  delete_user_by_username,
}
use go_contactd.Store.Integrity.{Referential}
use go_contactd.Store.Integrity.Writes.{
  put_card_checked-Referential, delete_card_checked-Referential,
  delete_user_by_username-Referential, delete_addressbook-Referential,
}
use go_contactd.Store.Access.{authenticate_user-accepted, create_user-authenticate_user}
use go_contactd.Strings.{has_prefix}
use go_contactd.Store.Cards.Answer.{put_answer, put_card_checked-answer}
use go_contactd.Tests.Data.{book_of, checksum, two_books, working, broken, new_input, same_uid}

put_fails :
    put_card_checked checksum 7 none new_input none broken
    ≡ (err driver_failed, (put_card_checked checksum 7 none new_input none broken).1)
unfolding put_card_checked put_card_conn write_card precondition_fails canonicalize_vcard
    compute_etag_hex replace_all has_prefix find_card find_book insert_card update_card
    bump_revision select_revision insert_change exec set_foreign_keys apply_conn_pragmas
    with_immediate_tx
put_fails = refl

put_card_checked-atomic_example :
    (put_card_checked checksum 7 none new_input none broken).1.db ≡ two_books
put_card_checked-atomic_example =
    put_card_checked-atomic checksum 7 none new_input none broken put_fails

abbrev put_result : PutCardResult
put_result = record { created = true; etag_hex = lit "01"; revision = 2 }

abbrev after_put : Conn
after_put = (put_card_checked checksum 7 none new_input none working).1

put_succeeds : put_card_checked checksum 7 none new_input none working ≡ (ok put_result, after_put)
unfolding put_card_checked put_card_conn write_card precondition_fails canonicalize_vcard
    compute_etag_hex replace_all has_prefix find_card find_book insert_card update_card
    bump_revision select_revision insert_change exec set_foreign_keys apply_conn_pragmas
    with_immediate_tx
put_succeeds = refl

put_card_checked-Stored_example :
    (invalid_put new_input ≡ false)
    × (precondition_fails none (find_card 1 (lit "y.vcf") two_books) ≡ false)
    × Stored checksum 7 new_input
        (find_card 1 (lit "y.vcf") two_books)
        two_books
        put_result
        after_put.db
put_card_checked-Stored_example =
    put_card_checked-Stored checksum 7 none new_input none working put_succeeds

import_fails : put_cards_atomic checksum none (λ i. 7) (new_input ∷ same_uid ∷ []) working ≡ (
  err unique_failed,
  (put_cards_atomic checksum none (λ i. 7) (new_input ∷ same_uid ∷ []) working).1,
)
unfolding put_card_checked put_card_conn write_card precondition_fails canonicalize_vcard
    compute_etag_hex replace_all has_prefix find_card find_book insert_card update_card
    bump_revision select_revision insert_change exec set_foreign_keys apply_conn_pragmas
    with_immediate_tx put_cards_atomic put_cards_conn
import_fails = refl

put_cards_atomic-atomic_example :
    (put_cards_atomic checksum none (λ i. 7) (new_input ∷ same_uid ∷ []) working).1.db ≡ two_books
put_cards_atomic-atomic_example =
    put_cards_atomic-atomic checksum none (λ i. 7) (new_input ∷ same_uid ∷ []) working import_fails

delete_fails :
    delete_card_checked 8 1 (lit "x.vcf") (some (lit "bb")) working
    ≡ (err precondition_failed, (delete_card_checked 8 1 (lit "x.vcf") (some (lit "bb")) working).1)
unfolding delete_card_checked delete_card_conn remove_card find_card find_book delete_card_row
    bump_revision select_revision insert_change exec set_foreign_keys apply_conn_pragmas
    with_immediate_tx
delete_fails = refl

delete_card_checked-atomic_example :
    (delete_card_checked 8 1 (lit "x.vcf") (some (lit "bb")) working).1.db ≡ two_books
delete_card_checked-atomic_example =
    delete_card_checked-atomic 8 1 (lit "x.vcf") (some (lit "bb")) working delete_fails

abbrev after_delete : Conn
after_delete = (delete_card_checked 8 1 (lit "x.vcf") (some (lit "aa")) working).1

delete_succeeds :
    delete_card_checked 8 1 (lit "x.vcf") (some (lit "aa")) working ≡ (ok tt, after_delete)
unfolding delete_card_checked delete_card_conn remove_card find_card find_book delete_card_row
    bump_revision select_revision insert_change exec set_foreign_keys apply_conn_pragmas
    with_immediate_tx
delete_succeeds = refl

delete_card_checked-Removed_example :
    (card : Card) × (find_card 1 (lit "x.vcf") two_books ≡ some card)
    × (etag_differs (some (lit "aa")) (find_card 1 (lit "x.vcf") two_books) ≡ false)
    × Removed 8 1 (lit "x.vcf") card two_books (revision_of 1 after_delete.db) after_delete.db
delete_card_checked-Removed_example =
    delete_card_checked-Removed 8 1 (lit "x.vcf") (some (lit "aa")) working delete_succeeds

two_books-Referential : Referential two_books
two_books-Referential = record { books = refl; cards = refl; changes = refl }

put_card_checked-Referential_example : Referential after_put.db
put_card_checked-Referential_example =
    put_card_checked-Referential checksum 7 none new_input none working two_books-Referential

delete_card_checked-Referential_example : Referential after_delete.db
delete_card_checked-Referential_example =
    delete_card_checked-Referential 8 1 (lit "x.vcf") (some (lit "aa")) working
      two_books-Referential

delete_user_by_username-Referential_example :
    Referential (delete_user_by_username (lit "alice") working).1.db
delete_user_by_username-Referential_example =
    delete_user_by_username-Referential (lit "alice") working refl two_books-Referential

delete_addressbook-Referential_example :
    Referential (delete_addressbook (lit "alice") (lit "contacts") working).1.db
delete_addressbook-Referential_example =
    delete_addressbook-Referential (lit "alice") (lit "contacts") working refl two_books-Referential

abbrev mixed : Bytes
mixed = 65 ∷ cr ∷ 66 ∷ lf ∷ 67 ∷ cr ∷ lf ∷ []

canonicalize_vcard-line_ends_example : canonicalize_vcard mixed ≡ line_ends false mixed
canonicalize_vcard-line_ends_example = canonicalize_vcard-line_ends mixed

-- A stand-in for bcrypt's comparison.
abbrev same_text : Bytes → Bytes → Comparison
same_text hash password = if bytes_eq hash password then matched else mismatched

login_succeeds :
    authenticate_user same_text (lit "alice") (lit "h1") working ≡ (ok (true, 1), working)
unfolding authenticate_user exec
login_succeeds = refl

authenticate_user-accepted_example :
    (r : UserRow) × (first_row (named (lit "alice")) two_books.users ≡ some r)
    × (r.username ≡ lit "alice")
    × (same_text r.password_hash (lit "h1") ≡ matched)
    × (1 ≡ r.id)
    × (working.db ≡ two_books)
authenticate_user-accepted_example =
    authenticate_user-accepted same_text (lit "alice") (lit "h1") working login_succeeds

abbrev after_create : Conn
after_create = (create_user 9 (lit "carol") (lit "h3") working).1

create_succeeds : create_user 9 (lit "carol") (lit "h3") working ≡ (ok 3, after_create)
unfolding create_user exec
create_succeeds = refl

no_faults_left : after_create.faults ≡ []
unfolding create_user exec
no_faults_left = refl

matched≢failed : Comparison.matched ≢ failed
matched≢failed e = absurd (cc)

create_user-authenticate_user_example :
    authenticate_user same_text (lit "carol") (lit "h3") after_create ≡ (ok (true, 3), after_create)
create_user-authenticate_user_example =
    create_user-authenticate_user same_text 9 (lit "carol") (lit "h3") (lit "h3") working
      create_succeeds no_faults_left matched≢failed

book_there : find_book 1 two_books ≡ some (book_of 1 1 1)
unfolding find_book
book_there = refl

put_card_checked-answer_example :
    (put_card_checked checksum 7 none new_input none working).0
    ≡ put_answer checksum new_input none (book_of 1 1 1) two_books
put_card_checked-answer_example =
    put_card_checked-answer checksum 7 new_input none working (book_of 1 1 1) refl book_there
