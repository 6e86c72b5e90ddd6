-- ===== src/Tests/CarddavRuns.antt =====
-- Runs of internal/carddav/backend.go.
use go_contactd.Prelude.{
  ℕ, Bytes, Bool, true, false, [], ◌∷◌, Option, none, some, lit, ◌≡◌, refl, if◌then◌else◌, ◌||◌,
  arith, bytes_eq,
}
use go_contactd.Strings.{
  has_prefix, spaces, matched, trim_front, trim_back, trim_space, is_blank, split,
}
use go_contactd.Strings.Paths.{
  is_empty, is_dot, is_dot_dot, contains_byte, trim_slashes, clean_elements, join_elements,
  path_clean, path_elements,
}
use go_contactd.Store.Tables.{Card}
use go_contactd.Store.Exec.{Conn, exec, set_foreign_keys, apply_conn_pragmas, with_immediate_tx}
use go_contactd.Store.Statements.{
  find_card, find_book, insert_card, update_card, bump_revision, select_revision, insert_change,
}
use go_contactd.Store.Vcard.{canonicalize_vcard, compute_etag_hex, replace_all}
use go_contactd.Store.Cards.{
  precondition_fails, write_card, put_card_conn, put_card_checked, put_card, put_card_conditional,
}
use go_contactd.Store.Cards.Lookup.{content_at, same_place}
use go_contactd.Store.Changes.{get_card}
use go_contactd.Sync.Pages.{full_href}
use go_contactd.Carddav.{ok, Reply, principal_from_context, parse_card_path_for_principal}
use go_contactd.Carddav.Paths.{parse_card_path_for_principal-own}
use go_contactd.Carddav.Paths.Roundtrip.{parse_card_path_for_principal-full_href}
use go_contactd.Carddav.Objects.{
  Codec, AddressObject, ConditionalMatch, PutAddressObjectOptions, check_conditional,
  put_card_conditions_from_request, put_object, write_object, put_address_object,
  delete_address_object, strict_uid_from_card, to_address_object,
}
use go_contactd.Carddav.Objects.Conditions.{
  put_object-if_none_match, put_object-if_match, put_object-content,
}
use go_contactd.Carddav.Objects.Tenants.{put_address_object-tenant, delete_address_object-tenant}
use go_contactd.Tests.Data.{checksum, two_books, working}

-- Stand-ins for the codec and the conditions: a card is its UID and its text.
abbrev codec : Codec (Bytes × Bytes)
codec = record {
  encode = λ card. some card.1;
  decode = λ raw. some (lit "u", raw);
  uids = λ card. card.0 ∷ [];
}

abbrev unset : ConditionalMatch
unset = record { is_set = false; is_wildcard = false; match_etag = λ e. some false }

abbrev wildcard : ConditionalMatch
wildcard = record { is_set = true; is_wildcard = true; match_etag = λ e. some true }

abbrev only_aa : ConditionalMatch
only_aa = record {
  is_set = true;
  is_wildcard = false;
  match_etag = λ e. some (bytes_eq e (lit "aa"));
}

abbrev if_absent : PutAddressObjectOptions
if_absent = record { if_none_match = wildcard; if_match = unset }

abbrev if_aa : PutAddressObjectOptions
if_aa = record { if_none_match = unset; if_match = only_aa }

abbrev put_at : Bytes → Option PutAddressObjectOptions → Reply (AddressObject codec × Bool) × Conn
put_at href opts =
    put_object codec checksum 7 none (lit "alice") (lit "contacts") href 1 (lit "u7", lit "C") opts
      (λ d. d) working

abbrev object_at : Bytes → AddressObject codec
object_at href = record {
  path = full_href (lit "alice") (lit "contacts") href;
  mod_time = 7;
  content_length = 1;
  etag = lit "\"01\"";
  card = (lit "u", lit "C");
}

create_succeeds :
    put_at (lit "y.vcf") (some if_absent)
    ≡ (ok (object_at (lit "y.vcf"), true), (put_at (lit "y.vcf") (some if_absent)).1)
unfolding put_object write_object check_conditional put_card_conditions_from_request
    strict_uid_from_card to_address_object get_card put_card put_card_conditional put_card_checked
    put_card_conn write_card precondition_fails canonicalize_vcard compute_etag_hex replace_all
    has_prefix find_card find_book insert_card update_card bump_revision select_revision
    insert_change exec set_foreign_keys apply_conn_pragmas with_immediate_tx trim_space spaces
    trim_front trim_back matched
create_succeeds = refl

put_object-if_none_match_example : (find_card 1 (lit "y.vcf") two_books ≡ none) × (true ≡ true)
put_object-if_none_match_example =
    put_object-if_none_match codec checksum 7 none (lit "alice") (lit "contacts") (lit "y.vcf") 1
      (lit "u7", lit "C") if_absent (λ d. d) working refl refl create_succeeds

replace_succeeds :
    put_at (lit "x.vcf") (some if_aa)
    ≡ (ok (object_at (lit "x.vcf"), false), (put_at (lit "x.vcf") (some if_aa)).1)
unfolding put_object write_object check_conditional put_card_conditions_from_request
    strict_uid_from_card to_address_object get_card put_card put_card_conditional put_card_checked
    put_card_conn write_card precondition_fails canonicalize_vcard compute_etag_hex replace_all
    has_prefix find_card find_book insert_card update_card bump_revision select_revision
    insert_change exec set_foreign_keys apply_conn_pragmas with_immediate_tx trim_space spaces
    trim_front trim_back matched
replace_succeeds = refl

put_object-if_match_example :
    (replaced : Card) × (find_card 1 (lit "x.vcf") two_books ≡ some replaced)
    × (some (bytes_eq replaced.etag_hex (lit "aa")) ≡ some true)
    × (false ≡ false)
put_object-if_match_example =
    put_object-if_match codec checksum 7 none (lit "alice") (lit "contacts") (lit "x.vcf") 1
      (lit "u7", lit "C") if_aa (λ d. d) working refl replace_succeeds

put_object-content_example :
    (uid : Bytes) × (raw : Bytes) × (strict_uid_from_card codec (lit "u7", lit "C") ≡ some uid)
    × (some (lit "C") ≡ some raw)
    × ((b' : ℕ) (h' : Bytes)
        → content_at b' h' (put_at (lit "x.vcf") (some if_aa)).1.db ≡ (
            if same_place 1 (lit "x.vcf") b' h'
            then some
                (uid, compute_etag_hex checksum (canonicalize_vcard raw), canonicalize_vcard raw)
            else content_at b' h' two_books))
put_object-content_example =
    put_object-content codec checksum 7 none (lit "alice") (lit "contacts") (lit "x.vcf") 1
      (lit "u7", lit "C") (some if_aa) (λ d. d) working replace_succeeds

put_address_object-tenant_example :
    content_at 1
      (lit "x.vcf")
      (put_address_object codec
        (some (lit "bob"))
        checksum
        7
        none
        (lit "/bob/contacts/x.vcf")
        (lit "u7", lit "C")
        none
        (λ d. d)
        working).1.db
    ≡ content_at 1 (lit "x.vcf") two_books
put_address_object-tenant_example =
    put_address_object-tenant (lit "bob") 1 (lit "x.vcf") codec checksum 7 none
      (lit "/bob/contacts/x.vcf") (lit "u7", lit "C") none working refl

delete_address_object-tenant_example :
    content_at 1
      (lit "x.vcf")
      (delete_address_object (some (lit "bob")) 7 (lit "/bob/contacts/x.vcf") none working).1.db
    ≡ content_at 1 (lit "x.vcf") two_books
delete_address_object-tenant_example =
    delete_address_object-tenant (lit "bob") 1 (lit "x.vcf") 7 (lit "/bob/contacts/x.vcf") none
      working refl

winding_path :
    parse_card_path_for_principal (some (lit "alice")) (lit " /bob/../alice/./contacts//x.vcf ")
    ≡ ok (lit "alice", lit "contacts", lit "x.vcf")
unfolding parse_card_path_for_principal principal_from_context path_elements path_clean trim_slashes
    clean_elements join_elements split is_blank trim_space spaces trim_front trim_back matched
    has_prefix
winding_path = refl

parse_card_path_for_principal-own_example :
    (is_blank (lit "alice") ≡ false)
    × (lit "alice" ≡ lit "alice")
    × (is_empty (lit "contacts") ≡ false)
    × (is_empty (lit "x.vcf") ≡ false)
    × (contains_byte 47 (lit "x.vcf") ≡ false)
    × (contains_byte 92 (lit "x.vcf") ≡ false)
    × (is_dot (lit "x.vcf") || is_dot_dot (lit "x.vcf") ≡ false)
parse_card_path_for_principal-own_example =
    parse_card_path_for_principal-own (lit "alice") (lit " /bob/../alice/./contacts//x.vcf ")
      winding_path

not_blank : is_blank (lit "alice") ≡ false
unfolding is_blank trim_space spaces trim_front trim_back matched has_prefix
not_blank = refl

parse_card_path_for_principal-full_href_example :
    parse_card_path_for_principal
      (some (lit "alice"))
      (full_href (lit "alice") (lit "contacts") (lit "x.vcf"))
    ≡ ok (lit "alice", lit "contacts", lit "x.vcf")
parse_card_path_for_principal-full_href_example =
    parse_card_path_for_principal-full_href (lit "alice") (lit "contacts") (lit "x.vcf")
      (record { no_slash = refl; not_empty = refl; not_dot = refl; not_dot_dot = refl })
      (record { no_slash = refl; not_empty = refl; not_dot = refl; not_dot_dot = refl })
      (record { no_slash = refl; not_empty = refl; not_dot = refl; not_dot_dot = refl }) not_blank
      refl (102, lit "cv.x", refl, (omega arith, omega arith))
