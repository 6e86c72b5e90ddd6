-- ===== src/Tests/ServerRuns.antt =====
-- Runs of the checks of internal/server/handler.go and of the start-up of internal/daemon/daemon.go.
use go_contactd.Prelude.{Bytes, true, false, List, [], ◌∷◌, ◌++◌, some, lit, ◌≡◌, refl}
use go_contactd.Strings.{has_prefix, spaces, matched, trim_front, trim_back, trim_space, split}
use go_contactd.Store.Vcard.{canonicalize_vcard}
use go_contactd.Sync.History.{All}
use go_contactd.Handler.{validate_single_vcard_envelope}
use go_contactd.Handler.Laws.{validate_single_vcard_envelope-canonicalize_vcard}
use go_contactd.Daemon.{
  SeedUser, ServeConfig, split_pair, parse_seed_parts, parse_seed_list, startup_store,
}
use go_contactd.Daemon.Startup.{Filled, kept, startup_store-kept, parse_seed_list-Filled}
use go_contactd.Tests.Data.{two_books, working}

abbrev seeds : List SeedUser
seeds =
    (record { username = lit "carol"; password_hash = lit "h3" })
    ∷ (record { username = lit "dave"; password_hash = lit "h4:x" })
    ∷ []

abbrev pub config : ServeConfig
config = record {
  base_url = [];
  request_max_bytes = 100;
  vcard_max_bytes = 100;
  enable_addressbook_color = true;
  auth_max_concurrency = 8;
  auth_fail_delay = 0;
  force_seed = false;
  default_book_slug = lit "contacts";
  default_book_name = lit "Contacts";
  change_retention_days = 180;
  change_retention_max_revisions = 1;
  users = seeds;
}

startup_store-kept_example :
    kept (startup_store (λ h. true) 9 5 config working).1.db ≡ kept two_books
startup_store-kept_example = startup_store-kept (λ h. true) 9 5 config working refl refl

seed_list : parse_seed_list (lit "carol:h3, dave : h4:x,") ≡ some seeds
unfolding parse_seed_list parse_seed_parts split_pair split trim_space spaces trim_front trim_back
    matched has_prefix
seed_list = refl

parse_seed_list-Filled_example : All Filled seeds
parse_seed_list-Filled_example =
    parse_seed_list-Filled (lit "carol:h3, dave : h4:x,") seeds seed_list

abbrev text : Bytes
text = lit "BEGIN:VCARD" ++ 10 ∷ (lit "UID:1" ++ 13 ∷ (lit "END:VCARD" ++ 13 ∷ 10 ∷ []))

validate_single_vcard_envelope-canonicalize_vcard_example :
    validate_single_vcard_envelope (canonicalize_vcard text) ≡ validate_single_vcard_envelope text
validate_single_vcard_envelope-canonicalize_vcard_example =
    validate_single_vcard_envelope-canonicalize_vcard text
