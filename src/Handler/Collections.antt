-- ===== src/Handler/Collections.antt =====
-- MKCOL, PROPPATCH and DELETE of an address book in internal/server/handler.go.
pub mod Bounds
use go_contactd.Prelude.{
  ℕ, ◌&&◌, ◌||◌, not, ltb, Bytes, Bool, true, false, List, [], ◌∷◌, ◌++◌, Option, none, some, lit,
  if◌then◌else◌, length,
}
use go_contactd.Strings.{trim_space, is_blank}
use go_contactd.Carddav.{create_address_book, update_address_book_metadata, delete_address_book}
use go_contactd.Davxml.{
  Name, dav, carddav, inf, match_xml_name, no_prop, PropStat, prop_stat_status, multi_status,
}
use go_contactd.Handler.{ResourceKind, classify_dav_path, parse_addressbook_path}
use go_contactd.Handler.Requests.{
  ProppatchOp, MkcolRequest, read_body, parse_proppatch_request, parse_mkcol_request,
}
use go_contactd.Handler.Propfind.{accept, invalid_xml, is_some}
use go_contactd.Handler.Http.{
  HttpRequest, HttpResponse, HandlerOptions, Env, ◌>>=◌, ◌>>◌, pure, halt, Handler, backend,
  only_status, error_response, not_found, write_document, or_backend_error,
}

abbrev is_addressbook : ResourceKind → Bool
is_addressbook ResourceKind.addressbook = true
is_addressbook _ = false

-- Only the path of an address book is answered.
abbrev pub at_addressbook : Bytes → Handler (Unit {0})
at_addressbook p = if is_addressbook (classify_dav_path p) then pure tt else halt not_found

-- The variables of handleProppatch's loop: the properties that it knows, those that it does not, and
-- the values that are set last.
pub record Patch : Type 0 where
  pub supported : List Name
  pub unsupported : List Name
  pub displayname : Option Bytes
  pub description : Option Bytes
  pub color : Option Bytes

abbrev pub no_patch : Patch
no_patch = record {
  supported = [];
  unsupported = [];
  displayname = none;
  description = none;
  color = none;
}

abbrev new_value : ProppatchOp → Option Bytes
new_value op = some (if op.is_remove then [] else op.value)

unfoldable pub patch_op : (enable_color : Bool) → ProppatchOp → Patch → Patch
patch_op enable_color op p =
    if match_xml_name op.name (dav (lit "displayname"))
    then record p { supported = p.supported ++ op.name ∷ []; displayname = new_value op }
    else if match_xml_name op.name (carddav (lit "addressbook-description"))
    then record p { supported = p.supported ++ op.name ∷ []; description = new_value op }
    else if match_xml_name op.name (inf (lit "addressbook-color")) && enable_color
    then record p { supported = p.supported ++ op.name ∷ []; color = new_value op }
    else record p { unsupported = p.unsupported ++ op.name ∷ [] }

unfoldable pub patch_ops : (enable_color : Bool) → List ProppatchOp → Patch → Patch
patch_ops enable_color [] p = p
patch_ops enable_color (op ∷ ops) p = patch_ops enable_color ops (patch_op enable_color op p)

abbrev pub longer_than : ℕ → Option Bytes → Bool
longer_than n none = false
longer_than n (some v) = ltb n (length v)

unfoldable pub check_patch : Patch → Handler (Unit {0})
check_patch p =
    if longer_than 256 p.displayname
    then halt (error_response (lit "displayname too large") 400)
    else if longer_than 4096 p.description
    then halt (error_response (lit "addressbook-description too large") 400)
    else if longer_than 64 p.color
    then halt (error_response (lit "addressbook-color too large") 400)
    else pure tt

abbrev propstat_of : List Name → ℕ → List PropStat
propstat_of [] code = []
propstat_of (n ∷ ns) code = prop_stat_status (record no_prop { extra = n ∷ ns }) code ∷ []

unfoldable pub patch_propstats : Patch → List PropStat
patch_propstats p = propstat_of p.supported 200 ++ propstat_of p.unsupported 403

-- A text without its space, if there is more to it.
unfoldable pub given : Bytes → Option Bytes
given v = if is_blank v then none else some (trim_space v)

abbrev pub or_else : Bytes → Option Bytes → Bytes
or_else v none = v
or_else v (some w) = w

abbrev pub wrong_resource_type : MkcolRequest → Bool
wrong_resource_type m = m.resource_type_present && (not m.has_collection || not m.has_addressbook)

module _ {VCard : Type 0} (env : Env VCard) (opts : HandlerOptions) (ctx : Option Bytes) where
  -- UpdateAddressBookMetadata, unless there is nothing to update.
  abbrev pub update_metadata :
      Bytes → (displayname description color : Option Bytes) → Handler (Unit {0})
  update_metadata p displayname description color =
      if is_some displayname || is_some description || is_some color
      then or_backend_error env
          (backend (update_address_book_metadata ctx env.now p displayname description color))
      else pure tt

  unfoldable pub handle_proppatch : HttpRequest → Handler HttpResponse
  handle_proppatch r = do
    at_addressbook r.path
    raw ← accept invalid_xml (read_body opts.request_max_bytes r.body)
    ops ← accept invalid_xml (parse_proppatch_request env.tokens raw)
    let p = patch_ops opts.enable_addressbook_color ops no_patch
    check_patch p
    update_metadata r.path p.displayname p.description p.color
    pure (
        write_document env 207 (
          multi_status (record {
            responses = record { href = r.path; status = []; prop_stats = patch_propstats p } ∷ [];
            sync_token = [];
          })))

  abbrev pub slug_at : Bytes → Handler Bytes
  slug_at p = elim (parse_addressbook_path p) [
    | none ↦ halt not_found
    | some (user, slug) ↦ pure slug
  ]

  -- CreateAddressBook reads the path and the name of an AddressBook.
  unfoldable pub handle_mkcol : HttpRequest → Handler HttpResponse
  handle_mkcol r = do
    at_addressbook r.path
    slug ← slug_at r.path
    raw ← accept invalid_xml (read_body opts.request_max_bytes r.body)
    m ← accept invalid_xml (parse_mkcol_request env.tokens raw)
    if wrong_resource_type m
        then halt (error_response (lit "invalid mkcol resourcetype") 400)
        else pure tt
    or_backend_error env (
        backend
          (create_address_book ctx env.now (some (r.path, or_else slug (given m.display_name)))))
    update_metadata r.path (given m.display_name) (given m.description) none
    pure (only_status 201)

  unfoldable pub handle_addressbook_delete : HttpRequest → Handler HttpResponse
  handle_addressbook_delete r = do
    or_backend_error env (backend (delete_address_book ctx r.path))
    pure (only_status 204)
