-- ===== src/Handler/Propfind.antt =====
-- PROPFIND of internal/server/handler.go: the properties of the root, a principal, an address book
-- and a card.
pub mod Answers
use go_contactd.Prelude.{
  ℕ, ◌==◌, ◌&&◌, ◌||◌, not, Bytes, Bool, true, false, List, [], ◌∷◌, ◌++◌, Option, none, some, lit,
  bytes_eq, if◌then◌else◌, map, length,
}
use go_contactd.Strings.{trim_space}
use go_contactd.Strings.Paths.{is_empty}
use go_contactd.Carddav.{
  AddressBook, http_error, current_user_principal, list_address_books, get_address_book,
  get_address_book_color,
}
use go_contactd.Carddav.Objects.{AddressObject, get_address_object_with_raw, list_address_objects}
use go_contactd.Sync.Service.{CollectionState, collection_state}
use go_contactd.Davxml.{
  Name, dav, carddav, cs, inf, match_xml_name, ResourceType, AddressDataType, Prop, no_prop,
  PropStat, Response, MultiStatus, multi_status, prop_stat_ok, prop_stat_status,
  addressbook_supported_report_set,
}
use go_contactd.Handler.{ResourceKind, classify_dav_path, parse_addressbook_path}
use go_contactd.Handler.Tokens.{ParseError, Parsed, parsed, failed}
use go_contactd.Handler.Requests.{PropfindRequest, read_body, parse_propfind_request}
use go_contactd.Handler.Http.{
  HttpRequest, HttpResponse, HandlerOptions, Env, Outcome, ok, stop, ◌>>=◌, pure, halt,
  backend_error, sync_unavailable, Fallible, Handler, backend, service, error_response,
  status_error, write_invalid_body_or_too_large, write_document, or_backend_error,
}

abbrev pub is_some {ℓ} : {A : Type ℓ} → Option A → Bool
is_some none = false
is_some (some _) = true

unfoldable pub has_any_prop : Prop → Bool
has_any_prop p =
    is_some p.current_user_principal
    || is_some p.principal_url
    || is_some p.addressbook_home_set
    || is_some p.resource_type
    || is_some p.supported_report_set
    || is_some p.supported_address_data
    || not (is_empty p.display_name)
    || not (is_empty p.addressbook_desc)
    || not (is_empty p.addressbook_color)
    || not (is_empty p.sync_token)
    || not (is_empty p.get_ctag)
    || not (is_empty p.get_etag)
    || not (is_empty p.get_content_type)
    || not (p.get_content_length == 0)
    || not (is_empty p.get_last_modified)
    || not (is_empty p.address_data)
    || not (length p.extra == 0)

unfoldable pub build_propstats : (ok_prop : Prop) → (unknown : List Name) → List PropStat
build_propstats ok_prop unknown =
    (if has_any_prop ok_prop then prop_stat_ok ok_prop ∷ [] else [])
    ++ (if length unknown == 0
        then []
        else prop_stat_status (record no_prop { extra = unknown }) 404 ∷ [])

unfoldable pub expand_propfind_requested_props : PropfindRequest → List Name → List Name
expand_propfind_requested_props req defaults =
    if req.all_prop || length req.props == 0 then defaults else req.props

unfoldable pub card_default_prop_names : List Name
card_default_prop_names =
    dav (lit "resourcetype")
    ∷ dav (lit "getetag")
    ∷ dav (lit "getcontenttype")
    ∷ dav (lit "getcontentlength")
    ∷ dav (lit "getlastmodified")
    ∷ []

unfoldable pub addressbook_default_prop_names :
    (include_extensions include_color : Bool) → List Name
addressbook_default_prop_names include_extensions include_color =
    dav (lit "resourcetype")
    ∷ dav (lit "supported-report-set")
    ∷ carddav (lit "supported-address-data")
    ∷ ((if include_extensions then dav (lit "sync-token") ∷ cs (lit "getctag") ∷ [] else [])
        ++ (if include_color then inf (lit "addressbook-color") ∷ [] else []))

unfoldable pub principal_default_prop_names : List Name
principal_default_prop_names =
    dav (lit "current-user-principal")
    ∷ dav (lit "principal-URL")
    ∷ carddav (lit "addressbook-home-set")
    ∷ dav (lit "resourcetype")
    ∷ []

unfoldable pub root_default_prop_names : List Name
root_default_prop_names =
    dav (lit "resourcetype")
    ∷ dav (lit "current-user-principal")
    ∷ carddav (lit "addressbook-home-set")
    ∷ []

-- The loops over the requested properties that ask nothing of the store: `known` sets a property, or
-- is `none` for one that is not there.
unfoldable pub answer_props :
    (known : Name → Option (Prop → Prop))
    → List Name
    → Prop
    → (unknown : List Name) → Prop × List Name
answer_props known [] p unknown = (p, unknown)
answer_props known (n ∷ ns) p unknown = elim (known n) [
  | none ↦ answer_props known ns p (unknown ++ n ∷ [])
  | some set ↦ answer_props known ns (set p) unknown
]

abbrev pub resource : (is_collection is_principal is_addressbook : Bool) → ResourceType
resource c p a = record { collection = c; principal = p; addressbook = a }

unfoldable pub principal_prop : (href : Bytes) → Name → Option (Prop → Prop)
principal_prop href n =
    if match_xml_name n (dav (lit "current-user-principal"))
    then some (λ p. record p { current_user_principal = some href })
    else if match_xml_name n (dav (lit "principal-URL"))
    then some (λ p. record p { principal_url = some href })
    else if match_xml_name n (carddav (lit "addressbook-home-set"))
    then some (λ p. record p { addressbook_home_set = some href })
    else if match_xml_name n (dav (lit "resourcetype"))
    then some (λ p. record p { resource_type = some (resource true true false) })
    else none

unfoldable pub root_prop : (who : Bytes) → Name → Option (Prop → Prop)
root_prop who n =
    if match_xml_name n (dav (lit "current-user-principal"))
    then some (λ p. record p { current_user_principal = some who })
    else if match_xml_name n (carddav (lit "addressbook-home-set"))
    then some (λ p. record p { addressbook_home_set = some who })
    else if match_xml_name n (dav (lit "resourcetype"))
    then some (λ p. record p { resource_type = some (resource true false false) })
    else none

abbrev pub response_with : (href : Bytes) → Prop × List Name → Response
response_with href (ok_prop, unknown) = record {
  href = href;
  status = [];
  prop_stats = build_propstats ok_prop unknown;
}

unfoldable pub principal_propfind_response : (href : Bytes) → PropfindRequest → Response
principal_propfind_response href req = response_with href (
    answer_props (principal_prop href)
      (expand_propfind_requested_props req principal_default_prop_names) no_prop [])

unfoldable pub root_propfind_response : (href who : Bytes) → PropfindRequest → Response
root_propfind_response href who req = response_with href (
    answer_props (root_prop who) (expand_propfind_requested_props req root_default_prop_names)
      no_prop [])

-- The variables of addressbookPropfindResponse's loop.
pub record BookAnswer : Type 0 where
  pub ok_prop : Prop
  pub unknown : List Name
  pub state : Option CollectionState
  pub color_value : Option Bytes

abbrev pub add_unknown : Name → BookAnswer → BookAnswer
add_unknown n a = record a { unknown = a.unknown ++ n ∷ [] }

abbrev pub set_ok : (Prop → Prop) → BookAnswer → BookAnswer
set_ok f a = record a { ok_prop = f a.ok_prop }

-- SupportedAddressData of every address book of the backend.
abbrev supported_address_data : List AddressDataType
supported_address_data = record { content_type = lit "text/vcard"; version = lit "3.0" } ∷ []

module _ {VCard : Type 0} (env : Env VCard) where
  -- A time since 1970 is never the zero time.
  unfoldable pub card_prop : AddressObject (env.codec) → Name → Option (Prop → Prop)
  card_prop ao n =
      if match_xml_name n (dav (lit "resourcetype"))
      then some (λ p. record p { resource_type = some (resource false false false) })
      else if match_xml_name n (dav (lit "getetag"))
      then some (λ p. record p { get_etag = ao.etag })
      else if match_xml_name n (dav (lit "getcontenttype"))
      then some (λ p. record p { get_content_type = lit "text/vcard" })
      else if match_xml_name n (dav (lit "getcontentlength"))
      then some (λ p. record p { get_content_length = ao.content_length })
      else if match_xml_name n (dav (lit "getlastmodified"))
      then some (λ p. record p { get_last_modified = env.http_time ao.mod_time })
      else none

  unfoldable pub card_propfind_response : AddressObject (env.codec) → PropfindRequest → Response
  card_propfind_response ao req = response_with ao.path (
      answer_props (card_prop ao) (expand_propfind_requested_props req card_default_prop_names)
        no_prop [])

  module _ (opts : HandlerOptions) (ctx : Option Bytes) where
    abbrev state_at : Option (Bytes × Bytes) → Fallible CollectionState
    state_at none = halt (backend_error (http_error 404))
    state_at (some (user, slug)) = service (collection_state user slug)

    unfoldable pub addressbook_collection_state : (ab_path : Bytes) → Fallible CollectionState
    addressbook_collection_state ab_path =
        if not opts.has_sync
        then halt sync_unavailable
        else state_at (parse_addressbook_path ab_path)

    abbrev color_of : AddressBook → Option Bytes → Fallible Bytes
    color_of ab (some v) = pure v
    color_of ab none = backend (get_address_book_color ctx ab.path)

    abbrev state_of : AddressBook → Option CollectionState → Fallible CollectionState
    state_of ab (some s) = pure s
    state_of ab none = addressbook_collection_state ab.path

    -- A text that is not there is not known.
    abbrev or_unknown : Name → Bytes → (Prop → Prop) → BookAnswer → BookAnswer
    or_unknown n v set a = if is_empty v then add_unknown n a else set_ok set a

    abbrev color_answer : Name → AddressBook → BookAnswer → Fallible BookAnswer
    color_answer n ab a = do
      v ← color_of ab a.color_value
      pure (
          or_unknown n v (λ p. record p { addressbook_color = v })
            (record a { color_value = some v }))

    abbrev token_answer : AddressBook → BookAnswer → Fallible BookAnswer
    token_answer ab a = do
      st ← addressbook_collection_state ab.path
      pure (set_ok (λ p. record p { sync_token = st.sync_token }) (record a { state = some st }))

    abbrev ctag_answer : AddressBook → BookAnswer → Fallible BookAnswer
    ctag_answer ab a = do
      st ← state_of ab a.state
      pure (set_ok (λ p. record p { get_ctag = st.ctag }) (record a { state = some st }))

    -- One round of the loop.
    unfoldable pub book_prop : AddressBook → Name → BookAnswer → Fallible BookAnswer
    book_prop ab n a =
        if match_xml_name n (dav (lit "resourcetype"))
        then pure (set_ok (λ p. record p { resource_type = some (resource true false true) }) a)
        else if match_xml_name n (dav (lit "supported-report-set"))
        then pure (
            set_ok
              (λ p. record p {
                supported_report_set = some (addressbook_supported_report_set opts.has_sync);
              })
              a)
        else if match_xml_name n (carddav (lit "supported-address-data"))
        then pure
            (set_ok (λ p. record p { supported_address_data = some supported_address_data }) a)
        else if match_xml_name n (dav (lit "displayname"))
        then pure (or_unknown n ab.name (λ p. record p { display_name = ab.name }) a)
        else if match_xml_name n (carddav (lit "addressbook-description"))
        then pure
            (or_unknown n ab.description (λ p. record p { addressbook_desc = ab.description }) a)
        else if match_xml_name n (inf (lit "addressbook-color"))
        then if not opts.enable_addressbook_color
          then pure (add_unknown n a)
          else color_answer n ab a
        else if match_xml_name n (dav (lit "sync-token"))
        then if not opts.has_sync then pure (add_unknown n a) else token_answer ab a
        else if match_xml_name n (cs (lit "getctag"))
        then if not opts.has_sync then pure (add_unknown n a) else ctag_answer ab a
        else pure (add_unknown n a)

    unfoldable pub book_props : AddressBook → List Name → BookAnswer → Fallible BookAnswer
    book_props ab [] a = pure a
    book_props ab (n ∷ ns) a = do a' ← book_prop ab n a; book_props ab ns a'

    unfoldable pub addressbook_propfind_response : AddressBook → PropfindRequest → Fallible Response
    addressbook_propfind_response ab req = do
      a ←
          book_props ab
            (expand_propfind_requested_props req
              (addressbook_default_prop_names opts.has_sync opts.enable_addressbook_color))
            (record { ok_prop = no_prop; unknown = []; state = none; color_value = none })
      pure (response_with ab.path (a.ok_prop, a.unknown))

    -- The loop over the address books of a principal.
    unfoldable pub book_responses : List AddressBook → PropfindRequest → Fallible (List Response)
    book_responses [] req = pure []
    book_responses (ab ∷ abs) req = do
      resp ← addressbook_propfind_response ab req
      rest ← book_responses abs req
      pure (resp ∷ rest)

    -- The functions of the resources answer with the responses of their multistatus.
    abbrev pub at_depth :
        (depth : ℕ) → Response → Fallible (List Response) → Fallible (List Response)
    at_depth depth first more =
        if depth == 1 then (more >>= λ rest. pure (first ∷ rest)) else pure (first ∷ [])

    abbrev books_of_principal : PropfindRequest → Fallible (List Response)
    books_of_principal req = do books ← backend (list_address_books ctx); book_responses books req

    unfoldable pub propfind_principal :
        (req_path : Bytes) (depth : ℕ) → PropfindRequest → Fallible (List Response)
    propfind_principal req_path depth req = do
      who ← backend (current_user_principal ctx)
      if not (bytes_eq who req_path)
          then halt (backend_error (http_error 404))
          else at_depth depth (principal_propfind_response who req) (books_of_principal req)

    unfoldable pub propfind_root : (depth : ℕ) → PropfindRequest → Fallible (List Response)
    propfind_root depth req = do
      who ← backend (current_user_principal ctx)
      at_depth depth (root_propfind_response (lit "/") who req) (propfind_principal who 0 req)

    unfoldable pub propfind_addressbook :
        (req_path : Bytes) (depth : ℕ) → PropfindRequest → Fallible (List Response)
    propfind_addressbook req_path depth req = do
      ab ← backend (get_address_book ctx req_path)
      resp ← addressbook_propfind_response ab req
      at_depth depth resp (
          backend (list_address_objects (env.codec) ctx req_path) >>= λ aos.
          pure (map (λ ao. card_propfind_response ao req) aos))

    -- GetAddressObject is GetAddressObjectWithRaw without the bytes.
    unfoldable pub propfind_card : (req_path : Bytes) → PropfindRequest → Fallible (List Response)
    propfind_card req_path req = do
      (ao, raw) ← backend (get_address_object_with_raw (env.codec) ctx req_path)
      pure (card_propfind_response ao req ∷ [])

    abbrev pub propfind_resource :
        ResourceKind → Bytes → (depth : ℕ) → PropfindRequest → Fallible (List Response)
    propfind_resource ResourceKind.principal p depth req = propfind_principal p depth req
    propfind_resource ResourceKind.addressbook p depth req = propfind_addressbook p depth req
    propfind_resource ResourceKind.card p depth req = propfind_card p req
    propfind_resource ResourceKind.unknown p depth req = halt (backend_error (http_error 404))

    unfoldable pub build_propfind_multi_status :
        Bytes → (depth : ℕ) → PropfindRequest → Fallible (List Response)
    build_propfind_multi_status p depth req =
        if bytes_eq (trim_space p) (lit "/")
        then propfind_root depth req
        else propfind_resource (classify_dav_path p) p depth req

unfoldable pub parse_propfind_depth : (depth : Bytes) → Outcome HttpResponse ℕ
parse_propfind_depth depth =
    let d = trim_space depth in
    if is_empty d || bytes_eq d (lit "0")
    then ok 0
    else if bytes_eq d (lit "1")
    then ok 1
    else if bytes_eq d (lit "infinity")
    then stop (status_error 403)
    else stop (error_response (lit "bad depth") 400)

-- A body that has been parsed, or the response to one that has not.
abbrev pub accept : {A : Type 0} → (ParseError → HttpResponse) → Parsed A → Handler A
accept refuse (parsed a) = pure a
accept refuse (failed e) = halt (refuse e)

abbrev pub invalid_xml : ParseError → HttpResponse
invalid_xml e = write_invalid_body_or_too_large e (lit "invalid xml")

module _ {VCard : Type 0} (env : Env VCard) (opts : HandlerOptions) (ctx : Option Bytes) where
  unfoldable pub handle_propfind : HttpRequest → Handler HttpResponse
  handle_propfind r = do
    depth ← λ s. (parse_propfind_depth r.depth, s)
    raw ← accept invalid_xml (read_body opts.request_max_bytes r.body)
    req ← accept invalid_xml (parse_propfind_request env.tokens raw)
    responses ← or_backend_error env (build_propfind_multi_status env opts ctx r.path depth req)
    pure (write_document env 207 (multi_status (record { responses = responses; sync_token = [] })))
