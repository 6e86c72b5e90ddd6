-- ===== src/Handler/Reports.antt =====
-- REPORT in internal/server/handler.go: sync-collection, addressbook-multiget and addressbook-query.
use go_contactd.Prelude.{
  ℕ, ◌==◌, ◌+◌, ◌*◌, ◌&&◌, ◌||◌, not, ltb, Bytes, Bool, true, false, List, [], ◌∷◌, ◌++◌, Option,
  none, some, lit, bytes_eq, if◌then◌else◌, length, any_row, map,
}
use go_contactd.Strings.{trim_space, has_suffix, trim_prefix, ℤ, pos, negsuc}
use go_contactd.Strings.Paths.{is_empty, path_elements}
use go_contactd.Carddav.{get_address_book}
use go_contactd.Carddav.Objects.{AddressObject, get_address_object_with_raw, query_address_objects}
use go_contactd.Sync.Pages.{SyncRef, SyncResult, full_href}
use go_contactd.Sync.Service.{is_invalid_sync_token, sync_collection}
use go_contactd.Davxml.{
  Name, Prop, no_prop, PropStat, Response, multi_status, error_document, status_line, prop_stat_ok,
}
use go_contactd.Handler.{has_ascii_control, parse_addressbook_path}
use go_contactd.Handler.Tokens.{ParseError, unknown_report_type}
use go_contactd.Handler.Requests.{read_body}
use go_contactd.Handler.Requests.Report.{ReportRequest, parse_report_request}
use go_contactd.Handler.Requests.Report
use go_contactd.Handler.Propfind.{accept, invalid_xml}
use go_contactd.Handler.Collections.{at_addressbook}
use go_contactd.Handler.Http.{
  HttpRequest, HttpResponse, HandlerOptions, Env, Url, ok, stop, ◌>>=◌, ◌>>◌, pure, halt, on_error,
  HandlerError, sync_error, Handler, backend, service, error_response, not_found, status_error,
  http_status_from_error, write_document, write_dav_multi_status, write_backend_error,
  or_backend_error,
}

abbrev sum : List ℕ → ℕ
sum [] = 0
sum (n ∷ ns) = n + sum ns

unfoldable pub estimate_dav_prop_bytes : Prop → ℕ
estimate_dav_prop_bytes p =
    length p.get_etag
    + length p.address_data
    + length p.sync_token
    + length p.get_content_type
    + length p.get_last_modified
    + length p.display_name
    + length p.addressbook_desc
    + length p.addressbook_color
    + length p.extra * 64
    + sum (map (λ (n : Name). length n.space + length n.local) p.extra)

abbrev propstat_bytes : PropStat → ℕ
propstat_bytes ps = 256 + length ps.status + estimate_dav_prop_bytes ps.prop

abbrev response_bytes : Response → ℕ
response_bytes r = 256 + (length r.href + length r.status) + sum (map propstat_bytes r.prop_stats)

unfoldable pub estimate_dav_multi_status_bytes : List Response → ℕ
estimate_dav_multi_status_bytes responses = 256 + sum (map response_bytes responses)

-- A response without properties.
abbrev pub status_of : (href : Bytes) (code : ℕ) → Response
status_of href code = record { href = href; status = status_line code; prop_stats = [] }

abbrev pub updated_response : SyncRef → Response
updated_response u = record {
  href = u.href;
  status = [];
  prop_stats = prop_stat_ok (record no_prop { get_etag = u.etag }) ∷ [];
}

-- The responses of handleSyncCollection.
unfoldable pub sync_responses : (path : Bytes) → SyncResult → List Response
sync_responses path res =
    map updated_response res.updated
    ++ (map (λ d. status_of d 404) res.deleted
        ++ (if res.truncated then status_of path 507 ∷ [] else []))

abbrev is_invalid : HandlerError → Bool
is_invalid (sync_error e) = is_invalid_sync_token e
is_invalid _ = false

unfoldable pub sync_server_page_limit : ℕ
sync_server_page_limit = 500

-- The limit that handleReport passes on.
unfoldable pub sync_limit : ℤ → ℕ
sync_limit (negsuc n) = sync_server_page_limit
sync_limit (pos n) =
    if n == 0
    then sync_server_page_limit
    else if ltb sync_server_page_limit n
    then sync_server_page_limit
    else n

-- The parts of a card's path once url.Parse has read it.
abbrev card_parts : Bytes → List Bytes → Option (Bytes × Bytes × Bytes)
card_parts p (user ∷ slug ∷ name ∷ []) =
    if is_empty user || is_empty slug || is_empty name
    then none
    else if has_ascii_control user || has_ascii_control slug || has_ascii_control name
    then none
    else if has_suffix p (lit "/")
    then none
    else some (user, slug, name)
card_parts p _ = none

abbrev url_parts : (raw : Bytes) → Url → Option (Bytes × Bytes × Bytes)
url_parts raw u =
    if not (is_empty u.raw_query) || not (is_empty u.fragment)
    then none
    else let p = if is_empty u.path then raw else u.path in
      card_parts p (path_elements (trim_prefix p (lit "/")))

module _ {VCard : Type 0} (env : Env VCard) where
  -- `none` is `ok == false`.
  unfoldable pub parse_card_path : Bytes → Option (Bytes × Bytes × Bytes)
  parse_card_path p =
      let raw = trim_space p in
      if is_empty raw
      then none
      else elim (env.url_parse raw) [ none ↦ none | some u ↦ url_parts raw u ]

  -- The bytes to answer with: those that the backend has handed over, or the card encoded. `none` is
  -- nil, which this backend never hands over.
  unfoldable pub raw_or_encoded : AddressObject (env.codec) → Option Bytes → Option Bytes
  raw_or_encoded ao none = env.codec.encode ao.card
  raw_or_encoded ao (some raw) = some raw

  abbrev with_data : AddressObject (env.codec) → Option Bytes → Option Response
  with_data ao none = none
  with_data ao (some raw) = some (record {
    href = ao.path;
    status = [];
    prop_stats = prop_stat_ok (record no_prop { get_etag = ao.etag; address_data = raw }) ∷ [];
  })

  unfoldable pub report_card_response :
      AddressObject (env.codec) → (raw : Option Bytes) → Option Response
  report_card_response ao raw = with_data ao (raw_or_encoded ao raw)

  abbrev pub or_invalid_vcard : Option Response → Handler Response
  or_invalid_vcard none = halt (error_response (lit "invalid vcard") 500)
  or_invalid_vcard (some r) = pure r

  module _ (opts : HandlerOptions) (ctx : Option Bytes) where
    unfoldable pub write_report_multi_status : List Response → HttpResponse
    write_report_multi_status responses =
        if ltb 0 opts.report_max_response_bytes
          && ltb opts.report_max_response_bytes (estimate_dav_multi_status_bytes responses)
        then status_error 507
        else write_dav_multi_status env responses

    -- A card of the collection at a canonical href.
    abbrev pub card_response : (canonical_href : Bytes) → Handler Response
    card_response href s =
        let (r, s') = backend (get_address_object_with_raw (env.codec) ctx href) s in
        elim r [
          | ok (ao, raw) ↦
              (or_invalid_vcard (report_card_response ao (some raw)) >>= λ resp.
              pure (record resp { href = href }))
                s'
          | stop e ↦ elim (http_status_from_error e) [
            | none ↦ (stop (write_backend_error env e), s')
            | some code ↦
                if code == 404
                then (ok (status_of href 404), s')
                else (stop (write_backend_error env e), s')
          ]
        ]

    abbrev pub in_collection : (user slug : Bytes) → Option (Bytes × Bytes × Bytes) → Option Bytes
    in_collection target_user target_slug none = none
    in_collection target_user target_slug (some (user, slug, name)) =
        if bytes_eq user target_user && bytes_eq slug target_slug
        then some (full_href user slug name)
        else none

    -- The loop of handleAddressbookMultiGet; `seen` are the canonical hrefs so far.
    unfoldable pub multi_get_responses :
        (user slug : Bytes) (seen : List Bytes) → List Bytes → Handler (List Response)
    multi_get_responses user slug seen [] = pure []
    multi_get_responses user slug seen (href ∷ hrefs) =
        elim (in_collection user slug (parse_card_path href)) [
          | none ↦
              multi_get_responses user slug seen hrefs >>= λ rest. pure (status_of href 404 ∷ rest)
          | some canonical ↦ elim (any_row (bytes_eq canonical) seen) [
            | true ↦ multi_get_responses user slug seen hrefs
            | false ↦ card_response canonical >>= λ resp.
                multi_get_responses user slug (canonical ∷ seen) hrefs >>= λ rest.
                pure (resp ∷ rest)
          ]
        ]

    abbrev pub collection_at : Bytes → Handler (Bytes × Bytes)
    collection_at p = elim (parse_addressbook_path p) [ none ↦ halt not_found | some at ↦ pure at ]

    unfoldable pub handle_addressbook_multi_get : HttpRequest → List Bytes → Handler HttpResponse
    handle_addressbook_multi_get r hrefs =
        if ltb 1000 (length hrefs) then halt (error_response (lit "too many hrefs") 400) else do
          (user, slug) ← collection_at r.path
          ab ← or_backend_error env (backend (get_address_book ctx r.path))
          responses ← multi_get_responses user slug [] hrefs
          pure (write_report_multi_status responses)

    -- The loop of handleAddressbookQuery.
    unfoldable pub query_responses : List (AddressObject (env.codec)) → Handler (List Response)
    query_responses [] = pure []
    query_responses (ao ∷ aos) = do
      (got, raw) ←
          or_backend_error env (backend (get_address_object_with_raw (env.codec) ctx ao.path))
      resp ← or_invalid_vcard (report_card_response ao (some raw))
      rest ← query_responses aos
      pure (resp ∷ rest)

    unfoldable pub handle_addressbook_query : HttpRequest → Handler HttpResponse
    handle_addressbook_query r = do
      aos ← or_backend_error env (backend (query_address_objects (env.codec) ctx r.path none))
      responses ← query_responses aos
      pure (write_report_multi_status responses)

    -- A principal in the context that is not the path's user.
    abbrev pub is_other : (user : Bytes) → Bool
    is_other user = elim ctx [ none ↦ false | some v ↦ not (is_empty v) && not (bytes_eq v user) ]

    unfoldable pub sync_error_response : HandlerError → HttpResponse
    sync_error_response e =
        if is_invalid e
        then write_document env 403
            (error_document (record { valid_sync_token = true; extra = [] }))
        else write_backend_error env e

    unfoldable pub handle_sync_collection :
        HttpRequest → (raw_token : Bytes) (limit : ℕ) → Handler HttpResponse
    handle_sync_collection r raw_token limit =
        if not opts.has_sync then halt (status_error 501) else do
          (user, slug) ← collection_at r.path
          if is_other user then halt not_found else pure tt
          res ← on_error sync_error_response (
              service
                (sync_collection env.caps user slug limit env.now env.later (trim_space raw_token)))
          pure (
              write_document env 207 (
                multi_status
                  (record { responses = sync_responses r.path res; sync_token = res.sync_token })))

    unfoldable pub report_error : ParseError → HttpResponse
    report_error unknown_report_type = status_error 501
    report_error e = invalid_xml e

    abbrev pub dispatch_report : HttpRequest → ReportRequest → Handler HttpResponse
    dispatch_report r req = elim req.kind [
      | none ↦ halt (status_error 501)
      | some Report.multi_get ↦ handle_addressbook_multi_get r req.hrefs
      | some Report.query ↦ handle_addressbook_query r
      | some Report.sync_collection ↦
          handle_sync_collection r req.sync_token (sync_limit req.limit_nresults)
    ]

    unfoldable pub handle_report : HttpRequest → Handler HttpResponse
    handle_report r = do
      at_addressbook r.path
      raw ← accept report_error (read_body opts.request_max_bytes r.body)
      req ← accept report_error (parse_report_request env.tokens raw)
      dispatch_report r req
