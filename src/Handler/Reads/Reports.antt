-- ===== src/Handler/Reads/Reports.antt =====
-- REPORT and GET in internal/server/handler.go leave the tables as they are.
use go_contactd.Prelude.{
  ℕ, not, Bytes, List, [], ◌∷◌, Option, none, some, refl, arith, Bool-cases, Option-cases, inl, inr,
  any_row, bytes_eq, ltb, length,
}
use go_contactd.Strings.{trim_space}
use go_contactd.Carddav.{get_address_book}
use go_contactd.Carddav.Objects.{AddressObject, get_address_object_with_raw, query_address_objects}
use go_contactd.Carddav.Reads.{
  tables, get_address_book-Reads, get_address_object_with_raw-Reads, query_address_objects-Reads,
}
use go_contactd.Sync.Service.{sync_collection}
use go_contactd.Sync.Service.Reads.{sync_collection-Reads}
use go_contactd.Handler.Requests.{read_body}
use go_contactd.Handler.Requests.Report.{ReportRequest, parse_report_request}
use go_contactd.Handler.Http.{
  HttpRequest, HttpResponse, HandlerOptions, Env, on_error, backend, service, or_backend_error,
}
use go_contactd.Handler.Http.Keeps.{if-Keeps}
use go_contactd.Handler.Propfind.{accept}
use go_contactd.Handler.Collections.{at_addressbook}
use go_contactd.Handler.Reports.{
  parse_card_path, report_card_response, or_invalid_vcard, card_response, in_collection,
  multi_get_responses, collection_at, handle_addressbook_multi_get, query_responses,
  handle_addressbook_query, is_other, sync_error_response, handle_sync_collection, report_error,
  dispatch_report, handle_report, sync_limit, raw_or_encoded,
}
use go_contactd.Handler.CardRequests.{or_response, handle_card_get}
use go_contactd.Handler.Reads.{Idle, bind-Idle, accept-Idle}

pub or_response-Idle : {A : Type 0} (r : HttpResponse) (o : Option A) → Idle (or_response r o)
or_response-Idle r none s = refl
or_response-Idle r (some a) s = refl

pub at_addressbook-Idle : (p : Bytes) → Idle (at_addressbook p)
at_addressbook-Idle p = if-Keeps tables _ _ _ (λ s. refl) (λ s. refl)

module _ {VCard : Type 0} (env : Env VCard) (opts : HandlerOptions) (ctx : Option Bytes) where
  card_response-Idle : (href : Bytes) → Idle (card_response env opts ctx href)
  card_response-Idle href s =
      ground (arith, get_address_object_with_raw-Reads ctx (env.codec) href s.conn)

  multi_get_responses-Idle :
      (user slug : Bytes) (seen hrefs : List Bytes)
      → Idle (multi_get_responses env opts ctx user slug seen hrefs)
  unfolding multi_get_responses
  multi_get_responses-Idle user slug seen [] = λ s. refl
  multi_get_responses-Idle user slug seen (href ∷ hrefs) =
      elim (Option-cases (in_collection env opts ctx user slug (parse_card_path env href))) [
        | inl foreign ↦
            rw (foreign, multi_get_responses)
              (bind-Idle (multi_get_responses env opts ctx user slug seen hrefs) _
                (multi_get_responses-Idle user slug seen hrefs) (λ rest s. refl))
        | inr (canonical, found) ↦ elim (Bool-cases (any_row (bytes_eq canonical) seen)) [
          | inl dup ↦
              rw (found, multi_get_responses, dup) (multi_get_responses-Idle user slug seen hrefs)
          | inr new ↦
              rw (found, multi_get_responses, new)
                (bind-Idle (card_response env opts ctx canonical) _ (card_response-Idle canonical)
                  (λ resp.
                    bind-Idle (multi_get_responses env opts ctx user slug (canonical ∷ seen) hrefs)
                      _ (multi_get_responses-Idle user slug (canonical ∷ seen) hrefs)
                      (λ rest s. refl)))
        ]
      ]

  collection_at-Idle : (p : Bytes) → Idle (collection_at env opts ctx p)
  collection_at-Idle p s = ground arith

  multi_get-Idle :
      (r : HttpRequest) (hrefs : List Bytes)
      → Idle (handle_addressbook_multi_get env opts ctx r hrefs)
  unfolding handle_addressbook_multi_get
  multi_get-Idle r hrefs =
      if-Keeps tables (ltb 1000 (length hrefs)) _ _ (λ s. refl)
        (bind-Idle (collection_at env opts ctx r.path) _ (collection_at-Idle r.path) (λ at.
          bind-Idle (or_backend_error env (backend (get_address_book ctx r.path))) _
            (λ s. get_address_book-Reads ctx r.path s.conn)
            (λ ab.
              bind-Idle (multi_get_responses env opts ctx at.0 at.1 [] hrefs) _
                (multi_get_responses-Idle at.0 at.1 [] hrefs) (λ responses s. refl))))

  query_responses-Idle :
      (aos : List (AddressObject (env.codec))) → Idle (query_responses env opts ctx aos)
  unfolding query_responses
  query_responses-Idle [] = λ s. refl
  query_responses-Idle (ao ∷ aos) =
      bind-Idle
        (or_backend_error env (backend (get_address_object_with_raw (env.codec) ctx ao.path))) _
        (λ s. get_address_object_with_raw-Reads ctx (env.codec) ao.path s.conn)
        (λ got.
          bind-Idle (or_invalid_vcard env (report_card_response env ao (some got.1))) _
            (λ s. ground arith)
            (λ resp.
              bind-Idle (query_responses env opts ctx aos) _ (query_responses-Idle aos)
                (λ rest s. refl)))

  query-Idle : (r : HttpRequest) → Idle (handle_addressbook_query env opts ctx r)
  unfolding handle_addressbook_query
  query-Idle r =
      bind-Idle (or_backend_error env (backend (query_address_objects (env.codec) ctx r.path none)))
        _ (λ s. query_address_objects-Reads ctx (env.codec) r.path s.conn)
        (λ aos.
          bind-Idle (query_responses env opts ctx aos) _ (query_responses-Idle aos)
            (λ responses s. refl))

  sync-Idle :
      (r : HttpRequest) (raw_token : Bytes) (limit : ℕ)
      → Idle (handle_sync_collection env opts ctx r raw_token limit)
  unfolding handle_sync_collection
  sync-Idle r raw_token limit =
      if-Keeps tables (not opts.has_sync) _ _ (λ s. refl)
        (bind-Idle (collection_at env opts ctx r.path) _ (collection_at-Idle r.path) (λ at.
          bind-Idle _ _ (if-Keeps tables (is_other env opts ctx at.0) _ _ (λ s. refl) (λ s. refl))
            (λ same.
              bind-Idle
                (on_error (sync_error_response env opts ctx) (
                  service (
                    sync_collection env.caps at.0 at.1 limit env.now env.later
                      (trim_space raw_token))))
                _
                (sync_collection-Reads env.caps at.0 at.1 limit env.now env.later
                  (trim_space raw_token))
                (λ res s. refl))))

  dispatch-Idle :
      (r : HttpRequest) (req : ReportRequest) → Idle (dispatch_report env opts ctx r req)
  dispatch-Idle r req s = ground (
    arith,
    multi_get-Idle r req.hrefs s,
    query-Idle r s,
    sync-Idle r req.sync_token (sync_limit req.limit_nresults) s,
  )

  pub handle_report-Idle : (r : HttpRequest) → Idle (handle_report env opts ctx r)
  unfolding handle_report
  handle_report-Idle r = bind-Idle (at_addressbook r.path) _ (at_addressbook-Idle r.path) (λ here.
      bind-Idle (accept (report_error env opts ctx) (read_body opts.request_max_bytes r.body)) _
        (accept-Idle (report_error env opts ctx) _)
        (λ raw.
          bind-Idle (accept (report_error env opts ctx) (parse_report_request env.tokens raw)) _
            (accept-Idle (report_error env opts ctx) _) (dispatch-Idle r)))

  pub handle_card_get-Idle : (r : HttpRequest) → Idle (handle_card_get env opts ctx r)
  unfolding handle_card_get
  handle_card_get-Idle r =
      bind-Idle
        (or_backend_error env (backend (get_address_object_with_raw (env.codec) ctx r.path))) _
        (λ s. get_address_object_with_raw-Reads ctx (env.codec) r.path s.conn)
        (λ got.
          bind-Idle (or_response _ (raw_or_encoded env got.0 (some got.1))) _ (or_response-Idle _ _)
            (λ raw s. refl))
