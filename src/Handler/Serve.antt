-- ===== src/Handler/Serve.antt =====
-- ServeHTTP of internal/server/handler.go: the public paths, the login, the check of the path and the
-- choice of the handler. The access log is not modelled.
pub mod Safe
pub mod Logins
use go_contactd.Prelude.{
  ◌&&◌, ◌||◌, not, ltb, Bytes, Bool, true, false, List, [], ◌∷◌, ◌++◌, Option, none, some, lit,
  bytes_eq, if◌then◌else◌, length, any_row,
}
use go_contactd.Strings.{trim_space, is_blank, split, trim_back}
use go_contactd.Strings.Paths.{slash, is_empty, is_dot, is_dot_dot, contains_byte}
use go_contactd.Store.Tables.{Database}
use go_contactd.Store.Exec.{Exec}
use go_contactd.Store.Exec
use go_contactd.Sync.Service.{State}
use go_contactd.Handler.{ResourceKind, classify_dav_path, has_ascii_control}
use go_contactd.Handler.Propfind.{handle_propfind, is_some}
use go_contactd.Handler.Collections.{handle_proppatch, handle_mkcol, handle_addressbook_delete}
use go_contactd.Handler.Reports.{parse_card_path, handle_report}
use go_contactd.Handler.CardRequests.{handle_card_get, handle_card_put, handle_card_delete, require}
use go_contactd.Handler.Http.{
  HttpRequest, HttpResponse, HandlerOptions, Env, ok, ◌>>=◌, ◌>>◌, pure, halt, Handler, respond,
  error_response, not_found, internal_error,
}

unfoldable pub well_known_redirect_target : HandlerOptions → Bytes
well_known_redirect_target opts =
    if is_blank opts.base_url
    then lit "/"
    else trim_back ((slash ∷ []) ∷ []) (trim_space opts.base_url) ++ lit "/"

unfoldable pub is_public_path : Bytes → Bool
is_public_path p = bytes_eq p (lit "/health") || bytes_eq p (lit "/.well-known/carddav")

-- writeBasicChallenge
unfoldable pub basic_challenge : HttpResponse
basic_challenge =
    let r = error_response (lit "unauthorized") 401 in
    record r { headers = (lit "WWW-Authenticate", lit "Basic realm=\"contactd\"") ∷ r.headers }

abbrev healthy : HttpResponse
healthy = record {
  status = 200;
  headers = (lit "Content-Type", lit "text/plain; charset=utf-8") ∷ [];
  body = lit "ok" ++ 10 ∷ [];
}

abbrev readiness : Exec.Result (Unit {0}) → HttpResponse
readiness (Exec.ok _) = healthy
readiness (Exec.err e) = error_response (lit "unhealthy") 503

-- A call of the store, with its result.
abbrev pub on_conn : {A : Type 0} → Exec A → Handler (Exec.Result A)
on_conn m s = let (r, c) = m s.conn in (ok r, record s { conn = c })

unfoldable pub serve_health : HandlerOptions → Handler HttpResponse
serve_health opts = elim opts.ready_check [
  | none ↦ pure healthy
  | some check ↦ on_conn check >>= λ r. pure (readiness r)
]

abbrev pub check_headers : List Bytes → Handler (Unit {0})
check_headers [] = pure tt
check_headers (value ∷ []) =
    if contains_byte 44 value
    then halt (error_response (lit "invalid authorization header") 400)
    else if ltb 8192 (length value)
    then halt (error_response (lit "authorization header too large") 431)
    else pure tt
check_headers _ = halt (error_response (lit "invalid authorization header") 400)

abbrev pub credentials : Option (Bytes × Bytes) → Handler (Bytes × Bytes)
credentials none = halt basic_challenge
credentials (some c) = pure c

-- The context of a request whose login has been answered: AttachPrincipal unless the principal is "".
abbrev pub principal_of : Exec.Result (Bytes × Bool) → Handler (Option Bytes)
principal_of (Exec.err e) = halt internal_error
principal_of (Exec.ok (who, authed)) =
    if not authed then halt basic_challenge else if is_empty who then pure none else pure (some who)

unfoldable pub require_basic_auth :
    (authenticate : Bytes → Bytes → Exec (Bytes × Bool)) → HttpRequest → Handler (Option Bytes)
require_basic_auth authenticate r = do
  check_headers r.authorization
  (username, password) ← credentials r.basic_auth
  answer ← on_conn (authenticate username password)
  principal_of answer

module _ {VCard : Type 0} (env : Env VCard) where
  abbrev is_segment : Bytes → Bool
  is_segment decoded = not (
      is_dot decoded
      || is_dot_dot decoded
      || (contains_byte 47 decoded || contains_byte 92 decoded)
      || has_ascii_control decoded)

  abbrev is_decoded : Option Bytes → Bool
  is_decoded none = false
  is_decoded (some decoded) = is_segment decoded

  abbrev is_good : Bytes → Bool
  is_good seg = is_empty seg || is_decoded (env.path_unescape seg)

  -- Whether validateRequestPathPayload returns no error.
  unfoldable pub validate_request_path_payload : HttpRequest → Bool
  validate_request_path_payload r =
      let escaped = if is_empty r.escaped_path then r.path else r.escaped_path in
      not (any_row (λ seg. not (is_good seg)) (split escaped slash))

  module _ (opts : HandlerOptions) (meanwhile : Database → Database) where
    abbrev method_is : HttpRequest → Bytes → Bool
    method_is r m = bytes_eq r.method m

    unfoldable pub serve_card_path : (ctx : Option Bytes) → HttpRequest → Handler HttpResponse
    serve_card_path ctx r =
        if method_is r (lit "GET")
        then handle_card_get env opts ctx r
        else if method_is r (lit "PUT")
        then handle_card_put env opts ctx meanwhile r
        else if method_is r (lit "DELETE")
        then handle_card_delete env opts ctx r
        else halt not_found

    abbrev options_response : HttpResponse
    options_response = record {
      status = 204;
      headers =
          (lit "DAV", lit "1, 3, addressbook")
          ∷ (lit "Allow", lit "OPTIONS, GET, PUT, DELETE, PROPFIND, REPORT, MKCOL, PROPPATCH")
          ∷ [];
      body = [];
    }

    abbrev is_book_path : ResourceKind → Bool
    is_book_path ResourceKind.addressbook = true
    is_book_path _ = false

    -- The choice of the handler.
    unfoldable pub serve_method : (ctx : Option Bytes) → HttpRequest → Handler HttpResponse
    serve_method ctx r =
        if method_is r (lit "PROPFIND")
        then handle_propfind env opts ctx r
        else if method_is r (lit "PROPPATCH")
        then handle_proppatch env opts ctx r
        else if method_is r (lit "REPORT")
        then handle_report env opts ctx r
        else if method_is r (lit "MKCOL")
        then handle_mkcol env opts ctx r
        else if method_is r (lit "DELETE") && is_book_path (classify_dav_path r.path)
        then handle_addressbook_delete env opts ctx r
        else if is_some (parse_card_path env r.path)
        then serve_card_path ctx r
        else if method_is r (lit "OPTIONS")
        then pure options_response
        else halt not_found

    -- The context of the request: that of a login, where one is asked for.
    unfoldable pub login : HttpRequest → Handler (Option Bytes)
    login r = elim opts.authenticate [
      | none ↦ pure none
      | some authenticate ↦
          if not (is_public_path r.path) then require_basic_auth authenticate r else pure none
    ]

    abbrev pub serve_path : (ctx : Option Bytes) → HttpRequest → Handler HttpResponse
    serve_path ctx r = do
      require (validate_request_path_payload r) (error_response (lit "invalid path") 400)
      serve_method ctx r

    -- A request past the two public paths.
    abbrev pub serve_private : HttpRequest → Handler HttpResponse
    serve_private r = login r >>= λ ctx. serve_path ctx r

    unfoldable pub serve_http : HttpRequest → State → HttpResponse × State
    serve_http r =
        if bytes_eq r.path (lit "/.well-known/carddav")
        then respond (pure (env.redirect (well_known_redirect_target opts) 308))
        else if bytes_eq r.path (lit "/health")
        then respond (serve_health opts)
        else respond (serve_private r)
