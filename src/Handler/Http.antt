-- ===== src/Handler/Http.antt =====
-- Requests and responses of internal/server/handler.go, with HandlerOptions, the defaults of
-- NewHandler and the functions that write an error. A handler is as internal/daemon makes it: its
-- backend is that of internal/carddav, with all the methods that the handler looks for.
pub mod Keeps
use go_contactd.Prelude.{
  ℕ, ◌==◌, ◌||◌, ◌*◌, ◌&&◌, ◌^◌, ltb, leb, Bytes, Bool, true, false, List, [], ◌∷◌, ◌++◌, Option,
  none, some, lit, if◌then◌else◌,
}
use go_contactd.Store.Exec.{StoreError, Exec}
use go_contactd.Carddav.{BackendError, http_error, no_uid_conflict, store_error, Reply, Request}
use go_contactd.Carddav
use go_contactd.Carddav.Objects.{Codec, ConditionalMatch}
use go_contactd.Sync.Cursors.{Caps}
use go_contactd.Sync.Service.{SyncError, SyncReply, State, Service}
use go_contactd.Sync.Service
use go_contactd.Davxml.{
  Document, multi_status, error_document, MultiStatus, Response, http_status_text,
  carddav_precondition,
}
use go_contactd.Handler.Tokens.{Token, ParseError, too_large}

-- What the handlers read of an http.Request: `path` is URL.Path and `escaped_path`
-- URL.EscapedPath(), `authorization` the header's values, and `basic_auth` what BasicAuth reads of
-- them. `body` is `none` if it cannot be read.
pub record HttpRequest : Type 0 where
  pub method : Bytes
  pub path : Bytes
  pub escaped_path : Bytes
  pub authorization : List Bytes
  pub basic_auth : Option (Bytes × Bytes)
  pub depth : Bytes
  pub content_type : Bytes
  pub if_match : Bytes
  pub if_none_match : Bytes
  pub body : Option Bytes

pub record HttpResponse : Type 0 where
  pub status : ℕ
  pub headers : List (Bytes × Bytes)
  pub body : Bytes

-- A limit that is not positive is 0. `authenticate` answers with the principal and whether it is one.
-- The logger and TrustProxyHeaders only serve the log.
pub record HandlerOptions : Type 0 where
  pub ready_check : Option (Exec (Unit {0}))
  pub authenticate : Option (Bytes → Bytes → Exec (Bytes × Bool))
  pub has_sync : Bool
  pub enable_addressbook_color : Bool
  pub base_url : Bytes
  pub request_max_bytes : ℕ
  pub vcard_max_bytes : ℕ
  pub report_max_response_bytes : ℕ

abbrev or_default : ℕ → ℕ → ℕ
or_default n default = if n == 0 then default else n

abbrev default_report_max_response_bytes : ℕ
default_report_max_response_bytes = 16 * 2 ^ 20

unfoldable pub new_handler : HandlerOptions → HandlerOptions
new_handler opts =
    let request_max = or_default opts.request_max_bytes (2 ^ 20) in
    record opts {
      request_max_bytes = request_max;
      vcard_max_bytes =
          if opts.vcard_max_bytes == 0 || ltb request_max opts.vcard_max_bytes
          then request_max
          else opts.vcard_max_bytes;
      report_max_response_bytes =
          or_default opts.report_max_response_bytes default_report_max_response_bytes;
    }

-- What the handlers use of a url.URL.
pub record Url : Type 0 where
  pub path : Bytes
  pub raw_query : Bytes
  pub fragment : Bytes

-- The packages that the handlers call, the clocks and the test hook. `none` is an error of the
-- function. `etag_of` is ConditionalMatch.ETag. `decodes` holds what Decode of package vcard returns
-- call by call: a card or an error, and past the end of the list io.EOF.
pub record Env (VCard : Type 0) : Type 0 where
  pub codec : Codec VCard
  pub decodes : Bytes → List (Option VCard)
  pub sha256 : Bytes → Bytes
  pub now : ℕ
  pub later : ℕ
  pub hook : Option StoreError
  pub caps : Caps
  pub marshal : Document → Option Bytes
  pub tokens : Bytes → List Token
  pub url_parse : Bytes → Option Url
  pub path_unescape : Bytes → Option Bytes
  pub parse_media_type : Bytes → Option Bytes
  pub conditional_match : Bytes → ConditionalMatch
  pub etag_of : Bytes → Option Bytes
  pub http_time : ℕ → Bytes
  pub redirect : (target : Bytes) (code : ℕ) → HttpResponse

-- What a function returns: a value, or that with which it stops.
pub data Outcome (E A : Type 0) : Type 0 where
  ok : A → Outcome E A
  stop : E → Outcome E A

abbrev pub Action : Type 0 → Type 0 → Type 0
Action E A = State → Outcome E A × State

module _ {E : Type 0} where
  module _ {A B : Type 0} where
    abbrev pub continue : Outcome E A → (A → Action E B) → Action E B
    continue (ok a) f s = f a s
    continue (stop e) f s = (stop e, s)

    infixl 5 ◌>>=◌ ◌>>◌
    abbrev pub ◌>>=◌ : Action E A → (A → Action E B) → Action E B
    ◌>>=◌ m f s = let (r, s') = m s in continue r f s'

    abbrev pub ◌>>◌ : Action E A → Action E B → Action E B
    m >> n = m >>= λ _. n

  module _ {A : Type 0} where
    abbrev pub pure : A → Action E A
    pure a s = (ok a, s)

    abbrev pub halt : E → Action E A
    halt e s = (stop e, s)

module _ {E F A : Type 0} where
  abbrev stop_as : (E → F) → Outcome E A → Outcome F A
  stop_as f (ok a) = ok a
  stop_as f (stop e) = stop (f e)

  -- The error of a call, as the caller answers it.
  abbrev pub on_error : (E → F) → Action E A → Action F A
  on_error f m s = let (r, s') = m s in (stop_as f r, s')

-- An error of the backend or of the sync service, or that there is no sync service.
pub data HandlerError : Type 0 where
  sync_unavailable : HandlerError
  backend_error : BackendError → HandlerError
  sync_error : SyncError → HandlerError

abbrev pub Fallible : Type 0 → Type 0
Fallible A = Action HandlerError A

-- A handler returns at the response that it writes.
abbrev pub Handler : Type 0 → Type 0
Handler A = Action HttpResponse A

module _ {A : Type 0} where
  abbrev of_reply : Reply A → Outcome HandlerError A
  of_reply (Carddav.ok a) = ok a
  of_reply (Carddav.err e) = stop (backend_error e)

  -- A call of the backend.
  abbrev pub backend : Request A → Fallible A
  backend m s = let (r, c) = m s.conn in (of_reply r, record s { conn = c })

  abbrev of_sync_reply : SyncReply A → Outcome HandlerError A
  of_sync_reply (Service.ok a) = ok a
  of_sync_reply (Service.err e) = stop (sync_error e)

  -- A call of the sync service.
  abbrev pub service : Service A → Fallible A
  service m s = let (r, s') = m s in (of_sync_reply r, s')

-- The response that a handler has ended with.
abbrev pub response_of : Outcome HttpResponse HttpResponse × State → HttpResponse × State
response_of (ok r, s) = (r, s)
response_of (stop r, s) = (r, s)

abbrev pub respond : Handler HttpResponse → State → HttpResponse × State
respond m s = response_of (m s)

abbrev pub only_status : ℕ → HttpResponse
only_status code = record { status = code; headers = []; body = [] }

-- http.Error
unfoldable pub error_response : Bytes → ℕ → HttpResponse
error_response message code = record {
  status = code;
  headers =
      (lit "Content-Type", lit "text/plain; charset=utf-8")
      ∷ (lit "X-Content-Type-Options", lit "nosniff")
      ∷ [];
  body = message ++ 10 ∷ [];
}

-- http.NotFound
unfoldable pub not_found : HttpResponse
not_found = error_response (lit "404 page not found") 404

-- http.Error with the text of the status
unfoldable pub status_error : ℕ → HttpResponse
status_error code = error_response (http_status_text code) code

abbrev pub internal_error : HttpResponse
internal_error = error_response (lit "internal error") 500

abbrev pub xml_response : (code : ℕ) → Bytes → HttpResponse
xml_response code body = record {
  status = code;
  headers = (lit "Content-Type", lit "application/xml; charset=utf-8") ∷ [];
  body = body;
}

abbrev in_range : ℕ → Option ℕ
in_range code = if leb 100 code && leb code 599 then some code else none

-- httpStatusFromError: the field Code of an error, which webdav.HTTPError has and the store's and the
-- sync service's have not. That of PreconditionNoUIDConflict is 409.
unfoldable pub http_status_from_error : HandlerError → Option ℕ
http_status_from_error (backend_error (http_error code)) = in_range code
http_status_from_error (backend_error no_uid_conflict) = some 409
http_status_from_error (backend_error (store_error e)) = none
http_status_from_error (sync_error e) = none
http_status_from_error sync_unavailable = none

-- Whether the error's text names no-uid-conflict.
abbrev is_no_uid_conflict : HandlerError → Bool
is_no_uid_conflict (backend_error no_uid_conflict) = true
is_no_uid_conflict _ = false

unfoldable pub write_invalid_body_or_too_large : ParseError → (message : Bytes) → HttpResponse
write_invalid_body_or_too_large too_large message = status_error 413
write_invalid_body_or_too_large _ message = error_response message 400

module _ {VCard : Type 0} (env : Env VCard) where
  abbrev marshalled_or : HttpResponse → (code : ℕ) → Option Bytes → HttpResponse
  marshalled_or failed code none = failed
  marshalled_or failed code (some body) = xml_response code body

  -- Marshal of a document, and the response with it.
  unfoldable pub write_document : (code : ℕ) → Document → HttpResponse
  write_document code doc = marshalled_or internal_error code (env.marshal doc)

  unfoldable pub write_dav_multi_status : List Response → HttpResponse
  write_dav_multi_status responses =
      write_document 207 (multi_status (record { responses = responses; sync_token = [] }))

  abbrev status_response : Option ℕ → HttpResponse
  status_response none = internal_error
  status_response (some code) = status_error code

  unfoldable pub write_backend_error : HandlerError → HttpResponse
  write_backend_error e =
      if is_no_uid_conflict e
      then marshalled_or (status_response (http_status_from_error e)) 409
          (env.marshal (error_document (carddav_precondition (lit "no-uid-conflict"))))
      else status_response (http_status_from_error e)

  -- A call whose error writeBackendError answers.
  abbrev pub or_backend_error : {A : Type 0} → Fallible A → Handler A
  or_backend_error m = on_error write_backend_error m
