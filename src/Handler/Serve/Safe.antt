-- ===== src/Handler/Serve/Safe.antt =====
-- Requests that write nothing in internal/server/handler.go.
use go_contactd.Prelude.{
  Bytes, Bool, true, false, Option, none, some, ◌≡◌, refl, arith, List, [], ◌∷◌, lit, bytes_eq,
}
use go_contactd.Store.Tables.{Database}
use go_contactd.Store.Exec.{Exec}
use go_contactd.Store.Exec
use go_contactd.Handler.Http.{HttpRequest, HttpResponse, HandlerOptions, Env}
use go_contactd.Handler.CardRequests.{require}
use go_contactd.Handler.Reads.{Idle, bind-Idle, handle_propfind-Idle}
use go_contactd.Handler.Reads.Reports.{handle_report-Idle, handle_card_get-Idle}
use go_contactd.Handler.Serve.{
  require_basic_auth, check_headers, credentials, on_conn, principal_of, serve_card_path,
  serve_method,
}

abbrev pub Quiet : {A : Type 0} → Exec A → Type 0
Quiet m = (c : _) → (m c).1.db ≡ c.db

pub require-Idle : (b : Bool) (r : HttpResponse) → Idle (require b r)
require-Idle true r s = refl
require-Idle false r s = refl

check_headers-Idle : (values : List Bytes) → Idle (check_headers values)
check_headers-Idle [] = λ s. refl
check_headers-Idle (value ∷ []) = λ s. ground arith
check_headers-Idle (value ∷ other ∷ values) = λ s. refl

credentials-Idle : (c : Option (Bytes × Bytes)) → Idle (credentials c)
credentials-Idle none s = refl
credentials-Idle (some c) s = refl

principal_of-Idle : (answer : Exec.Result (Bytes × Bool)) → Idle (principal_of answer)
principal_of-Idle answer s = ground arith

pub require_basic_auth-Idle :
    (authenticate : Bytes → Bytes → Exec (Bytes × Bool)) (r : HttpRequest)
    → ((username password : Bytes) → Quiet (authenticate username password))
    → Idle (require_basic_auth authenticate r)
unfolding require_basic_auth
require_basic_auth-Idle authenticate r quiet =
    bind-Idle (check_headers r.authorization) _ (check_headers-Idle r.authorization) (λ checked.
      bind-Idle (credentials r.basic_auth) _ (credentials-Idle r.basic_auth) (λ who.
        bind-Idle (on_conn (authenticate who.0 who.1)) principal_of (λ s. quiet who.0 who.1 s.conn)
          principal_of-Idle))

module _ {VCard : Type 0} (env : Env VCard) (opts : HandlerOptions)
    (meanwhile : Database → Database) where
  card_path-Idle :
      (ctx : Option Bytes) (r : HttpRequest)
      → bytes_eq r.method (lit "PUT") ≡ false
      → bytes_eq r.method (lit "DELETE") ≡ false
      → Idle (serve_card_path env opts meanwhile ctx r)
  unfolding serve_card_path
  card_path-Idle ctx r put delete s = ground (arith, handle_card_get-Idle env opts ctx r s)

  pub serve_method-Idle :
      (ctx : Option Bytes) (r : HttpRequest)
      → bytes_eq r.method (lit "PUT") ≡ false
      → bytes_eq r.method (lit "DELETE") ≡ false
      → bytes_eq r.method (lit "MKCOL") ≡ false
      → bytes_eq r.method (lit "PROPPATCH") ≡ false
      → Idle (serve_method env opts meanwhile ctx r)
  unfolding serve_method
  serve_method-Idle ctx r put delete mkcol proppatch s = ground (
    arith,
    handle_propfind-Idle env opts ctx r s,
    handle_report-Idle env opts ctx r s,
    card_path-Idle ctx r put delete s,
  )
