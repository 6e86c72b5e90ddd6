-- ===== src/Daemon/Server/ReadOnly.antt =====
-- What the server of internal/daemon/daemon.go does without writing: logins and the requests that
-- only read.
use go_contactd.Prelude.{
  Bytes, Bool, true, false, Option, ◌≡◌, arith, Bool-cases, inl, inr, lit, bytes_eq,
}
use go_contactd.Store.Tables.{Database}
use go_contactd.Store.Exec.{exec, ready}
use go_contactd.Store.Users.{Comparison, authenticate_user}
use go_contactd.Sync.Service.{State}
use go_contactd.Carddav.Reads.{tables}
use go_contactd.Handler.Http.{
  HttpRequest, Env, HandlerOptions, respond, new_handler, error_response,
}
use go_contactd.Handler.Http.Keeps.{respond-Keeps}
use go_contactd.Handler.CardRequests.{require}
use go_contactd.Handler.Reads.{Idle, bind-Idle}
use go_contactd.Handler.Serve.{
  serve_http, serve_path, serve_private, serve_health, serve_method, login,
  validate_request_path_payload, is_public_path,
}
use go_contactd.Handler.Serve.Safe.{Quiet, require-Idle, require_basic_auth-Idle, serve_method-Idle}
use go_contactd.Daemon.{ServeConfig}
use go_contactd.Daemon.Server.{
  Login, wrap_authenticate_with_concurrency_cap, wrap_authenticate_with_failure_delay, authenticate,
  handler_options,
}

module _ (compare : Bytes → Bytes → Comparison) (cfg : ServeConfig) (cancelled : Bool) where
  -- The login that the handler calls.
  abbrev pub server_login : Login
  server_login = wrap_authenticate_with_failure_delay cfg.auth_fail_delay cancelled (
      wrap_authenticate_with_concurrency_cap cfg.auth_max_concurrency cancelled
        (authenticate compare))

  pub authenticate_user-Quiet :
      (username password : Bytes) → Quiet (authenticate_user compare username password)
  unfolding authenticate_user exec
  authenticate_user-Quiet username password c = ground arith

  pub server_login-Quiet : (username password : Bytes) → Quiet (server_login username password)
  unfolding wrap_authenticate_with_failure_delay wrap_authenticate_with_concurrency_cap authenticate
  server_login-Quiet username password c =
      ground (arith, authenticate_user-Quiet username password c)

  -- The handler's options.
  abbrev pub opts : HandlerOptions
  opts = handler_options compare cfg cancelled

  module _ {VCard : Type 0} (env : Env VCard) (meanwhile : Database → Database) where
    pub login-Idle : (r : HttpRequest) → Idle (login env opts meanwhile r)
    unfolding login handler_options new_handler
    login-Idle r s = ground (arith, require_basic_auth-Idle server_login r server_login-Quiet s)

    serve_path-Idle :
        (ctx : Option Bytes) (r : HttpRequest)
        → Idle (serve_method env opts meanwhile ctx r)
        → Idle (serve_path env opts meanwhile ctx r)
    serve_path-Idle ctx r idle =
        bind-Idle
          (require (validate_request_path_payload env r) (error_response (lit "invalid path") 400))
          (λ passed. serve_method env opts meanwhile ctx r) (require-Idle _ _) (λ passed. idle)

    pub serve_http-public :
        (r : HttpRequest) (s : State)
        → is_public_path r.path ≡ true
        → (serve_http env opts meanwhile r s).1.conn.db ≡ s.conn.db
    unfolding serve_http is_public_path serve_health handler_options new_handler ready exec
    serve_http-public r s public = ground arith

    pub serve_http-private :
        (r : HttpRequest) (s : State)
        → is_public_path r.path ≡ false
        → serve_http env opts meanwhile r s ≡ respond (serve_private env opts meanwhile r) s
    unfolding serve_http is_public_path
    serve_http-private r s private = ground arith

    served-Idle :
        (r : HttpRequest)
        → ((ctx : Option Bytes) → Idle (serve_method env opts meanwhile ctx r))
        → (s : State) → (serve_http env opts meanwhile r s).1.conn.db ≡ s.conn.db
    served-Idle r idle s = elim (Bool-cases (is_public_path r.path)) [
      | inl public ↦ serve_http-public r s public
      | inr private ↦ rw (serve_http-private r s private) (
          respond-Keeps tables (serve_private env opts meanwhile r)
            (bind-Idle (login env opts meanwhile r) (λ ctx. serve_path env opts meanwhile ctx r)
              (login-Idle r) (λ ctx. serve_path-Idle ctx r (idle ctx)))
            s)
    ]

    -- A request whose method is none of PUT, DELETE, MKCOL and PROPPATCH leaves the tables as they
    -- are, whatever its path, its login and its body.
    pub serve_http-reads :
        (r : HttpRequest) (s : State)
        → bytes_eq r.method (lit "PUT") ≡ false
        → bytes_eq r.method (lit "DELETE") ≡ false
        → bytes_eq r.method (lit "MKCOL") ≡ false
        → bytes_eq r.method (lit "PROPPATCH") ≡ false
        → (serve_http env opts meanwhile r s).1.conn.db ≡ s.conn.db
    serve_http-reads r s put delete mkcol proppatch =
        served-Idle r (λ ctx. serve_method-Idle env opts meanwhile ctx r put delete mkcol proppatch)
          s
