-- ===== src/Daemon/Server/Logins.antt =====
-- Who the server of internal/daemon/daemon.go serves.
use go_contactd.Prelude.{
  ℕ, Bytes, Bool, true, false, Option, some, ◌≡◌, ap, arith, inl, inr, ◌⊎◌, first_row,
}
use go_contactd.Store.Tables.{Database, UserRow}
use go_contactd.Store.Exec.{Conn, exec, Result}
use go_contactd.Store.Exec
use go_contactd.Store.Exec.Laws.{result-cases}
use go_contactd.Store.Users.{Comparison, matched, named, authenticate_user}
use go_contactd.Store.Access.{authenticate_user-accepted}
use go_contactd.Sync.Service.{State}
use go_contactd.Handler.Http.{
  HttpRequest, HttpResponse, response_of, continue, Env, Outcome, new_handler,
}
use go_contactd.Handler.Serve.{serve_http, login, is_public_path}
use go_contactd.Handler.Serve.Logins.{Refused, Login, refused, accepted, require_basic_auth-Login}
use go_contactd.Daemon.{ServeConfig}
use go_contactd.Daemon.Server.{
  wrap_authenticate_with_concurrency_cap, wrap_authenticate_with_failure_delay, authenticate,
  handler_options,
}
use go_contactd.Daemon.Server.ReadOnly.{server_login, login-Idle, opts, serve_http-private}

module _ (compare : Bytes → Bytes → Comparison) (cfg : ServeConfig) (cancelled : Bool) where
  -- The user's row, whose hash matches the password.
  abbrev pub Known : (username password : Bytes) → Database → Type 0
  Known username password d =
      (row : UserRow) × (first_row (named username) d.users ≡ some row)
      × (compare row.password_hash password ≡ matched)

  authenticate_user-Known :
      (username password : Bytes) (c : Conn) {id : ℕ}
      → (authenticate_user compare username password c).0 ≡ Exec.ok (true, id)
      → Known username password c.db
  authenticate_user-Known username password c e =
      let (row, found, name, match, id, kept) =
        authenticate_user-accepted compare username password c
          {c' = (authenticate_user compare username password c).1}
          (ap (λ x. (x, (authenticate_user compare username password c).1)) e) in
      (row, found, match)

  pub server_login-user :
      (username password who : Bytes) (c : Conn)
      → (server_login compare cfg cancelled username password c).0 ≡ Exec.ok (who, true)
      → (who ≡ username) × Known username password c.db
  unfolding wrap_authenticate_with_failure_delay wrap_authenticate_with_concurrency_cap authenticate
  server_login-user username password who c e =
      elim (result-cases (authenticate_user compare username password) c) [
        | inl ((authed, id), done) ↦
            (ground arith, authenticate_user-Known username password c {id = id} (ground arith))
        | inr (x, broken) ↦ absurd (ground arith)
      ]

  module _ {VCard : Type 0} (env : Env VCard) (meanwhile : Database → Database) (r : HttpRequest)
      (s : State) (private : is_public_path r.path ≡ false) where
    pub login-Login :
        Login
          (server_login compare cfg cancelled)
          r
          s
          (login env (opts compare cfg cancelled) meanwhile r s)
    unfolding login handler_options new_handler
    login-Login =
        rw (login, private) (require_basic_auth-Login (server_login compare cfg cancelled) r s)

    -- A refusal, of which the tables are as they were, or a user whose password matched.
    abbrev KnownOrRefused : HttpResponse → State → Type 0
    KnownOrRefused resp s' =
        (Refused resp.status × (s'.conn.db ≡ s.conn.db))
        ⊎ ((username password : Bytes) × (r.basic_auth ≡ some (username, password))
            × Known username password s.conn.db)

    by_login :
        (x : Outcome HttpResponse (Option Bytes) × State)
        (k : Option Bytes → State → Outcome HttpResponse HttpResponse × State)
        → x.1.conn.db ≡ s.conn.db
        → Login (server_login compare cfg cancelled) r s x
        → KnownOrRefused (response_of (continue x.0 k x.1)).0 (response_of (continue x.0 k x.1)).1
    by_login _ k idle (refused resp s' bad) = inl (bad, idle)
    by_login _ k idle (accepted username password who s' given done) =
        inr (username, password, given, (server_login-user username password who s.conn done).1)

    -- A request for a path other than the two public ones is refused with a status of 400, 401, 431
    -- or 500 and leaves the tables as they are, or it carries the name of a user whose stored hash
    -- matches the password that it carries.
    pub serve_http-Known :
        (Refused (serve_http env (opts compare cfg cancelled) meanwhile r s).0.status
          × ((serve_http env (opts compare cfg cancelled) meanwhile r s).1.conn.db ≡ s.conn.db))
        ⊎ ((username password : Bytes) × (r.basic_auth ≡ some (username, password))
            × Known username password s.conn.db)
    serve_http-Known = rw (serve_http-private compare cfg cancelled env meanwhile r s private) (
        by_login (login env (opts compare cfg cancelled) meanwhile r s) _
          (login-Idle compare cfg cancelled env meanwhile r s) login-Login)
