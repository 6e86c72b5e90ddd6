-- ===== src/Daemon/Server/Tenants.antt =====
-- Users of the server of internal/daemon/daemon.go do not write to each other's cards.
use go_contactd.Prelude.{
  ℕ, Bytes, false, Option, some, ◌≡◌, ◌∙◌, sym, ap, arith, Bool-cases, inl, inr, [], ◌∷◌, lit,
}
use mathlib.Core.Path.{subst}
use mathlib.Core.Bool.{Bool}
use go_contactd.Store.Tables.{Database}
use go_contactd.Store.Users.{Comparison}
use go_contactd.Store.Cards.Lookup.{content_at}
use go_contactd.Carddav.Objects.Tenants.{owns}
use go_contactd.Sync.Service.{State}
use go_contactd.Handler.Http.{
  HttpRequest, HttpResponse, response_of, continue, Env, Outcome, error_response,
}
use go_contactd.Handler.Http.Keeps.{response_of-Keeps}
use go_contactd.Handler.CardRequests.{require}
use go_contactd.Handler.Serve.{
  serve_http, serve_path, login, is_public_path, validate_request_path_payload,
}
use go_contactd.Handler.Serve.Safe.{require-Idle}
use go_contactd.Handler.Serve.Logins.{Login, refused, accepted, context_of}
use go_contactd.Handler.Tenants.{Foreign, seen}
use go_contactd.Handler.Tenants.Requests.{KeptAt, after-at}
use go_contactd.Handler.Tenants.Methods.{serve_method-KeptAt}
use go_contactd.Daemon.{ServeConfig}
use go_contactd.Daemon.Server.ReadOnly.{
  server_login, opts, login-Idle, serve_http-public, serve_http-private,
}
use go_contactd.Daemon.Server.Logins.{server_login-user, login-Login}

module _ (compare : Bytes → Bytes → Comparison) (cfg : ServeConfig) (cancelled : Bool)
    {VCard : Type 0} (env : Env VCard) (r : HttpRequest) (b' : ℕ) (h' : Bytes) where
  Foreign-context_of :
      (who : Bytes) (d : Database) → owns who b' d ≡ false → Foreign (context_of who) b' d
  Foreign-context_of [] d e = tt
  Foreign-context_of (c ∷ who) d e = e

  serve_path-KeptAt :
      (ctx : Option Bytes) (s : State)
      → Foreign ctx b' s.conn.db
      → KeptAt env
          (opts compare cfg cancelled)
          ctx
          b'
          h'
          s
          (serve_path env (opts compare cfg cancelled) (λ d. d) ctx r)
  serve_path-KeptAt ctx s foreign =
      let o = opts compare cfg cancelled in
      after-at env o ctx b' h'
        (require (validate_request_path_payload env r) (error_response (lit "invalid path") 400)) _
        s (require-Idle _ _)
        (λ passed s' same.
          serve_method-KeptAt env o ctx b' h' r s' (subst (Foreign ctx b') (sym same) foreign))

  module _ (s : State) (username password : Bytes)
      (given : r.basic_auth ≡ some (username, password))
      (foreign : owns username b' s.conn.db ≡ false) where
    same_user : (u p : Bytes) → r.basic_auth ≡ some (u, p) → u ≡ username
    same_user u p got = ground (arith, got, given)

    by_login :
        (x : Outcome HttpResponse (Option Bytes) × State)
        → x.1.conn.db ≡ s.conn.db
        → Login (server_login compare cfg cancelled) r s x
        → seen b' h'
            (response_of (
              continue x.0
                (λ ctx. serve_path env (opts compare cfg cancelled) (λ d. d) ctx r)
                x.1)).1.conn.db
          ≡ seen b' h' s.conn.db
    by_login _ idle (refused resp s' bad) = ap (seen b' h') idle
    by_login _ idle (accepted u p who s' got done) =
        let (same, row) = server_login-user compare cfg cancelled u p who s.conn done in
        let mine : owns who b' s'.conn.db ≡ false =
          ap (λ d. owns who b' d) idle
          ∙ ap (λ w. owns w b' s.conn.db) (same ∙ same_user u p got)
          ∙ foreign in
        response_of-Keeps (seen b' h')
          (serve_path env (opts compare cfg cancelled) (λ d. d) (context_of who) r s')
        ∙ serve_path-KeptAt (context_of who) s' (Foreign-context_of who s'.conn.db mine)
        ∙ ap (seen b' h') idle

    -- Whatever a request asks for, each card of a book that the user whose name it carries does not
    -- own stays as it is: under any path, method, header and body, whether or not its login is
    -- accepted, if no other request writes between the read and the write of its put.
    pub serve_http-tenant :
        content_at b' h' (serve_http env (opts compare cfg cancelled) (λ d. d) r s).1.conn.db
        ≡ content_at b' h' s.conn.db
    serve_http-tenant = elim (Bool-cases (is_public_path r.path)) [
      | inl public ↦
          ap (content_at b' h') (serve_http-public compare cfg cancelled env (λ d. d) r s public)
      | inr private ↦ rw (serve_http-private compare cfg cancelled env (λ d. d) r s private) (
          by_login (login env (opts compare cfg cancelled) (λ d. d) r s)
            (login-Idle compare cfg cancelled env (λ d. d) r s)
            (login-Login compare cfg cancelled env (λ d. d) r s private))
    ]
