-- ===== src/Handler/Tenants/Methods.antt =====
-- Whatever its method, a request in internal/server/handler.go leaves the cards of other users' books
-- alone.
use go_contactd.Prelude.{Bytes, ℕ, Option, arith, ap}
use go_contactd.Sync.Service.{State}
use go_contactd.Handler.Http.{HttpRequest, HandlerOptions, Env}
use go_contactd.Handler.Reads.{handle_propfind-Idle}
use go_contactd.Handler.Reads.Reports.{handle_report-Idle, handle_card_get-Idle}
use go_contactd.Handler.Serve.{serve_card_path, serve_method}
use go_contactd.Handler.Tenants.{Foreign, seen}
use go_contactd.Handler.Tenants.Requests.{
  KeptAt, handle_proppatch-Kept, handle_mkcol-Kept, delete_book-KeptAt, handle_card_delete-KeptAt,
  handle_card_put-KeptAt,
}

module _ {VCard : Type 0} (env : Env VCard) (opts : HandlerOptions) (ctx : Option Bytes) (b' : ℕ)
    (h' : Bytes) (r : HttpRequest) (s : State) (foreign : Foreign ctx b' s.conn.db) where
  card_path-KeptAt : KeptAt env opts ctx b' h' s (serve_card_path env opts (λ d. d) ctx r)
  unfolding serve_card_path
  card_path-KeptAt = ground (
    arith,
    ap (seen b' h') (handle_card_get-Idle env opts ctx r s),
    handle_card_put-KeptAt env opts ctx b' h' s foreign r,
    handle_card_delete-KeptAt env opts ctx b' h' s foreign r,
  )

  pub serve_method-KeptAt : KeptAt env opts ctx b' h' s (serve_method env opts (λ d. d) ctx r)
  unfolding serve_method
  serve_method-KeptAt = ground (
    arith,
    ap (seen b' h') (handle_propfind-Idle env opts ctx r s),
    ap (seen b' h') (handle_report-Idle env opts ctx r s),
    handle_proppatch-Kept env opts ctx b' h' r s,
    handle_mkcol-Kept env opts ctx b' h' r s,
    delete_book-KeptAt env opts ctx b' h' s foreign r,
    card_path-KeptAt,
  )
