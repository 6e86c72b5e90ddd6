-- ===== src/Handler/Tenants/Requests.antt =====
-- A request in internal/server/handler.go leaves the cards of other users' books alone.
use go_contactd.Prelude.{
  ℕ, leb, length, not, Bytes, List, Option, none, some, ◌≡◌, refl, sym, ap, ◌∙◌, arith, ◌||◌,
}
use mathlib.Core.Path.{subst}
use go_contactd.Sync.Service.{State}
use go_contactd.Carddav.{create_address_book, delete_address_book}
use go_contactd.Carddav.Objects.{
  put_address_object, delete_address_object, get_address_object_with_raw,
}
use go_contactd.Carddav.Reads.{tables, get_address_object_with_raw-Reads}
use go_contactd.Handler.Requests.{
  read_body, parse_proppatch_request, parse_mkcol_request, ProppatchOp,
}
use go_contactd.Handler.Http.{
  HttpRequest, HttpResponse, HandlerOptions, Env, Handler, ◌>>=◌, continue, Outcome, ok, stop, pure,
  only_status, backend, or_backend_error, status_error,
}
use go_contactd.Handler.Http.Keeps.{ActionKeeps, bind-Keeps, bind-after, if-Keeps}
use go_contactd.Handler.Propfind.{accept, invalid_xml, is_some}
use go_contactd.Handler.Collections.{
  at_addressbook, check_patch, patch_ops, no_patch, update_metadata, handle_proppatch, slug_at,
  given, or_else, wrong_resource_type, handle_mkcol, handle_addressbook_delete,
}
use go_contactd.Handler.CardRequests.{
  require, or_response, is_vcard_content_type, decode_single_card_for_put, handle_card_put,
  matched_current_etag, handle_card_delete,
}
use go_contactd.Handler.Reads.{Idle, bind-Idle, accept-Idle}
use go_contactd.Handler.Reads.Reports.{or_response-Idle, at_addressbook-Idle}
use go_contactd.Handler.Serve.Safe.{require-Idle}
use go_contactd.Handler.Tenants.{
  Foreign, seen, update_address_book_metadata-seen, create_address_book-seen,
  delete_address_book-seen, put-seen, delete-seen,
}

module _ {VCard : Type 0} (env : Env VCard) (opts : HandlerOptions) (ctx : Option Bytes) (b' : ℕ)
    (h' : Bytes) where
  abbrev Kept : {A : Type 0} → Handler A → Type 0
  Kept m = ActionKeeps (seen b' h') m

  -- The same for a state in which the book is another user's.
  abbrev pub KeptAt : {A : Type 0} → State → Handler A → Type 0
  KeptAt s m = seen b' h' (m s).1.conn.db ≡ seen b' h' s.conn.db

  -- What runs after a call that leaves the tables as they are.
  after :
      {A B : Type 0} (m : Handler A) (g : A → Handler B)
      → Idle m
      → ((a : A) → Kept (g a))
      → Kept (m >>= g)
  after m g quiet k = bind-Keeps (seen b' h') m g (λ s. ap (seen b' h') (quiet s)) k

  pub after-at :
      {A B : Type 0} (m : Handler A) (g : A → Handler B) (s : State)
      → Idle m
      → ((a : A) (s' : State) → s'.conn.db ≡ s.conn.db → KeptAt s' (g a))
      → KeptAt s (m >>= g)
  after-at m g s quiet k = bind-after (seen b' h') m g s (quiet s) k

  then-pure :
      {A : Type 0} (m : Handler A) (g : A → HttpResponse) (s : State)
      → KeptAt s m
      → KeptAt s (m >>= λ a. pure (g a))
  then-pure {A} m g s k = by_outcome (m s) ∙ k
    where
      by_outcome :
          (x : Outcome HttpResponse A × State)
          → seen b' h' (continue x.0 (λ a. pure (g a)) x.1).1.conn.db ≡ seen b' h' x.1.conn.db
      by_outcome (ok a, s') = refl
      by_outcome (stop e, s') = refl

  update_metadata-Kept :
      (p : Bytes) (displayname description color : Option Bytes)
      → Kept (update_metadata env opts ctx p displayname description color)
  update_metadata-Kept p displayname description color =
      if-Keeps (seen b' h') (is_some displayname || is_some description || is_some color) _ _
        (λ s.
          update_address_book_metadata-seen b' h' ctx env.now p displayname description color
            s.conn)
        (λ s. refl)

  check_patch-Idle :
      (ops : List ProppatchOp)
      → Idle (check_patch (patch_ops opts.enable_addressbook_color ops no_patch))
  unfolding check_patch
  check_patch-Idle ops s = ground arith

  pub handle_proppatch-Kept : (r : HttpRequest) → Kept (handle_proppatch env opts ctx r)
  unfolding handle_proppatch
  handle_proppatch-Kept r =
      let f = seen b' h' in
      after (at_addressbook r.path) _ (at_addressbook-Idle r.path) (λ here.
        after (accept invalid_xml (read_body opts.request_max_bytes r.body)) _
          (accept-Idle invalid_xml _)
          (λ raw.
            after (accept invalid_xml (parse_proppatch_request env.tokens raw)) _
              (accept-Idle invalid_xml _)
              (λ ops.
                let p = patch_ops opts.enable_addressbook_color ops no_patch in
                after (check_patch p) _ (check_patch-Idle ops) (λ checked.
                  bind-Keeps f
                    (update_metadata env opts ctx r.path p.displayname p.description p.color) _
                    (update_metadata-Kept r.path p.displayname p.description p.color)
                    (λ done s. refl)))))

  slug_at-Idle : (p : Bytes) → Idle (slug_at env opts ctx p)
  slug_at-Idle p s = ground arith

  pub handle_mkcol-Kept : (r : HttpRequest) → Kept (handle_mkcol env opts ctx r)
  unfolding handle_mkcol
  handle_mkcol-Kept r =
      let f = seen b' h' in
      after (at_addressbook r.path) _ (at_addressbook-Idle r.path) (λ here.
        after (slug_at env opts ctx r.path) _ (slug_at-Idle r.path) (λ slug.
          after (accept invalid_xml (read_body opts.request_max_bytes r.body)) _
            (accept-Idle invalid_xml _)
            (λ raw.
              after (accept invalid_xml (parse_mkcol_request env.tokens raw)) _
                (accept-Idle invalid_xml _)
                (λ m.
                  let name = or_else slug (given m.display_name) in
                  bind-Keeps f _ _ (if-Keeps f (wrong_resource_type m) _ _ (λ s. refl) (λ s. refl))
                    (λ right.
                      bind-Keeps f
                        (or_backend_error env
                          (backend (create_address_book ctx env.now (some (r.path, name)))))
                        _
                        (λ s.
                          create_address_book-seen b' h' ctx env.now (some (r.path, name)) s.conn)
                        (λ made.
                          bind-Keeps f
                            (update_metadata env opts ctx r.path (given m.display_name)
                              (given m.description) none)
                            _
                            (update_metadata-Kept r.path (given m.display_name)
                              (given m.description) none)
                            (λ done s. refl)))))))

  matched_current_etag-Idle : (r : HttpRequest) → Idle (matched_current_etag env opts ctx r)
  unfolding matched_current_etag
  matched_current_etag-Idle r =
      if-Keeps tables (not (env.conditional_match r.if_match).is_set) _ _ (λ s. refl)
        (bind-Idle
          (or_backend_error env (backend (get_address_object_with_raw (env.codec) ctx r.path))) _
          (λ s. get_address_object_with_raw-Reads ctx (env.codec) r.path s.conn)
          (λ got.
            bind-Idle (or_response _ (env.etag_of got.0.etag)) _ (or_response-Idle _ _) (λ current.
              bind-Idle (or_response _ ((env.conditional_match r.if_match).match_etag current)) _
                (or_response-Idle _ _)
                (λ is_match.
                  bind-Idle (require is_match (status_error 412)) _
                    (require-Idle is_match (status_error 412)) (λ passed s. refl)))))

  module _ (s : State) (foreign : Foreign ctx b' s.conn.db) where
    -- The book is still another user's where the tables are as they were.
    still : (s' : State) → s'.conn.db ≡ s.conn.db → Foreign ctx b' s'.conn.db
    still s' same = subst (Foreign ctx b') (sym same) foreign

    pub delete_book-KeptAt : (r : HttpRequest) → KeptAt s (handle_addressbook_delete env opts ctx r)
    unfolding handle_addressbook_delete
    delete_book-KeptAt r =
        then-pure (or_backend_error env (backend (delete_address_book ctx r.path)))
          (λ done. only_status 204) s (delete_address_book-seen b' h' ctx r.path s.conn foreign)

    pub handle_card_delete-KeptAt : (r : HttpRequest) → KeptAt s (handle_card_delete env opts ctx r)
    unfolding handle_card_delete
    handle_card_delete-KeptAt r =
        after-at (matched_current_etag env opts ctx r) _ s (matched_current_etag-Idle r)
          (λ etag s' same.
            then-pure
              (or_backend_error env (backend (delete_address_object ctx env.now r.path etag)))
              (λ done. only_status 204) s'
              (delete-seen b' h' ctx env.now r.path etag s'.conn (still s' same)))

    pub handle_card_put-KeptAt :
        (r : HttpRequest) → KeptAt s (handle_card_put env opts ctx (λ d. d) r)
    unfolding handle_card_put
    handle_card_put-KeptAt r =
        after-at (require (is_vcard_content_type env r.content_type) _) _ s (require-Idle _ _)
          (λ typed s1 e1.
            after-at (accept _ (read_body opts.request_max_bytes r.body)) _ s1 (accept-Idle _ _)
              (λ raw s2 e2.
                after-at (require (leb (length raw) opts.vcard_max_bytes) (status_error 413)) _ s2
                  (require-Idle _ _)
                  (λ small s3 e3.
                    after-at (or_response _ (decode_single_card_for_put env raw)) _ s3
                      (or_response-Idle _ _)
                      (λ card s4 e4.
                        then-pure
                          (or_backend_error env (
                            backend (
                              put_address_object (env.codec) ctx env.sha256 env.now env.hook r.path
                                card _ (λ d. d))))
                          _ s4
                          (put-seen b' h' (env.codec) ctx env.sha256 env.now env.hook r.path card _
                            s4.conn (still s4 (e4 ∙ e3 ∙ e2 ∙ e1)))))))
