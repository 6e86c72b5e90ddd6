-- ===== src/Handler/Collections/Bounds.antt =====
-- PROPPATCH in internal/server/handler.go bounds what it stores.
use go_contactd.Prelude.{
  ℕ, ◌||◌, not, ltb, Bytes, Bool, true, false, List, [], ◌∷◌, Option, ◌≡◌, refl, arith, length,
  any_row, update_rows, Bool-cases, inl, inr,
}
use go_contactd.Store.Tables.{BookRow, Database}
use go_contactd.Store.Exec.{Conn, exec}
use go_contactd.Store.Books.{with_metadata, owned_at, update_addressbook_metadata}
use go_contactd.Sync.Service.{State}
use go_contactd.Carddav.{
  update_address_book_metadata, parse_addressbook_path_for_principal, Reply, ok, err, store,
  continue,
}
use go_contactd.Handler.Requests.{read_body, parse_proppatch_request}
use go_contactd.Handler.Http.{
  HttpRequest, HttpResponse, HandlerOptions, Env, Outcome, Handler, backend, or_backend_error,
}
use go_contactd.Handler.Http
use go_contactd.Handler.Http.Keeps.{bind-Holds, then-Holds}
use go_contactd.Handler.Propfind.{accept, invalid_xml, is_some}
use go_contactd.Handler.Collections.{
  Patch, at_addressbook, check_patch, longer_than, patch_ops, no_patch, update_metadata,
  handle_proppatch,
}
use go_contactd.Handler.Reads.{accept-Idle}
use go_contactd.Handler.Reads.Reports.{at_addressbook-Idle}

abbrev too_long : BookRow → Bool
too_long b =
    ltb 256 (length b.displayname) || ltb 4096 (length b.description) || ltb 64 (length b.color)

-- No book has a name, a description or a colour that is too long.
abbrev pub IsBounded : Database → Type 0
IsBounded d = any_row too_long d.books ≡ false

abbrev fits : (displayname description color : Option Bytes) → Bool
fits n d c = not (longer_than 256 n || longer_than 4096 d || longer_than 64 c)

module _ (now : ℕ) (displayname description color : Option Bytes)
    (good : fits displayname description color ≡ true) where
  with_metadata-fits :
      (b : BookRow)
      → too_long b ≡ false
      → too_long (with_metadata now displayname description color b) ≡ false
  with_metadata-fits b e = ground arith

  updated-fits :
      (test : BookRow → Bool) (rows : List BookRow)
      → any_row too_long rows ≡ false
      → any_row too_long (update_rows test (with_metadata now displayname description color) rows)
        ≡ false
  updated-fits test [] e = refl
  updated-fits test (b ∷ rows) e = ground (arith, with_metadata-fits b, updated-fits test rows)

  update_addressbook_metadata-IsBounded :
      (username slug : Bytes) (c : Conn)
      → IsBounded c.db
      → IsBounded
          (update_addressbook_metadata now username slug displayname description color c).1.db
  unfolding update_addressbook_metadata exec
  update_addressbook_metadata-IsBounded username slug c e =
      ground (arith, updated-fits (owned_at username slug c.db) c.db.books e)

  update_address_book_metadata-IsBounded :
      (ctx : Option Bytes) (p : Bytes) (c : Conn)
      → IsBounded c.db
      → IsBounded (update_address_book_metadata ctx now p displayname description color c).1.db
  unfolding update_address_book_metadata
  update_address_book_metadata-IsBounded ctx p c e =
      by_path (parse_addressbook_path_for_principal ctx p)
    where
      by_path :
          (r : Reply (Bytes × Bytes))
          → IsBounded
              (continue r
                (λ at.
                  store (update_addressbook_metadata now at.0 at.1 displayname description color))
                c).1.db
      by_path (ok at) = update_addressbook_metadata-IsBounded at.0 at.1 c e
      by_path (err x) = e

check_patch-ok :
    (p : Patch) (s : State)
    → (check_patch p s).0 ≡ Http.ok tt
    → fits p.displayname p.description p.color ≡ true
unfolding check_patch
check_patch-ok p s e = ground arith

check_patch-still : (p : Patch) (s : State) → (check_patch p s).1.conn.db ≡ s.conn.db
unfolding check_patch
check_patch-still p s = ground arith

module _ {VCard : Type 0} (env : Env VCard) (opts : HandlerOptions) (ctx : Option Bytes) where
  update_metadata-IsBounded :
      (p : Bytes) (displayname description color : Option Bytes) (s : State)
      → fits displayname description color ≡ true
      → IsBounded s.conn.db
      → IsBounded (update_metadata env opts ctx p displayname description color s).1.conn.db
  update_metadata-IsBounded p displayname description color s good holds =
      elim (Bool-cases (is_some displayname || is_some description || is_some color)) [
        | inl some_given ↦ rw some_given (
            update_address_book_metadata-IsBounded env.now displayname description color good ctx p
              s.conn holds)
        | inr none_given ↦ rw none_given holds
      ]

  -- A PROPPATCH, whatever it sets and whatever its outcome, leaves no book with a name of more than
  -- 256 bytes, a description of more than 4096 or a colour of more than 64, if there was none
  -- before.
  pub handle_proppatch-IsBounded :
      (r : HttpRequest) (s : State)
      → IsBounded s.conn.db
      → IsBounded (handle_proppatch env opts ctx r s).1.conn.db
  unfolding handle_proppatch
  handle_proppatch-IsBounded r s holds =
      bind-Holds IsBounded (at_addressbook r.path) _ s (at_addressbook-Idle r.path s) holds
        (λ here s1 done1 holds1.
          bind-Holds IsBounded (accept invalid_xml (read_body opts.request_max_bytes r.body)) _ s1
            (accept-Idle invalid_xml _ s1) holds1
            (λ raw s2 done2 holds2.
              bind-Holds IsBounded (accept invalid_xml (parse_proppatch_request env.tokens raw)) _
                s2 (accept-Idle invalid_xml _ s2) holds2
                (λ ops s3 done3 holds3.
                  let p = patch_ops opts.enable_addressbook_color ops no_patch in
                  bind-Holds IsBounded (check_patch p) _ s3 (check_patch-still p s3) holds3
                    (λ checked s4 passed holds4.
                      then-Holds IsBounded
                        (update_metadata env opts ctx r.path p.displayname p.description p.color) _
                        s4
                        (update_metadata-IsBounded r.path p.displayname p.description p.color s4
                          (check_patch-ok p s3 passed) holds4)))))
