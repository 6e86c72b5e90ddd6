-- ===== src/Handler/Reads.antt =====
-- PROPFIND, REPORT and GET in internal/server/handler.go leave the tables as they are.
pub mod Reports
use go_contactd.Prelude.{
  ℕ, ◌==◌, not, Bytes, Bool, true, false, List, [], ◌∷◌, Option, none, some, ◌≡◌, refl, ◌∙◌, arith,
  Bool-cases, Option-cases, inl, inr, lit, bytes_eq, any_row, if◌then◌else◌, ltb, length,
}
use go_contactd.Strings.{trim_space}
use go_contactd.Carddav.{
  Request, AddressBook, current_user_principal, list_address_books, get_address_book,
}
use go_contactd.Carddav.Objects.{
  AddressObject, get_address_object_with_raw, list_address_objects, query_address_objects,
}
use go_contactd.Carddav.Reads.{
  tables, current_user_principal-Reads, list_address_books-Reads, get_address_book-Reads,
  get_address_book_color-Reads, list_address_objects-Reads, get_address_object_with_raw-Reads,
  query_address_objects-Reads,
}
use go_contactd.Sync.Service.{Service, collection_state, sync_collection}
use go_contactd.Sync.Service.Reads.{collection_state-Reads, sync_collection-Reads}
use go_contactd.Davxml.{Name, Response}
use go_contactd.Handler.{ResourceKind, classify_dav_path, parse_addressbook_path}
use go_contactd.Handler.Requests.{PropfindRequest, parse_propfind_request, read_body}
use go_contactd.Handler.Requests.Report.{ReportRequest, parse_report_request}
use go_contactd.Handler.Requests.Report
use go_contactd.Handler.Tokens.{ParseError, Parsed, parsed, failed}
use go_contactd.Handler.Http.{
  HttpRequest, HttpResponse, HandlerOptions, Env, Outcome, ok, stop, Action, ◌>>=◌, on_error, pure,
  halt, HandlerError, Fallible, Handler, backend, service, or_backend_error,
}
use go_contactd.Handler.Http.Keeps.{ActionKeeps, bind-Keeps, if-Keeps}
use go_contactd.Handler.Propfind.{
  BookAnswer, addressbook_collection_state, book_prop, book_props, addressbook_propfind_response,
  book_responses, propfind_principal, propfind_root, propfind_addressbook, propfind_card, at_depth,
  propfind_resource, build_propfind_multi_status, accept, handle_propfind, parse_propfind_depth,
  invalid_xml,
}

abbrev pub Idle : {E A : Type 0} → Action E A → Type 0
Idle m = ActionKeeps tables m

pub bind-Idle :
    {E A B : Type 0} (m : Action E A) (g : A → Action E B)
    → Idle m
    → ((a : A) → Idle (g a))
    → Idle (m >>= g)
bind-Idle = bind-Keeps tables

pub accept-Idle :
    {A : Type 0} (refuse : ParseError → HttpResponse) (p : Parsed A) → Idle (accept refuse p)
accept-Idle refuse (parsed a) s = refl
accept-Idle refuse (failed e) s = refl

module _ {VCard : Type 0} (env : Env VCard) (opts : HandlerOptions) (ctx : Option Bytes) where
  collection_state-Idle : (p : Bytes) → Idle (addressbook_collection_state env opts ctx p)
  unfolding addressbook_collection_state
  collection_state-Idle p s = elim (Option-cases (parse_addressbook_path p)) [
    | inl missing ↦ ground arith
    | inr (at, found) ↦ ground (arith, collection_state-Reads at.0 at.1 s)
  ]

  book_prop-Idle :
      (ab : AddressBook) (n : Name) (a : BookAnswer) → Idle (book_prop env opts ctx ab n a)
  unfolding book_prop
  book_prop-Idle ab n a s =
      ground
        (arith, get_address_book_color-Reads ctx ab.path s.conn, collection_state-Idle ab.path s)

  book_props-Idle :
      (ab : AddressBook) (ns : List Name) (a : BookAnswer) → Idle (book_props env opts ctx ab ns a)
  unfolding book_props
  book_props-Idle ab [] a = λ s. refl
  book_props-Idle ab (n ∷ ns) a =
      bind-Idle (book_prop env opts ctx ab n a) _ (book_prop-Idle ab n a) (book_props-Idle ab ns)

  propfind_response-Idle :
      (ab : AddressBook) (req : PropfindRequest)
      → Idle (addressbook_propfind_response env opts ctx ab req)
  unfolding addressbook_propfind_response
  propfind_response-Idle ab req =
      bind-Idle (book_props env opts ctx ab _ _) _ (book_props-Idle ab _ _) (λ a s. refl)

  book_responses-Idle :
      (abs : List AddressBook) (req : PropfindRequest) → Idle (book_responses env opts ctx abs req)
  unfolding book_responses
  book_responses-Idle [] req = λ s. refl
  book_responses-Idle (ab ∷ abs) req =
      bind-Idle (addressbook_propfind_response env opts ctx ab req) _
        (propfind_response-Idle ab req)
        (λ resp.
          bind-Idle (book_responses env opts ctx abs req) _ (book_responses-Idle abs req)
            (λ rest s. refl))

  at_depth-Idle :
      (depth : ℕ) (first : Response) (more : Fallible (List Response))
      → Idle more
      → Idle (at_depth env opts ctx depth first more)
  at_depth-Idle depth first more k =
      if-Keeps tables (depth == 1) _ _ (bind-Idle more _ k (λ rest s. refl)) (λ s. refl)

  propfind_principal-Idle :
      (p : Bytes) (depth : ℕ) (req : PropfindRequest)
      → Idle (propfind_principal env opts ctx p depth req)
  unfolding propfind_principal
  propfind_principal-Idle p depth req =
      bind-Idle (backend (current_user_principal ctx)) _
        (λ s. current_user_principal-Reads ctx s.conn)
        (λ who.
          if-Keeps tables (not (bytes_eq who p)) _ _ (λ s. refl)
            (at_depth-Idle depth _ _ (
              bind-Idle (backend (list_address_books ctx)) _
                (λ s. list_address_books-Reads ctx s.conn)
                (λ books. book_responses-Idle books req))))

  propfind_root-Idle :
      (depth : ℕ) (req : PropfindRequest) → Idle (propfind_root env opts ctx depth req)
  unfolding propfind_root
  propfind_root-Idle depth req =
      bind-Idle (backend (current_user_principal ctx)) _
        (λ s. current_user_principal-Reads ctx s.conn)
        (λ who. at_depth-Idle depth _ _ (propfind_principal-Idle who 0 req))

  propfind_addressbook-Idle :
      (p : Bytes) (depth : ℕ) (req : PropfindRequest)
      → Idle (propfind_addressbook env opts ctx p depth req)
  unfolding propfind_addressbook
  propfind_addressbook-Idle p depth req =
      bind-Idle (backend (get_address_book ctx p)) _ (λ s. get_address_book-Reads ctx p s.conn)
        (λ ab.
          bind-Idle (addressbook_propfind_response env opts ctx ab req) _
            (propfind_response-Idle ab req)
            (λ resp. at_depth-Idle depth resp _ (
              bind-Idle (backend (list_address_objects (env.codec) ctx p)) _
                (λ s. list_address_objects-Reads ctx (env.codec) p s.conn) (λ aos s. refl))))

  propfind_card-Idle : (p : Bytes) (req : PropfindRequest) → Idle (propfind_card env opts ctx p req)
  unfolding propfind_card
  propfind_card-Idle p req =
      bind-Idle (backend (get_address_object_with_raw (env.codec) ctx p)) _
        (λ s. get_address_object_with_raw-Reads ctx (env.codec) p s.conn) (λ ao s. refl)

  resource-Idle :
      (kind : ResourceKind) (p : Bytes) (depth : ℕ) (req : PropfindRequest)
      → Idle (propfind_resource env opts ctx kind p depth req)
  resource-Idle ResourceKind.principal p depth req = propfind_principal-Idle p depth req
  resource-Idle ResourceKind.addressbook p depth req = propfind_addressbook-Idle p depth req
  resource-Idle ResourceKind.card p depth req = propfind_card-Idle p req
  resource-Idle ResourceKind.unknown p depth req = λ s. refl

  multi_status-Idle :
      (p : Bytes) (depth : ℕ) (req : PropfindRequest)
      → Idle (build_propfind_multi_status env opts ctx p depth req)
  unfolding build_propfind_multi_status
  multi_status-Idle p depth req =
      if-Keeps tables (bytes_eq (trim_space p) (lit "/")) _ _ (propfind_root-Idle depth req)
        (resource-Idle (classify_dav_path p) p depth req)

  pub handle_propfind-Idle : (r : HttpRequest) → Idle (handle_propfind env opts ctx r)
  unfolding handle_propfind
  handle_propfind-Idle r =
      bind-Idle (λ s. (parse_propfind_depth r.depth, s)) _ (λ s. refl)
        (λ depth.
          bind-Idle (accept invalid_xml (read_body opts.request_max_bytes r.body)) _
            (accept-Idle invalid_xml _)
            (λ raw.
              bind-Idle (accept invalid_xml (parse_propfind_request env.tokens raw)) _
                (accept-Idle invalid_xml _)
                (λ req.
                  bind-Idle
                    (or_backend_error env
                      (build_propfind_multi_status env opts ctx r.path depth req))
                    _ (multi_status-Idle r.path depth req) (λ responses s. refl))))
