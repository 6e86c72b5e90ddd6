-- ===== src/Tests/HandlerRuns.antt =====
-- Runs of the handler of internal/server/handler.go, as internal/daemon/daemon.go serves it.
use go_contactd.Prelude.{
  Bytes, false, [], ◌∷◌, ◌++◌, none, some, lit, ◌≡◌, refl, ◌⊎◌, bytes_eq, if◌then◌else◌,
}
use go_contactd.Store.Users.{Comparison, matched, mismatched}
use go_contactd.Store.Cards.Lookup.{content_at}
use go_contactd.Carddav.Objects.{ConditionalMatch}
use go_contactd.Sync.Cursors.{default_caps}
use go_contactd.Sync.Service.{State}
use go_contactd.Handler.Http.{HttpRequest, HttpResponse, Env, only_status}
use go_contactd.Davxml.{dav, match_xml_name, namespace_dav, namespace_carddav, no_prop}
use go_contactd.Handler.Requests.{PropfindRequest}
use go_contactd.Handler.Propfind.{principal_propfind_response}
use go_contactd.Handler.Propfind.Answers.{
  found_stat, missing_stat, principal_propfind_response-asked,
}
use go_contactd.Handler.Collections.{handle_proppatch}
use go_contactd.Handler.Collections.Bounds.{IsBounded, handle_proppatch-IsBounded}
use go_contactd.Handler.Serve.{serve_http, is_public_path}
use go_contactd.Handler.Serve.Logins.{Refused}
use go_contactd.Daemon.Server.ReadOnly.{opts, serve_http-reads}
use go_contactd.Daemon.Server.Logins.{Known, serve_http-Known}
use go_contactd.Daemon.Server.Tenants.{serve_http-tenant}
use go_contactd.Tests.Data.{checksum, two_books, working}
use go_contactd.Tests.ServerRuns.{config}

-- Stand-ins for the packages: a card is its UID and its text, and no XML is read.
abbrev unset : ConditionalMatch
unset = record { is_set = false; is_wildcard = false; match_etag = λ e. some false }

abbrev env : Env (Bytes × Bytes)
env = record {
  codec = record {
    encode = λ card. some card.1;
    decode = λ raw. some (lit "u", raw);
    uids = λ card. card.0 ∷ [];
  };
  decodes = λ raw. some (lit "u9", raw) ∷ [];
  sha256 = checksum;
  now = 7;
  later = 8;
  hook = none;
  caps = default_caps;
  marshal = λ doc. some [];
  tokens = λ raw. [];
  url_parse = λ p. some (record { path = p; raw_query = []; fragment = [] });
  path_unescape = λ p. some p;
  parse_media_type = λ p. some p;
  conditional_match = λ p. unset;
  etag_of = λ p. some p;
  http_time = λ t. [];
  redirect = λ target code. only_status code;
}

abbrev compare : Bytes → Bytes → Comparison
compare hash password = if bytes_eq hash password then matched else mismatched

abbrev vcard : Bytes
vcard = lit "BEGIN:VCARD" ++ 10 ∷ (lit "END:VCARD" ++ 10 ∷ [])

abbrev ask : (method path password : Bytes) → HttpRequest
ask method path password = record {
  method = method;
  path = path;
  escaped_path = path;
  authorization = lit "Basic x" ∷ [];
  basic_auth = some (lit "bob", password);
  depth = [];
  content_type = lit "text/vcard";
  if_match = [];
  if_none_match = [];
  body = some vcard;
}

abbrev start : State
start = record { conn = working; page = [] }

abbrev served : HttpRequest → HttpResponse × State
served r = serve_http env (opts compare config false) (λ d. d) r start

serve_http-reads_example :
    (served (ask (lit "REPORT") (lit "/bob/contacts/") (lit "h2"))).1.conn.db ≡ two_books
serve_http-reads_example =
    serve_http-reads compare config false env (λ d. d)
      (ask (lit "REPORT") (lit "/bob/contacts/") (lit "h2")) start refl refl refl refl

abbrev bob : HttpRequest
bob = ask (lit "GET") (lit "/bob/") (lit "h2")

private : is_public_path bob.path ≡ false
unfolding is_public_path
private = refl

serve_http-Known_example :
    (Refused (served bob).0.status × ((served bob).1.conn.db ≡ two_books))
    ⊎ ((username password : Bytes) × (bob.basic_auth ≡ some (username, password))
        × Known compare config false username password two_books)
serve_http-Known_example = serve_http-Known compare config false env (λ d. d) bob start private

serve_http-tenant_example :
    content_at 1
      (lit "x.vcf")
      (served (ask (lit "PUT") (lit "/alice/contacts/x.vcf") (lit "h2"))).1.conn.db
    ≡ content_at 1 (lit "x.vcf") two_books
serve_http-tenant_example =
    serve_http-tenant compare config false env
      (ask (lit "PUT") (lit "/alice/contacts/x.vcf") (lit "h2")) 1 (lit "x.vcf") start (lit "bob")
      (lit "h2") refl refl

handle_proppatch-IsBounded_example :
    IsBounded
      (handle_proppatch env
        (opts compare config false)
        (some (lit "bob"))
        (ask (lit "PROPPATCH") (lit "/bob/contacts/") (lit "h2"))
        start).1.conn.db
handle_proppatch-IsBounded_example =
    handle_proppatch-IsBounded env (opts compare config false) (some (lit "bob"))
      (ask (lit "PROPPATCH") (lit "/bob/contacts/") (lit "h2")) start refl

abbrev two_names : PropfindRequest
two_names = record {
  all_prop = false;
  props = dav (lit "principal-URL") ∷ dav (lit "getetag") ∷ [];
}

principal_propfind_response-asked_example :
    principal_propfind_response (lit "/bob/") two_names ≡ record {
      href = lit "/bob/";
      status = [];
      prop_stats =
          found_stat (record no_prop { principal_url = some (lit "/bob/") })
          ∷ missing_stat (dav (lit "getetag") ∷ [])
          ∷ [];
    }
unfolding match_xml_name namespace_dav namespace_carddav
principal_propfind_response-asked_example =
    principal_propfind_response-asked (lit "/bob/") two_names
