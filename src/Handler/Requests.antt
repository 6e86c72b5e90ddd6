-- ===== src/Handler/Requests.antt =====
-- The bodies that internal/server/handler.go parses, as the tokens of their XML: parsePropfindRequest,
-- parseProppatchRequest, parseReportRequest and parseMkcolRequest. `tokens` is the decoder of package
-- encoding/xml. A body is never nil: http.MaxBytesReader wraps it.
pub mod Report
use go_contactd.Prelude.{
  ℕ, zero, suc, ◌==◌, ◌-◌, ◌&&◌, ◌||◌, ltb, not, Bytes, Bool, true, false, List, [], ◌∷◌, ◌++◌,
  Option, none, some, lit, bytes_eq, if◌then◌else◌, length,
}
use go_contactd.Strings.{is_blank}
use go_contactd.Davxml.{Name, namespace_dav, dav, carddav, match_xml_name}
use go_contactd.Handler.Tokens.{
  Token, start, end, ParseError, invalid, too_large, Parsed, parsed, failed, ◌>>=◌, Step, fail,
  next, skip_element, decode_element, run, validate_single_xml_document,
}

-- io.ReadAll of a body behind http.MaxBytesReader: `none` is a body that cannot be read.
unfoldable pub read_body : (max : ℕ) → Option Bytes → Parsed Bytes
read_body max none = failed invalid
read_body max (some raw) = if ltb max (length raw) then failed too_large else parsed raw

pub record PropfindRequest : Type 0 where
  pub all_prop : Bool
  pub props : List Name

-- The variables of parsePropfindRequest's loop.
pub record PropfindState : Type 0 where
  pub root_seen : Bool
  pub depth : ℕ
  pub in_prop : Bool
  pub req : PropfindRequest

abbrev pub local_is : Name → Bytes → Bool
local_is n s = bytes_eq n.local s

abbrev propfind_step : PropfindState → Token → List Token → Step PropfindState
propfind_step s (start n) ts =
    if not s.root_seen
    then if local_is n (lit "propfind")
      then next (record s { root_seen = true; depth = 1 }) 0
      else fail invalid
    else if s.depth == 1 && local_is n (lit "allprop")
    then skip_element ts (record s { req = record (s.req) { all_prop = true } })
    else if s.depth == 1 && local_is n (lit "prop")
    then next (record s { in_prop = true; depth = suc s.depth }) 0
    else if s.in_prop && s.depth == 2
    then skip_element ts (record s { req = record (s.req) { props = s.req.props ++ n ∷ [] } })
    else next (record s { depth = suc s.depth }) 0
propfind_step s (end n) ts =
    next
      (record s {
        in_prop = if s.in_prop && local_is n (lit "prop") then false else s.in_prop;
        depth = s.depth - 1;
      })
      0
propfind_step s _ ts = next s 0

abbrev all_props : PropfindRequest
all_props = record { all_prop = true; props = [] }

abbrev propfind_result : PropfindState → PropfindRequest
propfind_result s =
    if not s.root_seen
    then all_props
    else if not s.req.all_prop && length s.req.props == 0
    then record (s.req) { all_prop = true }
    else s.req

pub data Mode : Type 0 where
  no_mode set remove : Mode

pub record ProppatchOp : Type 0 where
  pub name : Name
  pub is_remove : Bool
  pub value : Bytes

-- The variables of parseProppatchRequest's loop; a ProppatchRequest is its Ops.
pub record ProppatchState : Type 0 where
  pub root_seen : Bool
  pub depth : ℕ
  pub in_prop : Bool
  pub mode : Mode
  pub ops : List ProppatchOp

abbrev in_dav : Name → Bool
in_dav n = bytes_eq n.space namespace_dav

abbrev is_set_or_remove : Name → Bool
is_set_or_remove n = in_dav n && (local_is n (lit "set") || local_is n (lit "remove"))

abbrev has_mode : Mode → Bool
has_mode no_mode = false
has_mode _ = true

abbrev is_remove : Mode → Bool
is_remove remove = true
is_remove _ = false

abbrev add_op : ProppatchState → Name → Bytes → ProppatchState
add_op s n v = record s {
  ops = s.ops ++ record { name = n; is_remove = is_remove s.mode; value = v } ∷ [];
}

abbrev read_op : ProppatchState → Name → List Token → Step ProppatchState
read_op s n ts = elim s.mode [
  | set ↦ decode_element ts (add_op s n)
  | _ ↦ skip_element ts (add_op s n [])
]

abbrev proppatch_step : ProppatchState → Token → List Token → Step ProppatchState
proppatch_step s (start n) ts =
    if not s.root_seen
    then if match_xml_name n (dav (lit "propertyupdate"))
      then next (record s { root_seen = true; depth = 1 }) 0
      else fail invalid
    else if s.depth == 1 && is_set_or_remove n
    then next
        (record s { mode = if local_is n (lit "set") then set else remove; depth = suc s.depth }) 0
    else if s.depth == 1
    then fail invalid
    else if s.depth == 2 && has_mode s.mode && in_dav n && local_is n (lit "prop")
    then next (record s { in_prop = true; depth = suc s.depth }) 0
    else if s.depth == 2 && has_mode s.mode
    then fail invalid
    else if s.in_prop && s.depth == 3
    then read_op s n ts
    else next (record s { depth = suc s.depth }) 0
proppatch_step s (end n) ts =
    next
      (record s {
        in_prop = if s.in_prop && in_dav n && local_is n (lit "prop") then false else s.in_prop;
        mode = if s.depth == 2 && is_set_or_remove n then no_mode else s.mode;
        depth = s.depth - 1;
      })
      0
proppatch_step s _ ts = next s 0

abbrev proppatch_result : List Token → ProppatchState → Parsed (List ProppatchOp)
proppatch_result ts s =
    if not s.root_seen || length s.ops == 0
    then failed invalid
    else validate_single_xml_document ts >>= λ _. parsed s.ops

pub record MkcolRequest : Type 0 where
  pub display_name : Bytes
  pub description : Bytes
  pub resource_type_present : Bool
  pub has_collection : Bool
  pub has_addressbook : Bool

-- The variables of parseMkcolRequest's loop.
pub record MkcolState : Type 0 where
  pub root_seen : Bool
  pub in_res_type : Bool
  pub req : MkcolRequest

abbrev mkcol_step : MkcolState → Token → List Token → Step MkcolState
mkcol_step s (start n) ts =
    if not s.root_seen
    then if local_is n (lit "mkcol") && in_dav n
      then next (record s { root_seen = true }) 0
      else fail invalid
    else if match_xml_name n (dav (lit "displayname"))
    then decode_element ts (λ v. record s { req = record (s.req) { display_name = v } })
    else if match_xml_name n (carddav (lit "addressbook-description"))
    then decode_element ts (λ v. record s { req = record (s.req) { description = v } })
    else if match_xml_name n (dav (lit "resourcetype"))
    then next
        (record s { req = record (s.req) { resource_type_present = true }; in_res_type = true }) 0
    else if s.in_res_type && match_xml_name n (dav (lit "collection"))
    then skip_element ts (record s { req = record (s.req) { has_collection = true } })
    else if s.in_res_type && match_xml_name n (carddav (lit "addressbook"))
    then skip_element ts (record s { req = record (s.req) { has_addressbook = true } })
    else next s 0
mkcol_step s (end n) ts =
    if match_xml_name n (dav (lit "resourcetype"))
    then next (record s { in_res_type = false }) 0
    else next s 0
mkcol_step s _ ts = next s 0

abbrev no_mkcol : MkcolRequest
no_mkcol = record {
  display_name = [];
  description = [];
  resource_type_present = false;
  has_collection = false;
  has_addressbook = false;
}

module _ (tokens : Bytes → List Token) (raw : Bytes) where
  unfoldable pub parse_propfind_request : Parsed PropfindRequest
  parse_propfind_request = if is_blank raw then parsed all_props else do
    s ←
        run propfind_step
          (record {
            root_seen = false;
            depth = 0;
            in_prop = false;
            req = record { all_prop = false; props = [] };
          })
          0 (tokens raw)
    parsed (propfind_result s)

  unfoldable pub parse_proppatch_request : Parsed (List ProppatchOp)
  parse_proppatch_request = if is_blank raw then failed invalid else do
    s ←
        run proppatch_step
          (record { root_seen = false; depth = 0; in_prop = false; mode = no_mode; ops = [] }) 0
          (tokens raw)
    proppatch_result (tokens raw) s

  unfoldable pub parse_mkcol_request : Parsed MkcolRequest
  parse_mkcol_request = if is_blank raw then parsed no_mkcol else do
    s ←
        run mkcol_step (record { root_seen = false; in_res_type = false; req = no_mkcol }) 0
          (tokens raw)
    parsed s.req
