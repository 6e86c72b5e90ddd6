-- ===== src/Davxml.antt =====
-- WebDAV documents of internal/davxml/types.go. A pointer to an empty struct is a Bool, another
-- pointer an Option. Package encoding/xml, which prints them, is a parameter of the handler.
use go_contactd.Prelude.{
  ℕ, ◌==◌, ◌&&◌, Bytes, Bool, true, false, List, [], ◌∷◌, ◌++◌, Option, none, lit, bytes_eq,
  if◌then◌else◌,
}
use go_contactd.Strings.{format_int}

-- xml.Name
pub record Name : Type 0 where
  pub space : Bytes
  pub local : Bytes

unfoldable pub namespace_dav : Bytes
namespace_dav = lit "DAV:"

unfoldable pub namespace_carddav : Bytes
namespace_carddav = lit "urn:ietf:params:xml:ns:carddav"

unfoldable pub namespace_cs : Bytes
namespace_cs = lit "http://calendarserver.org/ns/"

unfoldable pub namespace_inf : Bytes
namespace_inf = lit "http://inf-it.com/ns/ab/"

abbrev pub dav : Bytes → Name
dav local = record { space = namespace_dav; local = local }

abbrev pub carddav : Bytes → Name
carddav local = record { space = namespace_carddav; local = local }

abbrev pub cs : Bytes → Name
cs local = record { space = namespace_cs; local = local }

abbrev pub inf : Bytes → Name
inf local = record { space = namespace_inf; local = local }

-- matchXMLName of internal/server/handler.go
unfoldable pub match_xml_name : Name → Name → Bool
match_xml_name a b = bytes_eq a.space b.space && bytes_eq a.local b.local

pub record ResourceType : Type 0 where
  pub collection : Bool
  pub principal : Bool
  pub addressbook : Bool

pub record Report : Type 0 where
  pub sync_collection : Bool
  pub addressbook_multi : Bool
  pub addressbook_query : Bool

pub record AddressDataType : Type 0 where
  pub content_type : Bytes
  pub version : Bytes

-- A RawProp is its name, an Href its text.
pub record Prop : Type 0 where
  pub current_user_principal : Option Bytes
  pub principal_url : Option Bytes
  pub addressbook_home_set : Option Bytes
  pub resource_type : Option ResourceType
  pub supported_report_set : Option (List Report)
  pub supported_address_data : Option (List AddressDataType)
  pub display_name : Bytes
  pub addressbook_desc : Bytes
  pub addressbook_color : Bytes
  pub sync_token : Bytes
  pub get_ctag : Bytes
  pub get_etag : Bytes
  pub get_content_type : Bytes
  pub get_content_length : ℕ
  pub get_last_modified : Bytes
  pub address_data : Bytes
  pub extra : List Name

-- davxml.Prop{}
abbrev pub no_prop : Prop
no_prop = record {
  current_user_principal = none;
  principal_url = none;
  addressbook_home_set = none;
  resource_type = none;
  supported_report_set = none;
  supported_address_data = none;
  display_name = [];
  addressbook_desc = [];
  addressbook_color = [];
  sync_token = [];
  get_ctag = [];
  get_etag = [];
  get_content_type = [];
  get_content_length = 0;
  get_last_modified = [];
  address_data = [];
  extra = [];
}

pub record PropStat : Type 0 where
  pub prop : Prop
  pub status : Bytes

pub record Response : Type 0 where
  pub href : Bytes
  pub status : Bytes
  pub prop_stats : List PropStat

pub record MultiStatus : Type 0 where
  pub responses : List Response
  pub sync_token : Bytes

-- davxml.Error
pub record Error : Type 0 where
  pub valid_sync_token : Bool
  pub extra : List Name

-- What the handlers pass to Marshal.
pub data Document : Type 0 where
  multi_status : MultiStatus → Document
  error_document : Error → Document

-- http.StatusText of the statuses that the program answers with.
unfoldable pub http_status_text : ℕ → Bytes
http_status_text code =
    if code == 200
    then lit "OK"
    else if code == 400
    then lit "Bad Request"
    else if code == 401
    then lit "Unauthorized"
    else if code == 403
    then lit "Forbidden"
    else if code == 404
    then lit "Not Found"
    else if code == 405
    then lit "Method Not Allowed"
    else if code == 409
    then lit "Conflict"
    else if code == 412
    then lit "Precondition Failed"
    else if code == 413
    then lit "Request Entity Too Large"
    else if code == 500
    then lit "Internal Server Error"
    else if code == 501
    then lit "Not Implemented"
    else if code == 507
    then lit "Insufficient Storage"
    else []

unfoldable pub status_line : ℕ → Bytes
status_line code = lit "HTTP/1.1 " ++ (format_int code ++ (lit " " ++ http_status_text code))

unfoldable pub prop_stat_status : Prop → ℕ → PropStat
prop_stat_status prop code = record { prop = prop; status = status_line code }

unfoldable pub prop_stat_ok : Prop → PropStat
prop_stat_ok prop = prop_stat_status prop 200

-- CardDAVPrecondition
unfoldable pub carddav_precondition : Bytes → Error
carddav_precondition name = record { valid_sync_token = false; extra = carddav name ∷ [] }

abbrev no_report : Report
no_report = record { sync_collection = false; addressbook_multi = false; addressbook_query = false }

unfoldable pub addressbook_supported_report_set : (include_sync : Bool) → List Report
addressbook_supported_report_set include_sync =
    let reports =
      record no_report { addressbook_multi = true }
      ∷ record no_report { addressbook_query = true }
      ∷ [] in
    if include_sync then record no_report { sync_collection = true } ∷ reports else reports
