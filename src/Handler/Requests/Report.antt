-- ===== src/Handler/Requests/Report.antt =====
-- parseReportRequest of internal/server/handler.go, with parseDAVLimitNResults.
use go_contactd.Prelude.{
  ℕ, zero, suc, Bytes, true, false, List, [], ◌∷◌, ◌++◌, Option, none, some, lit, if◌then◌else◌,
  ◌&&◌, ◌==◌,
}
use go_contactd.Strings.{is_blank, trim_space, is_blank, parse_int, ℤ, pos}
use go_contactd.Strings.Paths.{is_empty}
use go_contactd.Davxml.{Name, dav, carddav, match_xml_name}
use go_contactd.Handler.Tokens.{
  Token, start, end, syntax_error, invalid, unknown_report_type, Parsed, parsed, failed, ◌>>=◌,
  Step, fail, next, decode_element, element_length, element_text, run, validate_single_xml_document,
}

pub data ReportKind : Type 0 where
  multi_get query sync_collection : ReportKind

-- `kind` is `none` for reportKindUnknown.
pub record ReportRequest : Type 0 where
  pub kind : Option ReportKind
  pub hrefs : List Bytes
  pub sync_token : Bytes
  pub limit_nresults : ℤ

-- A text for strconv.Atoi, if it is not blank; `none` is an error.
abbrev nresults_of : ℤ → Bytes → Option ℤ
nresults_of before v = if is_empty (trim_space v) then some before else parse_int (trim_space v)

abbrev one_more : Option (ℤ × ℕ) → Option (ℤ × ℕ)
one_more none = none
one_more (some (n, read)) = some (n, suc read)

-- The loop of parseDAVLimitNResults, with `skip` tokens that it has read already: the number, and how
-- many tokens have been read when the element has ended. `depth` counts the elements inside it.
unfoldable pub parse_dav_limit_nresults :
    (depth : ℕ) (nresults : ℤ) (skip : ℕ) → List Token → Option (ℤ × ℕ)
parse_dav_limit_nresults depth nresults skip [] = none
parse_dav_limit_nresults depth nresults (suc skip) (t ∷ ts) =
    one_more (parse_dav_limit_nresults depth nresults skip ts)
parse_dav_limit_nresults depth nresults zero (syntax_error ∷ ts) = none
parse_dav_limit_nresults depth nresults zero (start n ∷ ts) =
    elim (depth == 0 && match_xml_name n (dav (lit "nresults"))) [
      | false ↦ one_more (parse_dav_limit_nresults (suc depth) nresults zero ts)
      | true ↦ elim (element_length 0 ts) [
        | none ↦ none
        | some inside ↦ elim (nresults_of nresults (element_text 0 ts)) [
          | none ↦ none
          | some m ↦ one_more (parse_dav_limit_nresults depth m inside ts)
        ]
      ]
    ]
parse_dav_limit_nresults zero nresults zero (end n ∷ ts) = some (nresults, 1)
parse_dav_limit_nresults (suc depth) nresults zero (end n ∷ ts) =
    one_more (parse_dav_limit_nresults depth nresults zero ts)
parse_dav_limit_nresults depth nresults zero (t ∷ ts) =
    one_more (parse_dav_limit_nresults depth nresults zero ts)

abbrev kind_named : Name → Option ReportKind
kind_named n =
    if match_xml_name n (carddav (lit "addressbook-multiget"))
    then some multi_get
    else if match_xml_name n (carddav (lit "addressbook-query"))
    then some query
    else if match_xml_name n (dav (lit "sync-collection"))
    then some sync_collection
    else none

abbrev sync_step : ReportRequest → Name → List Token → Step ReportRequest
sync_step req n ts =
    if match_xml_name n (dav (lit "sync-token"))
    then decode_element ts (λ token. record req { sync_token = trim_space token })
    else if match_xml_name n (dav (lit "limit"))
    then elim (parse_dav_limit_nresults 0 (pos 0) 0 ts) [
      | none ↦ fail invalid
      | some (m, read) ↦ next (record req { limit_nresults = m }) read
    ]
    else next req 0

-- A kind is set exactly from the root on.
abbrev report_step : ReportRequest → Token → List Token → Step ReportRequest
report_step req (start n) ts = elim req.kind [
  | none ↦ elim (kind_named n) [
    | none ↦ fail unknown_report_type
    | some k ↦ next (record req { kind = some k }) 0
  ]
  | some multi_get ↦
      if match_xml_name n (dav (lit "href"))
      then decode_element ts (λ href. record req { hrefs = req.hrefs ++ trim_space href ∷ [] })
      else next req 0
  | some query ↦ next req 0
  | some sync_collection ↦ sync_step req n ts
]
report_step req _ ts = next req 0

abbrev report_result : List Token → ReportRequest → Parsed ReportRequest
report_result ts req = elim req.kind [
  | none ↦ failed invalid
  | some _ ↦ validate_single_xml_document ts >>= λ _. parsed req
]

module _ (tokens : Bytes → List Token) (raw : Bytes) where
  unfoldable pub parse_report_request : Parsed ReportRequest
  parse_report_request = if is_blank raw then failed invalid else do
    req ←
        run report_step
          (record { kind = none; hrefs = []; sync_token = []; limit_nresults = pos 0 }) 0
          (tokens raw)
    report_result (tokens raw) req
