-- ===== src/Handler/Propfind/Answers.antt =====
-- What PROPFIND in internal/server/handler.go answers for each property that a request names.
use mathlib.Core.List.{append-nil, append_assoc}
use go_contactd.Prelude.{
  not, Bytes, Bool, true, false, List, [], ◌∷◌, ◌++◌, some, lit, ◌≡◌, refl, ap, arith, Bool-cases,
  inl, inr, if◌then◌else◌, any_row, where_rows, bytes_eq_iff, length, ◌==◌, ◌∙◌,
}
use go_contactd.Strings.{format_int}
use go_contactd.Davxml.{
  Name, dav, carddav, match_xml_name, namespace_dav, namespace_carddav, Prop, no_prop, PropStat,
  prop_stat_ok, prop_stat_status, status_line, http_status_text,
}
use go_contactd.Handler.Requests.{PropfindRequest}
use go_contactd.Handler.Propfind.{
  has_any_prop, build_propstats, answer_props, principal_prop, resource, response_with,
  principal_default_prop_names, principal_propfind_response, expand_propfind_requested_props,
}

-- A property that is named matches no other.
match-other :
    (n a b : Name)
    → match_xml_name n a ≡ true
    → match_xml_name a b ≡ false
    → match_xml_name n b ≡ false
unfolding match_xml_name
match-other n a b e f = ground (arith, bytes_eq_iff n.space a.space, bytes_eq_iff n.local a.local)

-- Whether a property is among those that are asked for.
abbrev pub asks : Name → List Name → Bool
asks p ns = any_row (λ n. match_xml_name n p) ns

abbrev pub or_before {ℓ} : {A : Type ℓ} → Bool → A → A → A
or_before b v before = if b then v else before

-- The properties of a principal.
abbrev pub principal_props : List Name
principal_props =
    dav (lit "current-user-principal")
    ∷ dav (lit "principal-URL")
    ∷ carddav (lit "addressbook-home-set")
    ∷ dav (lit "resourcetype")
    ∷ []

abbrev pub is_principal_prop : Name → Bool
is_principal_prop n = any_row (match_xml_name n) principal_props

abbrev pub is_unknown : Name → Bool
is_unknown n = not (is_principal_prop n)

-- The names that a request asks for: all of them, if it names none.
abbrev pub asked_names : PropfindRequest → List Name
asked_names req =
    if req.all_prop
    then principal_props
    else elim req.props [ [] ↦ principal_props | n ∷ ns ↦ n ∷ ns ]

abbrev pub found_stat : Prop → PropStat
found_stat p = record { prop = p; status = lit "HTTP/1.1 200 OK" }

abbrev pub missing_stat : List Name → PropStat
missing_stat ns = record {
  prop = record no_prop { extra = ns };
  status = lit "HTTP/1.1 404 Not Found";
}

-- A part of the answer, if it has something to say.
abbrev pub part : Bool → PropStat → List PropStat
part b stat = if b then stat ∷ [] else []

module _ (href : Bytes) where
  abbrev pub principal_answer : List Name → Prop → Prop
  principal_answer ns p = record p {
    current_user_principal =
        or_before (asks (dav (lit "current-user-principal")) ns) (some href)
          p.current_user_principal;
    principal_url = or_before (asks (dav (lit "principal-URL")) ns) (some href) p.principal_url;
    addressbook_home_set =
        or_before (asks (carddav (lit "addressbook-home-set")) ns) (some href)
          p.addressbook_home_set;
    resource_type =
        or_before (asks (dav (lit "resourcetype")) ns) (some (resource true true false))
          p.resource_type;
  }

  distinct :
      (match_xml_name (dav (lit "current-user-principal")) (dav (lit "principal-URL")) ≡ false)
      × (match_xml_name (dav (lit "current-user-principal")) (carddav (lit "addressbook-home-set"))
          ≡ false)
      × (match_xml_name (dav (lit "current-user-principal")) (dav (lit "resourcetype")) ≡ false)
      × (match_xml_name (dav (lit "principal-URL")) (carddav (lit "addressbook-home-set")) ≡ false)
      × (match_xml_name (dav (lit "principal-URL")) (dav (lit "resourcetype")) ≡ false)
      × (match_xml_name (carddav (lit "addressbook-home-set")) (dav (lit "resourcetype")) ≡ false)
  unfolding match_xml_name namespace_dav namespace_carddav
  distinct = (refl, refl, refl, refl, refl, refl)

  answer_props-principal :
      (ns : List Name) (p : Prop) (unknown : List Name)
      → answer_props (principal_prop href) ns p unknown
        ≡ (principal_answer ns p, unknown ++ where_rows is_unknown ns)
  unfolding answer_props principal_prop principal_default_prop_names
  answer_props-principal [] p unknown = ground (arith, append-nil unknown)
  answer_props-principal (n ∷ ns) p unknown =
      let (d01, d02, d03, d12, d13, d23) = distinct in
      elim (Bool-cases (match_xml_name n (dav (lit "current-user-principal")))) [
        | inl is ↦ ground (
          arith,
          match-other n _ _ is d01,
          match-other n _ _ is d02,
          match-other n _ _ is d03,
          answer_props-principal ns (record p { current_user_principal = some href }) unknown,
        )
        | inr not_user ↦ elim (Bool-cases (match_xml_name n (dav (lit "principal-URL")))) [
          | inl is ↦ ground (
            arith,
            match-other n _ _ is d12,
            match-other n _ _ is d13,
            answer_props-principal ns (record p { principal_url = some href }) unknown,
          )
          | inr not_url ↦
              elim (Bool-cases (match_xml_name n (carddav (lit "addressbook-home-set")))) [
                | inl is ↦ ground (
                  arith,
                  match-other n _ _ is d23,
                  answer_props-principal ns (record p { addressbook_home_set = some href }) unknown,
                )
                | inr not_home ↦ elim (Bool-cases (match_xml_name n (dav (lit "resourcetype")))) [
                  | inl is ↦ ground (
                    arith,
                    answer_props-principal ns
                        (record p { resource_type = some (resource true true false) }) unknown,
                  )
                  | inr not_type ↦ ground (
                    arith,
                    answer_props-principal ns p (unknown ++ n ∷ []),
                    append_assoc unknown (n ∷ []) (where_rows is_unknown ns),
                  )
                ]
              ]
        ]
      ]

  asks-any :
      (ns : List Name) → has_any_prop (principal_answer ns no_prop) ≡ any_row is_principal_prop ns
  unfolding has_any_prop
  asks-any [] = refl
  asks-any (n ∷ ns) = ground (arith, asks-any ns)

  length-unknown :
      (ns : List Name) → (length (where_rows is_unknown ns) == 0) ≡ not (any_row is_unknown ns)
  length-unknown [] = refl
  length-unknown (n ∷ ns) = ground (arith, length-unknown ns)

  expand-asked :
      (req : PropfindRequest)
      → expand_propfind_requested_props req principal_default_prop_names ≡ asked_names req
  unfolding expand_propfind_requested_props principal_default_prop_names
  expand-asked req = ground arith

  build_propstats-parts :
      (ok_prop : Prop) (unknown : List Name)
      → build_propstats ok_prop unknown
        ≡ part (has_any_prop ok_prop) (found_stat ok_prop)
          ++ part (not (length unknown == 0)) (missing_stat unknown)
  unfolding build_propstats prop_stat_ok prop_stat_status status_line http_status_text format_int
  build_propstats-parts ok_prop [] = elim (Bool-cases (has_any_prop ok_prop)) [
    | inl some_prop ↦ rw some_prop refl
    | inr no_props ↦ rw no_props refl
  ]
  build_propstats-parts ok_prop (n ∷ ns) =
      let named : (length (n ∷ ns) == 0) ≡ false = ground arith in
      elim (Bool-cases (has_any_prop ok_prop)) [
        | inl some_prop ↦ rw some_prop (rw named refl)
        | inr no_props ↦ rw no_props (rw named refl)
      ]

  not-not : (b : Bool) → not (not b) ≡ b
  not-not true = refl
  not-not false = refl

  -- The answer for a principal is about its path. If a name that is asked for is one of the four
  -- properties of a principal, it has those of the four that are asked for, with their values,
  -- under the status 200 OK. If a name is none of the four, it has all such names, in their order,
  -- under the status 404 Not Found. It has nothing else. A request that names no property asks for
  -- the four.
  pub principal_propfind_response-asked :
      (req : PropfindRequest)
      → principal_propfind_response href req ≡ record {
        href = href;
        status = [];
        prop_stats =
            part
              (any_row is_principal_prop (asked_names req))
              (found_stat (principal_answer (asked_names req) no_prop))
            ++ part
                (any_row is_unknown (asked_names req))
                (missing_stat (where_rows is_unknown (asked_names req)));
      }
  unfolding principal_propfind_response
  principal_propfind_response-asked req =
      let ns = asked_names req in
      let stats : build_propstats (principal_answer ns no_prop) (where_rows is_unknown ns)
          ≡ part (any_row is_principal_prop ns) (found_stat (principal_answer ns no_prop))
            ++ part (any_row is_unknown ns) (missing_stat (where_rows is_unknown ns)) =
        build_propstats-parts (principal_answer ns no_prop) (where_rows is_unknown ns)
        ∙ rw (asks-any ns, length-unknown ns, not-not (any_row is_unknown ns)) refl in
      ap (λ ms. response_with href (answer_props (principal_prop href) ms no_prop []))
        (expand-asked req)
      ∙ ap (response_with href) (answer_props-principal ns no_prop [])
      ∙ ap (λ ps. record { href = href; status = []; prop_stats = ps }) stats
