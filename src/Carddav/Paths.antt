-- ===== src/Carddav/Paths.antt =====
-- Paths of internal/carddav/backend.go: what the parsers accept.
pub mod Roundtrip
use go_contactd.Prelude.{
  ◌||◌, not, Bytes, Bool, true, false, List, [], ◌∷◌, Option, none, some, if◌then◌else◌, ◌≡◌, arith,
  bytes_eq, bytes_eq_iff, any_row, ◌==◌, refl, sym, ◌∙◌, Bool-cases, inl, inr,
}
use go_contactd.Strings.{is_blank, trim_space}
use go_contactd.Strings.Paths.{is_empty, is_dot, is_dot_dot, contains_byte, path_elements}
use go_contactd.Carddav.{
  ok, card_of, addressbook_of, principal_from_context, parse_card_path_for_principal,
  parse_addressbook_path_for_principal,
}

card_of-ok :
    (principal : Bytes) (parts : List Bytes) {user slug href : Bytes}
    → card_of principal parts ≡ ok (user, slug, href)
    → (user ≡ principal)
      × (is_empty slug ≡ false)
      × (is_empty href ≡ false)
      × (contains_byte 47 href ≡ false)
      × (contains_byte 92 href ≡ false)
      × (is_dot href || is_dot_dot href ≡ false)
card_of-ok principal (u ∷ s ∷ h ∷ []) e = ground (arith, bytes_eq_iff u principal)
card_of-ok principal [] e = absurd (ground arith)
card_of-ok principal (u ∷ []) e = absurd (ground arith)
card_of-ok principal (u ∷ s ∷ []) e = absurd (ground arith)
card_of-ok principal (u ∷ s ∷ h ∷ x ∷ xs) e = absurd (ground arith)

addressbook_of-ok :
    (principal : Bytes) (parts : List Bytes) {user slug : Bytes}
    → addressbook_of principal parts ≡ ok (user, slug)
    → (user ≡ principal) × (is_empty slug ≡ false)
addressbook_of-ok principal (u ∷ s ∷ []) e = ground (arith, bytes_eq_iff u principal)
addressbook_of-ok principal [] e = absurd (ground arith)
addressbook_of-ok principal (u ∷ []) e = absurd (ground arith)
addressbook_of-ok principal (u ∷ s ∷ x ∷ xs) e = absurd (ground arith)

pub parse_card_path_for_principal-visible :
    (principal p : Bytes)
    → is_blank principal ≡ false
    → parse_card_path_for_principal (some principal) p
      ≡ card_of principal (path_elements (trim_space p))
unfolding parse_card_path_for_principal principal_from_context
parse_card_path_for_principal-visible principal p visible = rw visible refl

parse_addressbook_path_for_principal-visible :
    (principal p : Bytes)
    → is_blank principal ≡ false
    → parse_addressbook_path_for_principal (some principal) p
      ≡ addressbook_of principal (path_elements (trim_space p))
unfolding parse_addressbook_path_for_principal principal_from_context
parse_addressbook_path_for_principal-visible principal p visible = rw visible refl

-- A card path that is accepted is one of the principal's, whatever its text: the principal is not
-- blank, the path's user is the principal, the book's name is not empty, and the href is not empty,
-- "." or ".." and has neither a slash nor a backslash.
pub parse_card_path_for_principal-own :
    (principal p : Bytes) {user slug href : Bytes}
    → parse_card_path_for_principal (some principal) p ≡ ok (user, slug, href)
    → (is_blank principal ≡ false)
      × (user ≡ principal)
      × (is_empty slug ≡ false)
      × (is_empty href ≡ false)
      × (contains_byte 47 href ≡ false)
      × (contains_byte 92 href ≡ false)
      × (is_dot href || is_dot_dot href ≡ false)
unfolding parse_card_path_for_principal principal_from_context
parse_card_path_for_principal-own principal p e = elim (Bool-cases (is_blank principal)) [
  | inl blank ↦ absurd (ground arith)
  | inr visible ↦
      let (same, slug, href, slash, backslash, dots) =
        card_of-ok principal (path_elements (trim_space p))
          (sym (parse_card_path_for_principal-visible principal p visible) ∙ e) in
      (visible, same, slug, href, slash, backslash, dots)
]

pub parse_addressbook_path_for_principal-own :
    (principal p : Bytes) {user slug : Bytes}
    → parse_addressbook_path_for_principal (some principal) p ≡ ok (user, slug)
    → (is_blank principal ≡ false) × (user ≡ principal) × (is_empty slug ≡ false)
unfolding parse_addressbook_path_for_principal principal_from_context
parse_addressbook_path_for_principal-own principal p e = elim (Bool-cases (is_blank principal)) [
  | inl blank ↦ absurd (ground arith)
  | inr visible ↦
      let (same, slug) =
        addressbook_of-ok principal (path_elements (trim_space p))
          (sym (parse_addressbook_path_for_principal-visible principal p visible) ∙ e) in
      (visible, same, slug)
]
