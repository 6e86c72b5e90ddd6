-- ===== src/Handler/Laws.antt =====
-- The checks of internal/server/handler.go agree with each other and with what the store keeps.
use go_contactd.Prelude.{
  not, Bytes, Bool, true, false, List, [], ◌∷◌, some, lit, bytes_eq, bytes_eq_iff, any_row, ◌≡◌,
  refl, sym, ap, ◌∙◌, arith, Bool-cases, inl, inr,
}
use go_contactd.Strings.{trim_space, split, has_suffix, has_prefix, matched, trim_front, trim_back}
use go_contactd.Strings.Paths.{
  slash, trim_slashes, path_clean, path_elements, clean_elements, join_elements,
}
use go_contactd.Store.Vcard.{canonicalize_vcard}
use go_contactd.Store.Vcard.Lines.{
  line_ends, split-replace_all, split_lines-canonicalize_vcard, canonicalize_vcard-line_ends,
}
use go_contactd.Handler.{
  ResourceKind, kind_of, book_of_elements, classify_dav_path, parse_addressbook_path, is_control,
  validate_vcard_payload_bytes, validate_single_vcard_envelope, envelope_error,
}

-- The envelope check answers the same for a card and for the canonical text that the store keeps of
-- it.
pub validate_single_vcard_envelope-canonicalize_vcard :
    (raw : Bytes)
    → validate_single_vcard_envelope (canonicalize_vcard raw) ≡ validate_single_vcard_envelope raw
unfolding validate_single_vcard_envelope
validate_single_vcard_envelope-canonicalize_vcard raw = ap (envelope_error false false) (
    split-replace_all (canonicalize_vcard raw)
    ∙ split_lines-canonicalize_vcard raw
    ∙ sym (split-replace_all raw))

controls-line_ends :
    (b : Bool) (s : Bytes) → any_row is_control (line_ends b s) ≡ any_row is_control s
unfolding line_ends
controls-line_ends b [] = refl
controls-line_ends b (c ∷ s) = ground (arith, controls-line_ends true s, controls-line_ends false s)

-- The check for control bytes answers the same for a card and for the canonical text that the store
-- keeps of it.
validate_vcard_payload_bytes-canonicalize_vcard :
    (raw : Bytes)
    → validate_vcard_payload_bytes (canonicalize_vcard raw) ≡ validate_vcard_payload_bytes raw
unfolding validate_vcard_payload_bytes
validate_vcard_payload_bytes-canonicalize_vcard raw =
    ap (λ s. not (any_row is_control s)) (canonicalize_vcard-line_ends raw)
    ∙ ap not (controls-line_ends false raw)

root_elements : split (trim_slashes (lit "/")) slash ≡ [] ∷ []
unfolding split trim_slashes trim_back trim_front matched has_prefix
root_elements = refl

root_clean : path_clean (lit "/") ≡ lit "/"
unfolding path_clean clean_elements join_elements split
root_clean = refl

kind_of-book :
    (elements : List Bytes) (trailing : Bool) {at : Bytes × Bytes}
    → book_of_elements elements trailing ≡ some at
    → kind_of elements trailing ≡ ResourceKind.addressbook
kind_of-book (u ∷ s ∷ []) trailing e = ground arith
kind_of-book [] trailing e = absurd (ground arith)
kind_of-book (u ∷ []) trailing e = absurd (ground arith)
kind_of-book (u ∷ s ∷ h ∷ x) trailing e = absurd (ground arith)

not_root :
    (elements : List Bytes) (trailing : Bool) {at : Bytes × Bytes}
    → book_of_elements elements trailing ≡ some at
    → elements ≡ [] ∷ []
    → ⊥
not_root (u ∷ s ∷ []) trailing e r = ground arith
not_root [] trailing e r = ground arith
not_root (u ∷ []) trailing e r = ground arith
not_root (u ∷ s ∷ h ∷ x) trailing e r = ground arith

-- A path from which the handler reads an address book is classified as one of an address book.
classify_dav_path-parse_addressbook_path :
    (p : Bytes) {at : Bytes × Bytes}
    → parse_addressbook_path p ≡ some at
    → classify_dav_path p ≡ ResourceKind.addressbook
unfolding parse_addressbook_path classify_dav_path path_elements
classify_dav_path-parse_addressbook_path p e =
    elim (Bool-cases (bytes_eq (path_clean (trim_space p)) (lit "/"))) [
      | inl root ↦ absurd (
          not_root _ (has_suffix p (lit "/")) e
            (ap (λ x. split (trim_slashes x) slash) ((bytes_eq_iff _ _).0 root) ∙ root_elements))
      | inr inner ↦ elim (Bool-cases (bytes_eq (trim_space p) (lit "/"))) [
        | inl root ↦ absurd (
            not_root _ (has_suffix p (lit "/")) e (
              ap (λ x. split (trim_slashes (path_clean x)) slash) ((bytes_eq_iff _ _).0 root)
              ∙ ap (λ x. split (trim_slashes x) slash) root_clean
              ∙ root_elements))
        | inr other ↦ ground (
          arith,
          kind_of-book (split (trim_slashes (path_clean (trim_space p))) slash)
              (has_suffix p (lit "/")),
        )
      ]
    ]
