-- ===== src/Handler.antt =====
-- The checks of internal/server/handler.go on a request's path and on the bytes of a vCard.
pub mod Laws
pub mod Tokens
pub mod Http
pub mod Propfind
pub mod Collections
pub mod Reports
pub mod CardRequests
pub mod Serve
pub mod Reads
pub mod Tenants
pub mod Requests
use go_contactd.Prelude.{
  ℕ, ◌==◌, ◌&&◌, ◌||◌, not, ltb, Bytes, Bool, true, false, List, [], ◌∷◌, Option, none, some, lit,
  bytes_eq, if◌then◌else◌, any_row, map, ◌+◌, leb,
}
use go_contactd.Strings.{trim_space, is_blank, split, has_suffix}
use go_contactd.Strings.Paths.{slash, is_empty, trim_slashes, path_clean, path_elements}
use go_contactd.Store.Vcard.{replace_all, cr, lf}

-- davResourceKind
pub data ResourceKind : Type 0 where
  unknown principal addressbook card : ResourceKind

abbrev pub kind_of : (elements : List Bytes) → (has_trailing_slash : Bool) → ResourceKind
kind_of (a ∷ []) trailing = if trailing then principal else unknown
kind_of (a ∷ b ∷ []) trailing = if trailing then addressbook else unknown
kind_of (a ∷ b ∷ c ∷ []) trailing = card
kind_of _ trailing = unknown

unfoldable pub classify_dav_path : Bytes → ResourceKind
classify_dav_path p =
    if bytes_eq (trim_space p) (lit "/")
    then unknown
    else if bytes_eq (path_clean (trim_space p)) (lit "/")
    then unknown
    else kind_of (path_elements (trim_space p)) (has_suffix p (lit "/"))

abbrev pub book_of_elements : List Bytes → Bool → Option (Bytes × Bytes)
book_of_elements (user ∷ slug ∷ []) trailing =
    if is_empty user || is_empty slug then none else if trailing then some (user, slug) else none
book_of_elements _ trailing = none

-- `none` is `ok == false`.
unfoldable pub parse_addressbook_path : Bytes → Option (Bytes × Bytes)
parse_addressbook_path p = book_of_elements (path_elements (trim_space p)) (has_suffix p (lit "/"))

unfoldable pub has_ascii_control : Bytes → Bool
has_ascii_control s = any_row (λ c. ltb c 0x20 || c == 0x7F) s

-- A byte that validateVCardPayloadBytes refuses.
abbrev pub is_control : ℕ → Bool
is_control c = ltb c 0x20 && not (c == 9) && not (c == lf) && not (c == cr) || c == 0x7F

-- Whether validateVCardPayloadBytes returns no error.
unfoldable pub validate_vcard_payload_bytes : Bytes → Bool
validate_vcard_payload_bytes raw = not (any_row is_control raw)

-- strings.EqualFold with an ASCII text that has neither K nor S.
abbrev pub lower : ℕ → ℕ
lower c = if leb 65 c && leb c 90 then c + 32 else c

abbrev pub equal_fold : Bytes → Bytes → Bool
equal_fold s t = bytes_eq (map lower s) (map lower t)

pub data EnvelopeError : Type 0 where
  folded_before_begin data_before_begin trailing_data missing_envelope : EnvelopeError

abbrev pub folded : Bytes → Bool
folded [] = false
folded (c ∷ s) = c == 32 || c == 9

-- The loop over the lines, from `seenBegin` and `seenEnd`; `none` is no error.
unfoldable pub envelope_error : (seen_begin seen_end : Bool) → List Bytes → Option EnvelopeError
envelope_error seen_begin seen_end [] =
    if seen_begin && seen_end then none else some missing_envelope
envelope_error false seen_end (line ∷ rest) =
    let before = envelope_error false seen_end rest in
    let after = envelope_error true seen_end rest in
    if is_empty (trim_space line)
    then before
    else if folded line
    then some folded_before_begin
    else if equal_fold (trim_space line) (lit "BEGIN:VCARD")
    then after
    else some data_before_begin
envelope_error true false (line ∷ rest) =
    let unclosed = envelope_error true false rest in
    let closed = envelope_error true true rest in
    if not (folded line) && equal_fold (trim_space line) (lit "END:VCARD") then closed else unclosed
envelope_error true true (line ∷ rest) =
    let more = envelope_error true true rest in
    if is_empty (trim_space line) then more else some trailing_data

unfoldable pub validate_single_vcard_envelope : Bytes → Option EnvelopeError
validate_single_vcard_envelope raw =
    envelope_error false false
      (split (replace_all (replace_all raw (cr ∷ lf ∷ []) (lf ∷ [])) (cr ∷ []) (lf ∷ [])) lf)
