-- ===== src/Strings.antt =====
-- What the program uses of Go's packages strings and strconv, over byte strings.
pub mod Numbers
pub mod Trim
pub mod Paths
use go_contactd.Prelude.{
  ℕ, zero, suc, ◌+◌, ◌-◌, ◌*◌, ◌/◌, ◌%◌, ◌^◌, ◌==◌, ◌&&◌, ltb, leb, Bytes, Bool, true, false, List,
  [], ◌∷◌, ◌++◌, Option, none, some, length, drop, if◌then◌else◌,
}
use mathlib.Core.List.{reverse, map}

unfoldable pub has_prefix : Bytes → Bytes → Bool
has_prefix s [] = true
has_prefix [] (p ∷ ps) = false
has_prefix (c ∷ s) (p ∷ ps) = c == p && has_prefix s ps

unfoldable pub trim_prefix : Bytes → Bytes → Bytes
unfolding has_prefix
trim_prefix s p = if has_prefix s p then drop (length p) s else s

unfoldable pub has_suffix : Bytes → Bytes → Bool
unfolding has_prefix
has_suffix s p = has_prefix (reverse s) (reverse p)

-- The runes of unicode.IsSpace, in UTF-8.
unfoldable pub spaces : List Bytes
spaces =
    (9 ∷ [])
    ∷ (10 ∷ [])
    ∷ (11 ∷ [])
    ∷ (12 ∷ [])
    ∷ (13 ∷ [])
    ∷ (32 ∷ [])
    ∷ (0xC2 ∷ 0x85 ∷ [])
    ∷ (0xC2 ∷ 0xA0 ∷ [])
    ∷ (0xE1 ∷ 0x9A ∷ 0x80 ∷ [])
    ∷ (0xE2 ∷ 0x80 ∷ 0x80 ∷ [])
    ∷ (0xE2 ∷ 0x80 ∷ 0x81 ∷ [])
    ∷ (0xE2 ∷ 0x80 ∷ 0x82 ∷ [])
    ∷ (0xE2 ∷ 0x80 ∷ 0x83 ∷ [])
    ∷ (0xE2 ∷ 0x80 ∷ 0x84 ∷ [])
    ∷ (0xE2 ∷ 0x80 ∷ 0x85 ∷ [])
    ∷ (0xE2 ∷ 0x80 ∷ 0x86 ∷ [])
    ∷ (0xE2 ∷ 0x80 ∷ 0x87 ∷ [])
    ∷ (0xE2 ∷ 0x80 ∷ 0x88 ∷ [])
    ∷ (0xE2 ∷ 0x80 ∷ 0x89 ∷ [])
    ∷ (0xE2 ∷ 0x80 ∷ 0x8A ∷ [])
    ∷ (0xE2 ∷ 0x80 ∷ 0xA8 ∷ [])
    ∷ (0xE2 ∷ 0x80 ∷ 0xA9 ∷ [])
    ∷ (0xE2 ∷ 0x80 ∷ 0xAF ∷ [])
    ∷ (0xE2 ∷ 0x81 ∷ 0x9F ∷ [])
    ∷ (0xE3 ∷ 0x80 ∷ 0x80 ∷ [])
    ∷ []

-- The length of the pattern that the text begins with, 0 if it begins with none.
unfoldable pub matched : List Bytes → Bytes → ℕ
unfolding has_prefix
matched [] s = 0
matched (p ∷ ps) s = if has_prefix s p then length p else matched ps s

-- Drops patterns from the front; `skip` bytes of one are still to pass.
unfoldable pub trim_front : List Bytes → (skip : ℕ) → Bytes → Bytes
unfolding matched
trim_front ps skip [] = []
trim_front ps (suc skip) (c ∷ s) = trim_front ps skip s
trim_front ps zero (c ∷ s) =
    let n = matched ps (c ∷ s) in
    let rest = trim_front ps (n - 1) s in if n == 0 then c ∷ s else rest

unfoldable pub trim_back : List Bytes → Bytes → Bytes
unfolding trim_front
trim_back ps s = reverse (trim_front (map reverse ps) 0 (reverse s))

unfoldable pub trim_space : Bytes → Bytes
trim_space s = trim_back spaces (trim_front spaces 0 s)

-- strings.TrimSpace(s) == ""
unfoldable pub is_blank : Bytes → Bool
is_blank s = elim (trim_space s) [ [] ↦ true | _ ∷ _ ↦ false ]

abbrev pub add_to_first : ℕ → List Bytes → List Bytes
add_to_first c [] = (c ∷ []) ∷ []
add_to_first c (p ∷ ps) = (c ∷ p) ∷ ps

-- strings.Split by one byte.
unfoldable pub split : Bytes → ℕ → List Bytes
split [] sep = [] ∷ []
split (c ∷ s) sep = let rest = split s sep in if c == sep then [] ∷ rest else add_to_first c rest

-- The decimal digits of `n`, in front of `acc`. With `n < fuel` the fuel does not run out.
digits : (fuel n : ℕ) → Bytes → Bytes
digits zero n acc = acc
digits (suc fuel) n acc =
    let more = digits fuel (n / 10) ((48 + n % 10) ∷ acc) in
    if ltb n 10 then (48 + n) ∷ acc else more

-- strconv.FormatInt and %d, for a number that is not negative.
unfoldable pub format_int : ℕ → Bytes
unfolding digits
format_int n = digits (suc n) n []

-- `negsuc n` is -(n + 1).
pub data ℤ : Type 0 where
  pos : ℕ → ℤ
  negsuc : ℕ → ℤ

abbrev int64_bound : ℕ
int64_bound = 2 ^ 63

-- The value of a run of digits, added to `acc`; `none` at any other byte.
digits_value : (acc : ℕ) → Bytes → Option ℕ
digits_value acc [] = some acc
digits_value acc (c ∷ s) =
    let rest = digits_value (acc * 10 + (c - 48)) s in if leb 48 c && leb c 57 then rest else none

parse_uint : Bytes → Option ℕ
unfolding digits_value
parse_uint [] = none
parse_uint (c ∷ s) = digits_value 0 (c ∷ s)

in_int64 : Bool → Option ℕ → Option ℤ
in_int64 negative none = none
in_int64 false (some n) = if ltb n int64_bound then some (pos n) else none
in_int64 true (some zero) = some (pos 0)
in_int64 true (some (suc n)) = if ltb n int64_bound then some (negsuc n) else none

-- strconv.ParseInt(s, 10, 64)
unfoldable pub parse_int : Bytes → Option ℤ
unfolding parse_uint in_int64
parse_int [] = none
parse_int (c ∷ s) =
    if c == 43
    then in_int64 false (parse_uint s)
    else if c == 45
    then in_int64 true (parse_uint s)
    else in_int64 false (parse_uint (c ∷ s))
