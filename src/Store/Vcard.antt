-- ===== src/Store/Vcard.antt =====
-- CanonicalizeVCard and ComputeETagHex of internal/db/store.go. SHA-256 is a parameter.
pub mod Lines
use go_contactd.Strings.{has_prefix}
use go_contactd.Prelude.{
  ℕ, zero, suc, ◌+◌, ◌-◌, ◌/◌, ◌%◌, ◌==◌, ◌&&◌, Bytes, Bool, true, false, [], ◌∷◌, ◌++◌, length,
  ltb, if◌then◌else◌,
}

-- The scan of bytes.ReplaceAll for a separator that is not empty: `skip` bytes of a match to pass.
replace_scan : (skip : ℕ) (old new : Bytes) → Bytes → Bytes
replace_scan skip old new [] = []
replace_scan (suc skip) old new (c ∷ s) = replace_scan skip old new s
replace_scan zero old new (c ∷ s) =
    let hit = has_prefix (c ∷ s) old in
    (if hit then new else c ∷ []) ++ replace_scan (if hit then length old - 1 else 0) old new s

unfoldable pub replace_all : (s old new : Bytes) → Bytes
unfolding replace_scan has_prefix
replace_all s old new = replace_scan 0 old new s

abbrev pub cr : ℕ
cr = 13

abbrev pub lf : ℕ
lf = 10

unfoldable pub canonicalize_vcard : Bytes → Bytes
unfolding replace_all
canonicalize_vcard [] = []
canonicalize_vcard (c ∷ s) =
    let no_crlf = replace_all (c ∷ s) (cr ∷ lf ∷ []) (lf ∷ []) in
    let no_cr = replace_all no_crlf (cr ∷ []) (lf ∷ []) in
    replace_all no_cr (lf ∷ []) (cr ∷ lf ∷ [])

-- hex.EncodeToString
abbrev hex_digit : ℕ → ℕ
hex_digit n = if ltb n 10 then 48 + n else 87 + n

abbrev pub hex_encode : Bytes → Bytes
hex_encode [] = []
hex_encode (b ∷ s) = hex_digit (b / 16) ∷ hex_digit (b % 16) ∷ hex_encode s

unfoldable pub compute_etag_hex : (sha256 : Bytes → Bytes) → Bytes → Bytes
compute_etag_hex sha256 canonical = hex_encode (sha256 canonical)
