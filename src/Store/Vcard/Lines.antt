-- ===== src/Store/Vcard/Lines.antt =====
-- The three replacements of CanonicalizeVCard against one pass.
use go_contactd.Prelude.{
  ℕ, ◌==◌, Bytes, Bool, true, false, [], ◌∷◌, ◌≡◌, refl, arith, if◌then◌else◌, List,
}
use go_contactd.Strings.{has_prefix, split, add_to_first}
use go_contactd.Store.Vcard.{replace_scan, replace_all, cr, lf, canonicalize_vcard}

-- One pass: each of CR LF, CR and LF ends a line, and a line ends in CR LF. `after_cr` says that the
-- byte before was a CR, whose line end is written.
unfoldable pub line_ends : Bool → Bytes → Bytes
line_ends after_cr [] = []
line_ends after_cr (c ∷ s) =
    let rest = line_ends (c == cr) s in
    if c == cr
    then cr ∷ lf ∷ rest
    else if c == lf
    then (if after_cr then rest else cr ∷ lf ∷ rest)
    else c ∷ rest

-- The passes, one byte at a time.
drop_crlf : Bytes → Bytes
drop_crlf s = replace_scan 0 (cr ∷ lf ∷ []) (lf ∷ []) s

drop_cr : Bytes → Bytes
drop_cr s = replace_scan 0 (cr ∷ []) (lf ∷ []) s

add_cr : Bytes → Bytes
add_cr s = replace_scan 0 (lf ∷ []) (cr ∷ lf ∷ []) s

passes : Bytes → Bytes
passes s = add_cr (drop_cr (drop_crlf s))

skipped : Bytes → Bytes
skipped s = add_cr (drop_cr (replace_scan 1 (cr ∷ lf ∷ []) (lf ∷ []) s))

passes-plain :
    (c : ℕ) (s : Bytes)
    → (c == cr) ≡ false
    → passes (c ∷ s) ≡ (if c == lf then cr ∷ lf ∷ passes s else c ∷ passes s)
unfolding passes add_cr drop_cr drop_crlf replace_scan has_prefix
passes-plain c s h = ground arith

starts_lf : Bytes → Bool
unfolding has_prefix
starts_lf s = has_prefix s (lf ∷ [])

passes-cr :
    (c : ℕ) (s : Bytes)
    → (c == cr) ≡ true
    → passes (c ∷ s) ≡ cr ∷ lf ∷ (if starts_lf s then skipped s else passes s)
unfolding passes skipped add_cr drop_cr drop_crlf replace_scan starts_lf
passes-cr c s h = ground arith

skipped-step : (c : ℕ) (s : Bytes) → skipped (c ∷ s) ≡ passes s
unfolding passes skipped add_cr drop_cr drop_crlf replace_scan
skipped-step c s = refl

passes-line_ends :
    (s : Bytes)
    → (passes s ≡ line_ends false s)
      × ((if starts_lf s then skipped s else passes s) ≡ line_ends true s)
unfolding line_ends starts_lf
passes-line_ends [] = unfold passes add_cr drop_cr drop_crlf replace_scan in (refl, refl)
passes-line_ends (c ∷ s) =
    let (ih, ih_cr) = passes-line_ends s in
    ground (arith, ih, ih_cr, passes-plain c s, passes-cr c s, skipped-step c s)

-- The three replacements of a card's text do what one pass over its bytes does that writes CR LF
-- for each line end: CR LF, CR or LF.
pub canonicalize_vcard-line_ends : (s : Bytes) → canonicalize_vcard s ≡ line_ends false s
unfolding canonicalize_vcard line_ends
canonicalize_vcard-line_ends [] = refl
canonicalize_vcard-line_ends (c ∷ s) =
    unfold replace_all passes add_cr drop_cr drop_crlf in (passes-line_ends (c ∷ s)).0

-- The lines of a text whose lines end in CR LF, CR or LF.
unfoldable pub split_lines : (after_cr : Bool) → Bytes → List Bytes
split_lines after_cr [] = [] ∷ []
split_lines after_cr (c ∷ s) =
    let rest = split_lines (c == cr) s in
    if c == cr
    then [] ∷ rest
    else if c == lf
    then (if after_cr then rest else [] ∷ rest)
    else add_to_first c rest

split_lines-line_ends : (b : Bool) (s : Bytes) → split_lines false (line_ends b s) ≡ split_lines b s
unfolding line_ends split_lines
split_lines-line_ends b [] = refl
split_lines-line_ends b (c ∷ s) =
    ground (arith, split_lines-line_ends true s, split_lines-line_ends false s)

-- A card and its canonical form have the same lines.
pub split_lines-canonicalize_vcard :
    (s : Bytes) → split_lines false (canonicalize_vcard s) ≡ split_lines false s
split_lines-canonicalize_vcard s = rw canonicalize_vcard-line_ends (split_lines-line_ends false s)

-- The first two passes, without the third.
lf_only : Bytes → Bytes
lf_only s = drop_cr (drop_crlf s)

lf_skipped : Bytes → Bytes
lf_skipped s = drop_cr (replace_scan 1 (cr ∷ lf ∷ []) (lf ∷ []) s)

lf_only-plain : (c : ℕ) (s : Bytes) → (c == cr) ≡ false → lf_only (c ∷ s) ≡ c ∷ lf_only s
unfolding lf_only drop_cr drop_crlf replace_scan has_prefix
lf_only-plain c s h = ground arith

lf_only-cr :
    (c : ℕ) (s : Bytes)
    → (c == cr) ≡ true
    → lf_only (c ∷ s) ≡ lf ∷ (if starts_lf s then lf_skipped s else lf_only s)
unfolding lf_only lf_skipped drop_cr drop_crlf replace_scan starts_lf
lf_only-cr c s h = ground arith

lf_skipped-step : (c : ℕ) (s : Bytes) → lf_skipped (c ∷ s) ≡ lf_only s
unfolding lf_only lf_skipped drop_cr drop_crlf replace_scan
lf_skipped-step c s = refl

split-lf_only :
    (s : Bytes)
    → (split (lf_only s) lf ≡ split_lines false s)
      × (split (if starts_lf s then lf_skipped s else lf_only s) lf ≡ split_lines true s)
unfolding split_lines starts_lf split
split-lf_only [] = unfold lf_only drop_cr drop_crlf replace_scan in (refl, refl)
split-lf_only (c ∷ s) =
    let (ih, ih_cr) = split-lf_only s in
    ground (arith, ih, ih_cr, lf_only-plain c s, lf_only-cr c s, lf_skipped-step c s)

-- Two replacements and a split find the lines that end in CR LF, CR or LF.
pub split-replace_all :
    (s : Bytes)
    → split (replace_all (replace_all s (cr ∷ lf ∷ []) (lf ∷ [])) (cr ∷ []) (lf ∷ [])) lf
      ≡ split_lines false s
split-replace_all s = unfold replace_all lf_only drop_cr drop_crlf in (split-lf_only s).0
