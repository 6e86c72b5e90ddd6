-- ===== src/Carddav/Paths/Roundtrip.antt =====
-- The path of a card, as internal/carddavx/sync.go writes it, parsed by internal/carddav/backend.go.
use mathlib.Core.List.{reverse, reverse-append, reverse-reverse, append-nil, append_assoc}
use go_contactd.Prelude.{
  ℕ, ◌==◌, ◌||◌, Bytes, false, [], ◌∷◌, ◌++◌, some, ◌≡◌, refl, sym, ap, ◌∙◌, arith, bytes_eq_refl,
}
use go_contactd.Strings.{split, trim_front, trim_back, matched, has_prefix, is_blank, trim_space}
use go_contactd.Strings.Trim.{Visible, trim_space-visible}
use go_contactd.Strings.Paths.{
  slash, contains_byte, is_empty, is_dot, is_dot_dot, trim_slashes, clean_elements, join_elements,
  path_clean, path_elements, rooted,
}
use go_contactd.Sync.Pages.{full_href}
use go_contactd.Carddav.{ok, card_of, parse_card_path_for_principal}
use go_contactd.Carddav.Paths.{parse_card_path_for_principal-visible}

-- An element of a path that path.Clean leaves alone.
pub record IsName (s : Bytes) : Type 0 where
  pub no_slash : contains_byte slash s ≡ false
  pub not_empty : is_empty s ≡ false
  pub not_dot : is_dot s ≡ false
  pub not_dot_dot : is_dot_dot s ≡ false

abbrev pub EndsVisible : Bytes → Type 0
EndsVisible s = (d : ℕ) × (t : Bytes) × (reverse s ≡ d ∷ t) × Visible d

split-no_slash :
    (s t : Bytes) → contains_byte slash s ≡ false → split (s ++ slash ∷ t) slash ≡ s ∷ split t slash
unfolding split
split-no_slash [] t e = ground arith
split-no_slash (c ∷ s) t e = ground (arith, split-no_slash s t)

split-last : (s : Bytes) → contains_byte slash s ≡ false → split s slash ≡ s ∷ []
unfolding split
split-last [] e = refl
split-last (c ∷ s) e = ground (arith, split-last s)

contains_byte-append :
    (c : ℕ) (s t : Bytes) → contains_byte c (s ++ t) ≡ contains_byte c s || contains_byte c t
contains_byte-append c [] t = refl
contains_byte-append c (x ∷ s) t = ground (arith, contains_byte-append c s t)

contains_byte-reverse : (c : ℕ) (s : Bytes) → contains_byte c (reverse s) ≡ contains_byte c s
contains_byte-reverse c [] = refl
contains_byte-reverse c (x ∷ s) =
    ap (contains_byte c) (reverse-append (x ∷ []) s)
    ∙ contains_byte-append c (reverse s) (x ∷ [])
    ∙ ground (arith, contains_byte-reverse c s)

trim_front-name :
    (c : ℕ) (s : Bytes) → (c == slash) ≡ false → trim_front ((slash ∷ []) ∷ []) 0 (c ∷ s) ≡ c ∷ s
unfolding trim_front matched has_prefix
trim_front-name c s e = ground arith

trim_front-slash :
    (s : Bytes) → trim_front ((slash ∷ []) ∷ []) 0 (slash ∷ s) ≡ trim_front ((slash ∷ []) ∷ []) 0 s
unfolding trim_front matched has_prefix
trim_front-slash s = ground arith

append-not_empty : (s : Bytes) (c : ℕ) → is_empty (s ++ c ∷ []) ≡ false
append-not_empty [] c = refl
append-not_empty (x ∷ s) c = refl

no_slash_first :
    (s t : Bytes)
    → contains_byte slash s ≡ false
    → is_empty s ≡ false
    → trim_front ((slash ∷ []) ∷ []) 0 (s ++ t) ≡ s ++ t
no_slash_first [] t e n = absurd (ground arith)
no_slash_first (c ∷ s) t e n = trim_front-name c (s ++ t) (ground arith)

reverse-not_empty : (s : Bytes) → is_empty s ≡ false → is_empty (reverse s) ≡ false
reverse-not_empty [] e = e
reverse-not_empty (c ∷ s) e = rw (reverse-append (c ∷ []) s) (append-not_empty (reverse s) c)

trim_back-name : (p h : Bytes) → IsName h → trim_back ((slash ∷ []) ∷ []) (p ++ h) ≡ p ++ h
unfolding trim_back
trim_back-name p h n =
    ap (λ x. reverse (trim_front ((slash ∷ []) ∷ []) 0 x)) (reverse-append p h)
    ∙ ap reverse (
        no_slash_first (reverse h) (reverse p) (contains_byte-reverse slash h ∙ n.no_slash)
          (reverse-not_empty h n.not_empty))
    ∙ ap reverse (sym (reverse-append p h))
    ∙ reverse-reverse (p ++ h)

module _ (u s h : Bytes) (nu : IsName u) (ns : IsName s) (nh : IsName h) where
  abbrev bare : Bytes
  bare = u ++ slash ∷ (s ++ slash ∷ h)

  split-bare : split bare slash ≡ u ∷ s ∷ h ∷ []
  split-bare =
      split-no_slash u (s ++ slash ∷ h) nu.no_slash
      ∙ ap (◌∷◌ u) (split-no_slash s h ns.no_slash ∙ ap (◌∷◌ s) (split-last h nh.no_slash))

  split-rooted : split (slash ∷ bare) slash ≡ [] ∷ u ∷ s ∷ h ∷ []
  split-rooted = split-no_slash [] bare refl ∙ ap (◌∷◌ []) split-bare

  cleaned : clean_elements [] ([] ∷ u ∷ s ∷ h ∷ []) ≡ h ∷ s ∷ u ∷ []
  unfolding clean_elements
  cleaned = ground (
    arith, nu.not_empty, nu.not_dot, nu.not_dot_dot, ns.not_empty, ns.not_dot, ns.not_dot_dot,
    nh.not_empty, nh.not_dot, nh.not_dot_dot,
  )

  path_clean-rooted : path_clean (slash ∷ bare) ≡ slash ∷ bare
  unfolding path_clean
  path_clean-rooted =
      ap (λ es. rooted (join_elements (clean_elements [] es) [])) split-rooted
      ∙ ap (λ kept. rooted (join_elements kept [])) cleaned
      ∙ unfold join_elements in ap (λ x. slash ∷ (u ++ slash ∷ (s ++ slash ∷ x))) (append-nil h)

  as_suffix : bare ≡ (u ++ slash ∷ (s ++ slash ∷ [])) ++ h
  as_suffix = simp append_assoc

  trim_slashes-rooted : trim_slashes (slash ∷ bare) ≡ bare
  unfolding trim_slashes
  trim_slashes-rooted =
      ap (trim_back ((slash ∷ []) ∷ []))
        (trim_front-slash bare ∙ no_slash_first u _ nu.no_slash nu.not_empty)
      ∙ ap (trim_back ((slash ∷ []) ∷ [])) as_suffix
      ∙ trim_back-name (u ++ slash ∷ (s ++ slash ∷ [])) h nh
      ∙ sym as_suffix

  path_elements-rooted : path_elements (slash ∷ bare) ≡ u ∷ s ∷ h ∷ []
  unfolding path_elements
  path_elements-rooted =
      ap (λ x. split (trim_slashes x) slash) path_clean-rooted
      ∙ ap (λ x. split x slash) trim_slashes-rooted
      ∙ split-bare

  trim_space-full_href : EndsVisible h → trim_space (slash ∷ bare) ≡ slash ∷ bare
  trim_space-full_href (d, t, e, v) =
      trim_space-visible slash bare d (t ++ reverse (slash ∷ (u ++ slash ∷ (s ++ slash ∷ []))))
        (omega arith, omega arith)
        (ap (λ x. reverse (slash ∷ x)) as_suffix
          ∙ reverse-append (slash ∷ (u ++ slash ∷ (s ++ slash ∷ []))) h
          ∙ ap (λ x. x ++ reverse (slash ∷ (u ++ slash ∷ (s ++ slash ∷ [])))) e)
        v

  card_of-names : contains_byte 92 h ≡ false → card_of u (u ∷ s ∷ h ∷ []) ≡ ok (u, s, h)
  card_of-names no_backslash = ground (
    arith,
    bytes_eq_refl u,
    nu.not_empty,
    ns.not_empty,
    nh.not_empty,
    nh.no_slash,
    nh.not_dot,
    nh.not_dot_dot,
  )

  -- The path that a sync writes for a card is parsed back, for its owner, to the user, the book and
  -- the href it was made of, when the three are elements that path.Clean leaves alone, the user is
  -- not blank, and the href has no backslash and ends with a visible character.
  pub parse_card_path_for_principal-full_href :
      is_blank u ≡ false
      → contains_byte 92 h ≡ false
      → EndsVisible h
      → parse_card_path_for_principal (some u) (full_href u s h) ≡ ok (u, s, h)
  parse_card_path_for_principal-full_href visible no_backslash ends =
      parse_card_path_for_principal-visible u (full_href u s h) visible
      ∙ ap (λ x. card_of u (path_elements x)) (trim_space-full_href ends)
      ∙ ap (card_of u) path_elements-rooted
      ∙ card_of-names no_backslash
