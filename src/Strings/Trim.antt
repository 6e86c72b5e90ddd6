-- ===== src/Strings/Trim.antt =====
-- strings.TrimSpace of a text that begins and ends with visible ASCII.
use mathlib.Core.List.{reverse, reverse-reverse, map}
use go_contactd.Prelude.{ℕ, ◌<◌, ◌≤◌, Bytes, List, [], ◌∷◌, ◌≡◌, refl, ap, ◌∙◌, ◌⊎◌, arith, false}
use go_contactd.Strings.{matched, spaces, trim_front, trim_back, trim_space, is_blank, has_prefix}

abbrev pub Visible : ℕ → Type 0
Visible c = (33 ≤ c) × (c ≤ 126)

-- No pattern begins with a visible byte.
abbrev StartHidden : List Bytes → Type 0
StartHidden [] = Unit
StartHidden ([] ∷ ps) = ⊥
StartHidden ((p ∷ _) ∷ ps) = ((p < 33) ⊎ (126 < p)) × StartHidden ps

trim_front-Visible :
    (ps : List Bytes) (c : ℕ) (s : Bytes)
    → StartHidden ps
    → Visible c
    → trim_front ps 0 (c ∷ s) ≡ c ∷ s
unfolding trim_front
trim_front-Visible ps c s h v = ground (arith, go ps h)
  where
    go : (ps : List Bytes) → StartHidden ps → matched ps (c ∷ s) ≡ 0
    go [] h = unfold matched in refl
    go ([] ∷ ps) h = absurd h
    go ((p ∷ q) ∷ ps) h = unfold matched has_prefix in ground (arith, go ps h.1)

spaces-StartHidden : StartHidden spaces × StartHidden (map reverse spaces)
unfolding spaces
spaces-StartHidden = omega arith

module _ (c : ℕ) (s : Bytes) (d : ℕ) (t : Bytes) (vc : Visible c) (last : reverse (c ∷ s) ≡ d ∷ t)
    (vd : Visible d) where
  trim_back-visible : trim_back spaces (c ∷ s) ≡ c ∷ s
  unfolding trim_back
  trim_back-visible =
      let kept : trim_front (map reverse spaces) 0 (reverse (c ∷ s)) ≡ reverse (c ∷ s) =
        rw last (trim_front-Visible (map reverse spaces) d t spaces-StartHidden.1 vd) in
      ap reverse kept ∙ reverse-reverse (c ∷ s)

  pub trim_space-visible : trim_space (c ∷ s) ≡ c ∷ s
  trim_space-visible =
      unfold trim_space in
      ap (trim_back spaces) (trim_front-Visible spaces c s spaces-StartHidden.0 vc)
      ∙ trim_back-visible

  pub is_blank-visible : is_blank (c ∷ s) ≡ false
  unfolding is_blank
  is_blank-visible = ground (arith, trim_space-visible)
