-- ===== src/Strings/Numbers.antt =====
-- Decimal numbers of package strconv: printing and parsing.
use mathlib.Core.List.{reverse, reverse-append}
use go_contactd.Prelude.{
  ℕ, zero, suc, ◌+◌, ◌/◌, ◌%◌, ◌^◌, ◌<◌, ◌≤◌, Bytes, [], ◌∷◌, ◌++◌, some, length, ◌≡◌, refl, arith,
  ltb, Bool-cases, inl, inr,
}
use go_contactd.Strings.{digits, format_int, digits_value, parse_int, pos, split}

digits_value-digits :
    (fuel n : ℕ) (acc : Bytes) → n < fuel → digits_value 0 (digits fuel n acc) ≡ digits_value n acc
unfolding digits digits_value
digits_value-digits zero n acc h = elim h [ ]
digits_value-digits (suc fuel) n acc h = elim (Bool-cases (ltb n 10)) [
  | inl small ↦ rw small (ground arith)
  | inr large ↦ rw large (ground (arith, digits_value-digits fuel (n / 10) ((48 + n % 10) ∷ acc)))
]

abbrev pub AllDigits : Bytes → Type 0
AllDigits [] = Unit
AllDigits (c ∷ s) = (48 ≤ c) × (c ≤ 57) × AllDigits s

digits-AllDigits : (fuel n : ℕ) (acc : Bytes) → AllDigits acc → AllDigits (digits fuel n acc)
unfolding digits
digits-AllDigits zero n acc h = h
digits-AllDigits (suc fuel) n acc h = elim (Bool-cases (ltb n 10)) [
  | inl small ↦ rw small (ground (arith, h))
  | inr large ↦
      rw large (digits-AllDigits fuel (n / 10) ((48 + n % 10) ∷ acc) (omega arith, omega arith, h))
]

pub format_int-AllDigits : (n : ℕ) → AllDigits (format_int n)
unfolding format_int
format_int-AllDigits n = digits-AllDigits (suc n) n [] tt

digits-grows : (fuel n : ℕ) (acc : Bytes) → n < fuel → length acc < length (digits fuel n acc)
unfolding digits
digits-grows zero n acc h = elim h [ ]
digits-grows (suc fuel) n acc h = elim (Bool-cases (ltb n 10)) [
  | inl small ↦ rw small (omega arith)
  | inr large ↦ rw large (ground (arith, digits-grows fuel (n / 10) ((48 + n % 10) ∷ acc)))
]

pub length-format_int : (n : ℕ) → 0 < length (format_int n)
unfolding format_int
length-format_int n = digits-grows (suc n) n [] (omega arith)

parse_int-digits :
    (s : Bytes) (n : ℕ)
    → AllDigits s
    → 0 < length s
    → digits_value 0 s ≡ some n
    → n < 2 ^ 63
    → parse_int s ≡ some (pos n)
unfolding parse_int
parse_int-digits [] n d l v h = absurd (omega arith)
parse_int-digits (c ∷ s) n d l v h = ground arith

-- A number that fits in an int64 is parsed back from its digits.
pub parse_int-format_int : (n : ℕ) → n < 2 ^ 63 → parse_int (format_int n) ≡ some (pos n)
unfolding digits_value
parse_int-format_int n h =
    parse_int-digits (format_int n) n (format_int-AllDigits n) (length-format_int n)
      (unfold format_int in digits_value-digits (suc n) n [] (omega arith)) h

-- Digits hold no colon.
pub split-digits-colon : (s t : Bytes) → AllDigits s → split (s ++ 58 ∷ t) 58 ≡ s ∷ split t 58
unfolding split
split-digits-colon [] t d = refl
split-digits-colon (c ∷ s) t d = ground (arith, split-digits-colon s t d.2)

pub split-digits : (s : Bytes) → AllDigits s → split s 58 ≡ s ∷ []
unfolding split
split-digits [] d = refl
split-digits (c ∷ s) d = ground (arith, split-digits s d.2)

AllDigits-append : (s t : Bytes) → AllDigits s → AllDigits t → AllDigits (s ++ t)
AllDigits-append [] t hs ht = ht
AllDigits-append (c ∷ s) t hs ht = (hs.0, hs.1, AllDigits-append s t hs.2 ht)

pub AllDigits-reverse : (s : Bytes) → AllDigits s → AllDigits (reverse s)
AllDigits-reverse [] d = tt
AllDigits-reverse (c ∷ s) d =
    rw (reverse-append (c ∷ []) s)
      (AllDigits-append (reverse s) (c ∷ []) (AllDigits-reverse s d.2) (d.0, d.1, tt))
