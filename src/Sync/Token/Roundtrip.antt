-- ===== src/Sync/Token/Roundtrip.antt =====
-- Sync tokens of internal/carddavx/sync.go are parsed back.
use mathlib.Core.List.{reverse, reverse-append, reverse-reverse, append_assoc}
use go_contactd.Prelude.{
  ℕ, zero, suc, Bytes, [], ◌∷◌, ◌++◌, ◌≡◌, ◌<◌, ◌^◌, refl, sym, ap, ◌∙◌, arith, false, length, lit,
}
use go_contactd.Strings.{has_prefix, trim_prefix, trim_space, is_blank, split, format_int}
use go_contactd.Strings.Trim.{Visible, trim_space-visible, is_blank-visible}
use go_contactd.Strings.Numbers.{
  AllDigits, AllDigits-reverse, format_int-AllDigits, length-format_int, parse_int-format_int,
  split-digits-colon, split-digits,
}
use go_contactd.Sync.Token.{sync_token_prefix, ok, format_sync_token, parse_parts, parse_sync_token}

parse_parts-format :
    (b r : ℕ)
    → 0 < b
    → b < 2 ^ 63
    → r < 2 ^ 63
    → parse_parts (format_int b ∷ format_int r ∷ [])
      ≡ ok (record { addressbook_id = b; revision = r })
unfolding parse_parts
parse_parts-format zero r pos fits rfits = absurd (omega arith)
parse_parts-format (suc b) r pos fits rfits =
    rw (parse_int-format_int (suc b) fits, parse_int-format_int r rfits)

parse_after_prefix :
    (rest : Bytes)
    → is_blank (sync_token_prefix ++ rest) ≡ false
    → parse_sync_token (sync_token_prefix ++ rest) ≡ parse_parts (split rest 58)
unfolding parse_sync_token trim_prefix has_prefix
parse_after_prefix rest h = ground arith

-- The last byte of a token is a digit.
ends_in_digit :
    (s : Bytes) (n : ℕ) → (d : ℕ) × (t : Bytes) × (reverse (s ++ format_int n) ≡ d ∷ t) × Visible d
ends_in_digit s n =
    go (reverse (format_int n)) refl (AllDigits-reverse (format_int n) (format_int-AllDigits n))
  where
    go :
        (r : Bytes)
        → reverse (format_int n) ≡ r
        → AllDigits r
        → (d : ℕ) × (t : Bytes) × (reverse (s ++ format_int n) ≡ d ∷ t) × Visible d
    go [] e a =
        let none_left : format_int n ≡ [] = sym (reverse-reverse (format_int n)) ∙ ap reverse e in
        absurd (omega (arith, ap length none_left, length-format_int n))
    go (d ∷ t) e a = (d, t ++ reverse s, rw (reverse-append, e), (omega arith, omega arith))

module _ (b r : ℕ) where
  abbrev head : Bytes
  head = sync_token_prefix ++ (format_int b ++ 58 ∷ [])

  split_token : format_sync_token b r ≡ head ++ format_int r
  unfolding format_sync_token
  split_token = simp append_assoc

  -- What follows the first byte of a token.
  abbrev after_u : Bytes
  after_u = lit "rn:contactd:sync:" ++ (format_int b ++ 58 ∷ format_int r)

  token_end : (d : ℕ) × (t : Bytes) × (reverse (format_sync_token b r) ≡ d ∷ t) × Visible d
  token_end = let (d, t, e, v) = ends_in_digit head r in (d, t, ap reverse split_token ∙ e, v)

  pub trim_space-format_sync_token : trim_space (format_sync_token b r) ≡ format_sync_token b r
  unfolding format_sync_token
  trim_space-format_sync_token =
      let (d, t, e, v) = token_end in
      trim_space-visible 117 after_u d t (omega arith, omega arith) e v

  pub is_blank-format_sync_token : is_blank (format_sync_token b r) ≡ false
  unfolding format_sync_token
  is_blank-format_sync_token =
      let (d, t, e, v) = token_end in
      is_blank-visible 117 after_u d t (omega arith, omega arith) e v

  -- A token that the server issues is parsed back to the book and the revision that it was issued
  -- for, as long as both are int64 numbers and the book's id is positive.
  pub parse_sync_token-format_sync_token :
      0 < b
      → b < 2 ^ 63
      → r < 2 ^ 63
      → parse_sync_token (format_sync_token b r) ≡ ok (record { addressbook_id = b; revision = r })
  parse_sync_token-format_sync_token positive fits rfits =
      let blank = is_blank-format_sync_token in
      let parts : split (format_int b ++ 58 ∷ format_int r) 58 ≡ format_int b ∷ format_int r ∷ [] =
        split-digits-colon (format_int b) (format_int r) (format_int-AllDigits b)
        ∙ ap (◌∷◌ (format_int b)) (split-digits (format_int r) (format_int-AllDigits r)) in
      unfold format_sync_token in
      parse_after_prefix (format_int b ++ 58 ∷ format_int r) blank
      ∙ ap parse_parts parts
      ∙ parse_parts-format b r positive fits rfits
