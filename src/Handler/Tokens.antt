-- ===== src/Handler/Tokens.antt =====
-- The tokens that a decoder of package encoding/xml hands to internal/server/handler.go, and what the
-- handler does with the decoder: Token, Skip, DecodeElement into a string, and one pass over a
-- document.
use go_contactd.Prelude.{
  ℕ, zero, suc, ◌==◌, ◌-◌, ◌&&◌, ltb, Bytes, Bool, true, false, List, [], ◌∷◌, ◌++◌, Option, none,
  some, if◌then◌else◌, not,
}
use go_contactd.Strings.{is_blank}
use go_contactd.Davxml.{Name}

-- `other` is a comment, a directive or a processing instruction; after a `syntax_error`, which is an
-- error of Token, nothing is read. The end of the list is io.EOF.
pub data Token : Type 0 where
  start : Name → Token
  end : Name → Token
  char_data : Bytes → Token
  other syntax_error : Token

-- Why a body is not accepted.
pub data ParseError : Type 0 where
  invalid too_large unknown_report_type : ParseError

pub data Parsed {ℓ} (A : Type ℓ) : Type ℓ where
  parsed : A → Parsed A
  failed : ParseError → Parsed A

module _ {A B : Type 0} where
  infixl 5 ◌>>=◌
  abbrev pub ◌>>=◌ : Parsed A → (A → Parsed B) → Parsed B
  parsed a >>= f = f a
  failed e >>= f = failed e

abbrev one_more : Option ℕ → Option ℕ
one_more none = none
one_more (some n) = some (suc n)

-- Skip: how many tokens there are up to the one that ends the element that has been started, below
-- `depth` others; `none` is an error.
unfoldable pub element_length : (depth : ℕ) → List Token → Option ℕ
element_length depth [] = none
element_length depth (syntax_error ∷ ts) = none
element_length depth (start n ∷ ts) = one_more (element_length (suc depth) ts)
element_length zero (end n ∷ ts) = some 1
element_length (suc depth) (end n ∷ ts) = one_more (element_length depth ts)
element_length depth (char_data s ∷ ts) = one_more (element_length depth ts)
element_length depth (other ∷ ts) = one_more (element_length depth ts)

-- DecodeElement into a string: the text of the element, without that of the elements inside it.
unfoldable pub element_text : (depth : ℕ) → List Token → Bytes
element_text depth [] = []
element_text depth (syntax_error ∷ ts) = []
element_text depth (start n ∷ ts) = element_text (suc depth) ts
element_text zero (end n ∷ ts) = []
element_text (suc depth) (end n ∷ ts) = element_text depth ts
element_text zero (char_data s ∷ ts) = s ++ element_text zero ts
element_text (suc depth) (char_data s ∷ ts) = element_text (suc depth) ts
element_text depth (other ∷ ts) = element_text depth ts

-- What one round of a loop over the tokens does: return an error, or go on after `drop` more tokens
-- that it has read itself.
pub data Step (S : Type 0) : Type 0 where
  fail : ParseError → Step S
  next : S → (drop : ℕ) → Step S

abbrev is_error : Token → Bool
is_error syntax_error = true
is_error _ = false

module _ {S : Type 0} where
  -- dec.Skip(), and then on with `s`.
  abbrev pub skip_element : List Token → S → Step S
  skip_element ts s = elim (element_length 0 ts) [ none ↦ fail invalid | some n ↦ next s n ]

  -- dec.DecodeElement(&v, &t), and then on with `f v`.
  abbrev pub decode_element : List Token → (Bytes → S) → Step S
  decode_element ts f = skip_element ts (f (element_text 0 ts))

  -- The loop over the tokens; `skip` tokens have been read already.
  unfoldable pub run : (S → Token → List Token → Step S) → S → (skip : ℕ) → List Token → Parsed S
  run step s skip [] = parsed s
  run step s (suc skip) (t ∷ ts) = run step s skip ts
  run step s zero (t ∷ ts) = elim (is_error t) [
    | true ↦ failed invalid
    | false ↦ elim (step s t ts) [ fail e ↦ failed e | next s' n ↦ run step s' n ts ]
  ]

record Outline : Type 0 where
  root_seen : Bool
  root_closed : Bool
  depth : ℕ

abbrev outline_step : Outline → Token → List Token → Step Outline
outline_step o (start n) ts =
    if o.depth == 0 && (o.root_seen && o.root_closed)
    then fail invalid
    else next
        (record o { root_seen = if o.depth == 0 then true else o.root_seen; depth = suc o.depth }) 0
outline_step o (end n) ts =
    if ltb 0 o.depth
    then next
        (record o {
          depth = o.depth - 1;
          root_closed = if o.depth == 1 && o.root_seen then true else o.root_closed;
        })
        0
    else next o 0
outline_step o (char_data s) ts =
    if o.depth == 0 && not (is_blank s) then fail invalid else next o 0
outline_step o _ ts = next o 0

unfoldable pub validate_single_xml_document : List Token → Parsed (Unit {0})
unfolding run
validate_single_xml_document ts = do
  o ← run outline_step (record { root_seen = false; root_closed = false; depth = 0 }) 0 ts
  parsed tt
