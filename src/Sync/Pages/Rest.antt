-- ===== src/Sync/Pages/Rest.antt =====
-- The items of a page of internal/carddavx/sync.go and the items after it.
use mathlib.Core.List.{get_last?}
use go_contactd.Prelude.{
  ℕ, zero, suc, ◌<◌, ◌+◌, ◌^◌, Bytes, true, List, [], ◌∷◌, ◌++◌, Option, none, some, length, ◌≡◌,
  refl, arith, take, drop,
}
use go_contactd.Sync.Pages.{SyncPageItem, sync_page_token_revision}
use go_contactd.Sync.Pages.Collapse.{latest}
use go_contactd.Sync.Pages.Client.{outcome}

-- Revisions that are int64 numbers.
abbrev pub AllInt64 : List SyncPageItem → Type 0
AllInt64 [] = Unit
AllInt64 (it ∷ items) = (it.revision < 2 ^ 63) × AllInt64 items

pub AllInt64-take : (n : ℕ) (items : List SyncPageItem) → AllInt64 items → AllInt64 (take n items)
AllInt64-take zero items all = tt
AllInt64-take (suc n) [] all = tt
AllInt64-take (suc n) (it ∷ items) (fits, all) = (fits, AllInt64-take n items all)

pub AllInt64-drop : (n : ℕ) (items : List SyncPageItem) → AllInt64 items → AllInt64 (drop n items)
AllInt64-drop zero items all = all
AllInt64-drop (suc n) [] all = tt
AllInt64-drop (suc n) (it ∷ items) (fits, all) = AllInt64-drop n items all

pub token_revision-AllInt64 :
    (head : ℕ) (items : List SyncPageItem)
    → head < 2 ^ 63
    → AllInt64 items
    → sync_page_token_revision head items true < 2 ^ 63
unfolding sync_page_token_revision
token_revision-AllInt64 head [] fits all = fits
token_revision-AllInt64 head (it ∷ []) fits (first, all) = first
token_revision-AllInt64 head (it ∷ next ∷ items) fits (first, all) =
    token_revision-AllInt64 head (next ∷ items) fits all

pub last-drop :
    (n : ℕ) (items : List SyncPageItem)
    → n < length items
    → get_last? (drop n items) ≡ get_last? items
last-drop zero items short = refl
last-drop (suc n) [] short = absurd (omega arith)
last-drop (suc n) (it ∷ []) short = absurd (omega arith)
last-drop (suc n) (it ∷ next ∷ items) short = last-drop n (next ∷ items) (omega arith)

pub length-remaining :
    (n : ℕ) (items : List SyncPageItem)
    → n < length items
    → length (drop n items) + n ≡ length items
length-remaining zero items short = omega arith
length-remaining (suc n) [] short = absurd (omega arith)
length-remaining (suc n) (it ∷ items) short = omega (arith, length-remaining n items (omega arith))

latest-append :
    (h : Bytes) (xs ys : List SyncPageItem)
    → latest h (xs ++ ys) ≡ elim (latest h ys) [ none ↦ latest h xs | some it ↦ some it ]
latest-append h [] ys =
    elim (latest h ys) as (λ o. o ≡ elim o [ none ↦ none | some it ↦ some it ]) [
      | none ↦ refl
      | some it ↦ refl
    ]
latest-append h (it ∷ xs) ys = ground (arith, latest-append h xs ys)

pub outcome-append :
    (h : Bytes) (xs ys : List SyncPageItem) (old : Option Bytes)
    → outcome (latest h (xs ++ ys)) old ≡ outcome (latest h ys) (outcome (latest h xs) old)
outcome-append h xs ys old = rw (latest-append h xs ys) (chosen (latest h ys))
  where
    chosen :
        (o : Option SyncPageItem)
        → outcome (elim o [ none ↦ latest h xs | some it ↦ some it ]) old
          ≡ outcome o (outcome (latest h xs) old)
    chosen none = refl
    chosen (some it) = refl
