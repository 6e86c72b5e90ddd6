-- ===== src/Sync/Cursors/Oldest.antt =====
-- The cursor that the loop of oldestCursorKeyLocked in internal/carddavx/sync.go finds.
use mathlib.Core.Path.{subst}
use go_contactd.Prelude.{
  ◌<◌, Bytes, Bool, true, false, [], ◌∷◌, ◌⊎◌, inl, inr, bytes_leb, if◌then◌else◌, ◌≡◌, refl, sym,
  ap, arith, Bool-cases,
}
use go_contactd.Sync.Cursors.{SyncCursor, Page, is_older, oldest_from}

-- The cursor before which no other of the page expires; of those that expire with it, the first by
-- its key.
abbrev pub Before : Bytes × SyncCursor → Bytes × SyncCursor → Type 0
Before (k, cur) (j, other) =
    (cur.expires_at < other.expires_at)
    ⊎ ((cur.expires_at ≡ other.expires_at) × (bytes_leb k j ≡ true))

abbrev pub AllAfter : Bytes × SyncCursor → Page → Type 0
AllAfter e [] = Unit
AllAfter e (x ∷ page) = Before e x × AllAfter e page

bytes_leb-total : (s t : Bytes) → bytes_leb s t ≡ false → bytes_leb t s ≡ true
bytes_leb-total [] t e = absurd (ground arith)
bytes_leb-total (a ∷ s) [] e = refl
bytes_leb-total (a ∷ s) (b ∷ t) e = ground (arith, bytes_leb-total s t)

bytes_leb_trans :
    (s t u : Bytes) → bytes_leb s t ≡ true → bytes_leb t u ≡ true → bytes_leb s u ≡ true
bytes_leb_trans [] t u e f = refl
bytes_leb_trans (a ∷ s) [] u e f = absurd (ground arith)
bytes_leb_trans (a ∷ s) (b ∷ t) [] e f = absurd (ground arith)
bytes_leb_trans (a ∷ s) (b ∷ t) (c ∷ u) e f = ground (arith, bytes_leb_trans s t u)

bytes_leb_refl : (s : Bytes) → bytes_leb s s ≡ true
bytes_leb_refl [] = refl
bytes_leb_refl (a ∷ s) = ground (arith, bytes_leb_refl s)

Before-trans : (x y z : Bytes × SyncCursor) → Before x y → Before y z → Before x z
Before-trans (i, a) (j, b) (k, c) p q = ground (arith, bytes_leb_trans i j k)

older-Before :
    (k : Bytes) (cur : SyncCursor) (best : Bytes × SyncCursor)
    → is_older k cur best ≡ true
    → Before (k, cur) best
older-Before k cur (j, b) older = ground (arith, bytes_leb-total j k)

younger-Before :
    (k : Bytes) (cur : SyncCursor) (best : Bytes × SyncCursor)
    → is_older k cur best ≡ false
    → Before best (k, cur)
younger-Before k cur (j, b) younger = ground arith

AllAfter-trans :
    (x y : Bytes × SyncCursor) (page : Page) → Before x y → AllAfter y page → AllAfter x page
AllAfter-trans x y [] b all = tt
AllAfter-trans x y (z ∷ page) b (first, all) =
    (Before-trans x y z b first, AllAfter-trans x y page b all)

abbrev pub Has : Bytes × SyncCursor → Page → Type 0
Has e [] = ⊥
Has e (x ∷ page) = (x ≡ e) ⊎ Has e page

abbrev pub IsOldest : Bytes → Page → Type 0
IsOldest k page = (cur : SyncCursor) × Has (k, cur) page × AllAfter (k, cur) page

IsOldest-older :
    (key : Bytes) (x best : Bytes × SyncCursor) (page : Page)
    → Before x best
    → IsOldest key (x ∷ page)
    → IsOldest key (best ∷ x ∷ page)
IsOldest-older key x best page b (m, there, (first, after)) =
    (m, inr there, (Before-trans (key, m) x best first b, (first, after)))

IsOldest-younger :
    (key : Bytes) (x best : Bytes × SyncCursor) (page : Page)
    → Before best x
    → IsOldest key (best ∷ page)
    → IsOldest key (best ∷ x ∷ page)
IsOldest-younger key x best page b (m, inl here, (first, after)) =
    (m, inl here, (first, (Before-trans (key, m) best x first b, after)))
IsOldest-younger key x best page b (m, inr there, (first, after)) =
    (m, inr (inr there), (first, (Before-trans (key, m) best x first b, after)))

pub oldest_from-IsOldest :
    (best : Bytes × SyncCursor) (page : Page) → IsOldest (oldest_from best page) (best ∷ page)
oldest_from-IsOldest (j, b) [] = (b, inl refl, (inr (refl, bytes_leb_refl j), tt))
oldest_from-IsOldest best ((k, cur) ∷ page) =
    let chosen = λ (b : Bool). oldest_from (if b then (k, cur) else best) page in
    let all = best ∷ (k, cur) ∷ page in
    elim (Bool-cases (is_older k cur best)) [
      | inl older ↦
          subst (λ key. IsOldest key all) (sym (ap chosen older))
            (IsOldest-older _ (k, cur) best page (older-Before k cur best older)
              (oldest_from-IsOldest (k, cur) page))
      | inr younger ↦
          subst (λ key. IsOldest key all) (sym (ap chosen younger))
            (IsOldest-younger _ (k, cur) best page (younger-Before k cur best younger)
              (oldest_from-IsOldest best page))
    ]
