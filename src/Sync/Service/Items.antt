-- ===== src/Sync/Service/Items.antt =====
-- The items that internal/carddavx/sync.go makes of logged changes, against the changes.
use mathlib.Core.Option
use go_contactd.Prelude.{
  ℕ, ◌+◌, Bytes, Bool, true, false, List, [], ◌∷◌, Option, map, length, ◌≡◌, refl, arith, not,
}
use go_contactd.Store.Tables.{ChangeRow}
use go_contactd.Store.Changes.{to_change}
use go_contactd.Sync.Pages.{SyncPageItem, quoted, sync_page_token_revision}
use go_contactd.Sync.Pages.Collapse.{latest}
use go_contactd.Sync.Pages.Client.{outcome}
use go_contactd.Sync.History.{Consecutive, after_change, after_changes}
use go_contactd.Sync.Service.{change_item, is_stale}

abbrev pub items_of : List ChangeRow → List SyncPageItem
items_of ws = map change_item (map to_change ws)

-- The last item of an href does to a client what all the changes do in turn.
pub outcome-items_of :
    (ws : List ChangeRow) (h : Bytes) (old : Option Bytes)
    → outcome (latest h (items_of ws)) (Option.map quoted old)
      ≡ Option.map quoted (after_changes ws h old)
outcome-items_of [] h old = refl
outcome-items_of (w ∷ ws) h old =
    ground (arith, outcome-items_of ws h (after_change w h old), outcome-items_of ws h old)

-- The last change of a run is at its end, so the page's token is the head.
pub token_revision-head :
    (n : ℕ) (ws : List ChangeRow)
    → Consecutive n ws
    → sync_page_token_revision (n + length ws) (items_of ws) false ≡ n + length ws
unfolding sync_page_token_revision
token_revision-head n [] c = refl
token_revision-head n (w ∷ []) c = ground arith
token_revision-head n (w ∷ x ∷ ws) c =
    let e : n + length (w ∷ x ∷ ws) ≡ n + 1 + length (x ∷ ws) = omega arith in
    rw e (token_revision-head (n + 1) (x ∷ ws) c.1)

abbrev pub is_nil : List ChangeRow → Bool
is_nil [] = true
is_nil (x ∷ xs) = false

-- Where the log still has the last part of the changes since a token's revision, numbered one by
-- one, the check of the first change that is left refuses the token exactly if a change has been
-- lost.
pub is_stale-lost :
    (r : ℕ) (gone kept : List ChangeRow)
    → Consecutive (r + length gone) kept
    → is_stale r (r + length gone + length kept) (map to_change kept) ≡ not (is_nil gone)
unfolding is_stale
is_stale-lost r [] [] c = ground arith
is_stale-lost r (g ∷ gone) [] c = ground arith
is_stale-lost r [] (k ∷ kept) c = ground arith
is_stale-lost r (g ∷ gone) (k ∷ kept) c = ground arith
