-- ===== src/Sync/Cursors/Eviction.antt =====
-- The eviction loop of the cursor cache in internal/carddavx/sync.go.
use mathlib.Core.Path.{subst}
use go_contactd.Prelude.{
  ℕ, zero, suc, ◌≤◌, ◌<◌, Bytes, Bool, true, false, [], ◌∷◌, ◌⊎◌, inl, inr, bytes_eq, bytes_eq_refl,
  if◌then◌else◌, refl, ◌+◌, sym, length, ◌≡◌, arith, any_row, Bool-cases,
}
use go_contactd.Sync.Cursors.Oldest.{Has, AllAfter, oldest_from-IsOldest}
use go_contactd.Sync.Cursors.{
  SyncCursor, Page, Caps, is_older, oldest_from, delete_cursor, count_cursor_items,
  oldest_cursor_key, cursor_cache_over_cap, evict_cursors, evict_cursors_to_cap,
}

abbrev has_key : Bytes → Page → Bool
has_key k page = any_row (λ (e : Bytes × SyncCursor). bytes_eq e.0 k) page

length-delete : (k : Bytes) (page : Page) → length (delete_cursor k page) ≤ length page
unfolding delete_cursor
length-delete k [] = omega arith
length-delete k (e ∷ page) = ground (arith, length-delete k page)

length-delete-has_key :
    (k : Bytes) (page : Page) → has_key k page ≡ true → length (delete_cursor k page) < length page
unfolding delete_cursor
length-delete-has_key k [] h = absurd (ground arith)
length-delete-has_key k (e ∷ page) h =
    ground (arith, length-delete-has_key k page, length-delete k page)

oldest_from-has_key :
    (best : Bytes × SyncCursor) (page : Page)
    → (bytes_eq best.0 (oldest_from best page) ≡ true)
      ⊎ (has_key (oldest_from best page) page ≡ true)
oldest_from-has_key best [] = inl (bytes_eq_refl best.0)
oldest_from-has_key best ((k, cur) ∷ page) = elim (Bool-cases (is_older k cur best)) [
  | inl older ↦ ground (arith, oldest_from-has_key (k, cur) page)
  | inr younger ↦ ground (arith, oldest_from-has_key best page)
]

-- A round of the loop deletes a cursor that is there.
oldest_cursor_key-shorter :
    (e : Bytes × SyncCursor) (page : Page)
    → length (delete_cursor (oldest_from e page) (e ∷ page)) < length (e ∷ page)
oldest_cursor_key-shorter e page =
    length-delete-has_key (oldest_from e page) (e ∷ page)
      (ground (arith, oldest_from-has_key e page))

abbrev pub others : Bytes → Page → Page
others k [] = []
others k (e ∷ page) = if bytes_eq e.0 k then others k page else e ∷ others k page

abbrev pub total_items : Page → ℕ
total_items [] = 0
total_items ((k, cur) ∷ page) = length cur.items + total_items page

-- A cap of 0 is off.
abbrev pub Within : Caps → Page → Type 0
Within caps page =
    ((caps.max_entries ≡ 0) ⊎ (length page ≤ caps.max_entries))
    × ((caps.max_total_items ≡ 0) ⊎ (total_items page ≤ caps.max_total_items))

-- As long as the page is not within the caps, its oldest cursor goes.
pub data Evicts (caps : Caps) : Page → Page → Type 0 where
  done : {page : Page} → Within caps page → Evicts caps page page
  oldest :
      {page kept : Page} (k : Bytes) (cur : SyncCursor)
      → ¬ (Within caps page)
      → Has (k, cur) page
      → AllAfter (k, cur) page
      → Evicts caps (others k page) kept
      → Evicts caps page kept

count_cursor_items-total : (page : Page) → count_cursor_items page ≡ total_items page
unfolding count_cursor_items
count_cursor_items-total [] = refl
count_cursor_items-total ((k, cur) ∷ page) = omega (arith, count_cursor_items-total page)

delete_cursor-others : (k : Bytes) (page : Page) → delete_cursor k page ≡ others k page
unfolding delete_cursor
delete_cursor-others k [] = refl
delete_cursor-others k (e ∷ page) = ground (arith, delete_cursor-others k page)

module _ (caps : Caps) where
  Within-under : (page : Page) → cursor_cache_over_cap caps page ≡ false → Within caps page
  unfolding cursor_cache_over_cap
  Within-under page e = ground (arith, count_cursor_items-total page)

  not_Within : (page : Page) → cursor_cache_over_cap caps page ≡ true → ¬ (Within caps page)
  unfolding cursor_cache_over_cap
  not_Within page e w = ground (arith, count_cursor_items-total page)

  Evicts-Within : {page kept : Page} → Evicts caps page kept → Within caps kept
  Evicts-Within (done within) = within
  Evicts-Within (oldest k cur over there after run) = Evicts-Within run

  empty-within : cursor_cache_over_cap caps [] ≡ false
  unfolding cursor_cache_over_cap count_cursor_items
  empty-within = ground arith

  evict_cursors-over :
      (fuel : ℕ) (e : Bytes × SyncCursor) (page : Page)
      → cursor_cache_over_cap caps (e ∷ page) ≡ true
      → evict_cursors caps (suc fuel) (e ∷ page)
        ≡ evict_cursors caps fuel (delete_cursor (oldest_from e page) (e ∷ page))
  unfolding evict_cursors oldest_cursor_key
  evict_cursors-over fuel e page over = rw (evict_cursors, over) refl

  evict_cursors-Evicts :
      (fuel : ℕ) (page : Page)
      → length page ≤ fuel
      → Evicts caps page (evict_cursors caps fuel page)
  unfolding evict_cursors oldest_cursor_key
  evict_cursors-Evicts zero [] le = done (Within-under [] empty-within)
  evict_cursors-Evicts (suc fuel) [] le =
      rw (evict_cursors, empty-within) (done (Within-under [] empty-within))
  evict_cursors-Evicts zero (e ∷ page) le = absurd (omega arith)
  evict_cursors-Evicts (suc fuel) (e ∷ page) le =
      elim (Bool-cases (cursor_cache_over_cap caps (e ∷ page))) [
        | inr within ↦ rw (evict_cursors, within) (done (Within-under (e ∷ page) within))
        | inl over ↦
            let (cur, there, after) = oldest_from-IsOldest e page in
            let k = oldest_from e page in
            let fewer : length (delete_cursor k (e ∷ page)) ≤ fuel =
              omega (arith, oldest_cursor_key-shorter e page) in
            let rest = evict_cursors-Evicts fuel (delete_cursor k (e ∷ page)) fewer in
            subst (Evicts caps (e ∷ page)) (sym (evict_cursors-over fuel e page over)) (
              oldest k cur (not_Within (e ∷ page) over) there after (
                subst (λ p. Evicts caps p (evict_cursors caps fuel (delete_cursor k (e ∷ page))))
                  (delete_cursor-others k (e ∷ page)) rest))
      ]

  -- The eviction loop, with as many rounds as there are cursors, removes the oldest cursor, the one
  -- that expires first and of several such the first by its key, again and again as long as the
  -- cursors or the items that they hold are more than their cap, which counts if it is not 0, and
  -- no longer. So it ends within both caps.
  pub evict_cursors_to_cap-Evicts :
      (page : Page)
      → Evicts caps page (evict_cursors_to_cap caps page)
        × Within caps (evict_cursors_to_cap caps page)
  evict_cursors_to_cap-Evicts page =
      let run = evict_cursors-Evicts (length page) page (omega arith) in (run, Evicts-Within run)
