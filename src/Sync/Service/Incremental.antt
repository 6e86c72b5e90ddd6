-- ===== src/Sync/Service/Incremental.antt =====
-- Incremental sync of internal/carddavx/sync.go: what a client has after it.
use mathlib.Core.Option
use go_contactd.Prelude.{
  ℕ, ◌+◌, ltb, Bytes, false, List, [], ◌∷◌, ◌++◌, Option, none, some, map, length, length-append,
  ◌≡◌, refl, sym, ap, ◌∙◌, arith, order_by, Bool-cases, inl, inr,
}
use mathlib.Core.Path.{subst}
use go_contactd.Store.Tables.{Addressbook, ChangeRow, Database}
use go_contactd.Store.Exec.{exec}
use go_contactd.Store.Changes.{to_change, change_le, changes_since, list_card_changes_since}
use go_contactd.Sync.Token.{SyncToken, format_sync_token}
use go_contactd.Sync.Pages.{SyncResult, page_result, is_truncated}
use go_contactd.Sync.Cursors.{
  Caps, Page, lookup_cursor, prune_expired_cursors, take_cursor_page, build_paged_sync_result,
}
use go_contactd.Sync.Pages.{full_href, quoted}
use go_contactd.Sync.Pages.Client.{View, apply_result, apply_result-page_result}
use go_contactd.Sync.History.{Since, etag_at, revision_at, after_changes, Consecutive}
use go_contactd.Sync.History.Lists.{order_by-Consecutive, Consecutive-drop}
use go_contactd.Sync.Service.Items.{items_of, outcome-items_of, token_revision-head, is_stale-lost}
use go_contactd.Sync.Service.{ok, State, change_item, is_stale, changes_sync, resume}

lookup_cursor-pruned :
    (k : Bytes) (now : ℕ) (page : Page)
    → lookup_cursor k page ≡ none
    → lookup_cursor k (prune_expired_cursors now page) ≡ none
unfolding lookup_cursor prune_expired_cursors
lookup_cursor-pruned k now [] e = refl
lookup_cursor-pruned k now (x ∷ page) e = ground (arith, lookup_cursor-pruned k now page)

some_eq : (a b : ℕ) → some a ≡ some b → a ≡ b
some_eq a b e = ground (arith, e)

not_lost :
    (r : ℕ) (gone kept : List ChangeRow)
    → Consecutive (r + length gone) kept
    → is_stale r (r + length gone + length kept) (map to_change kept) ≡ false
    → gone ≡ []
not_lost r [] kept c fresh = refl
not_lost r (g ∷ gone) kept c fresh = absurd (ground (arith, is_stale-lost r (g ∷ gone) kept c))

module _ (caps : Caps) (username slug : Bytes) (limit now later : ℕ) where
  -- With no cursor for the token the log is asked.
  pub resume-log :
      (ab : Addressbook) (token : SyncToken) (s : State) {out : SyncResult} {s' : State}
      → lookup_cursor (format_sync_token token.addressbook_id token.revision) s.page ≡ none
      → resume caps username slug limit now later ab token s ≡ (ok out, s')
      → (page : Page) × (changes_sync caps username slug limit now later ab token
            (record s { page = page })
          ≡ (ok out, s'))
  unfolding resume take_cursor_page
  resume-log ab token s absent h =
      let raw = format_sync_token token.addressbook_id token.revision in
      let pruned_absent = lookup_cursor-pruned raw now s.page absent in
      elim (Bool-cases (ltb 0 limit)) [
        | inl limited ↦ (prune_expired_cursors now s.page, ground arith)
        | inr all ↦ (s.page, ground arith)
      ]

  changes_sync-ok :
      (ab : Addressbook) (token : SyncToken) (s : State) {out : SyncResult} {s' : State}
      → changes_sync caps username slug limit now later ab token s ≡ (ok out, s')
      → let logged =
          map to_change (order_by change_le (changes_since ab.id token.revision s.conn.db)) in
        (is_stale token.revision ab.revision logged ≡ false)
        × (out ≡ page_result ab.id ab.revision username slug (map change_item logged) limit)
  unfolding changes_sync list_card_changes_since exec build_paged_sync_result
  changes_sync-ok ab token s h = ground arith

  -- A whole page of the changes after `r` brings a client from revision `r` to the head.
  page-current :
      (b r : ℕ) (ws : List ChangeRow) (held : View) (h : Bytes) (old : Option Bytes)
      → is_truncated limit (items_of ws) ≡ false
      → held (full_href username slug h) ≡ Option.map quoted old
      → apply_result
          (page_result b (r + length ws) username slug (items_of ws) limit)
          held
          (full_href username slug h)
        ≡ Option.map quoted (after_changes ws h old)
  page-current b r ws held h old whole agrees =
      apply_result-page_result b (r + length ws) username slug (items_of ws) limit held h
      ∙ ground (arith, outcome-items_of ws h old)

  page-token :
      (b r : ℕ) (ws : List ChangeRow)
      → is_truncated limit (items_of ws) ≡ false
      → Consecutive r ws
      → (page_result b (r + length ws) username slug (items_of ws) limit).sync_token
        ≡ format_sync_token b (r + length ws)
  unfolding page_result
  page-token b r ws whole c = ground (arith, token_revision-head r ws c)

  -- The answer from the log, for a book whose history since the token is known.
  pub changes_sync-current :
      (ab : Addressbook) (r : ℕ) (v : Bytes → Option Bytes) (s : State) {out : SyncResult}
      {s' : State}
      → Since ab.id r v s.conn.db
      → revision_at ab.id s.conn.db ≡ some ab.revision
      → changes_sync caps username slug limit now later ab
          (record { addressbook_id = ab.id; revision = r })
          s
        ≡ (ok out, s')
      → out.truncated ≡ false
      → (held : View) → ((h : Bytes) → held (full_href username slug h) ≡ Option.map quoted (v h))
      → ((h : Bytes)
          → apply_result out held (full_href username slug h)
            ≡ Option.map quoted (etag_at ab.id h s.conn.db))
        × (out.sync_token ≡ format_sync_token ab.id ab.revision)
  changes_sync-current ab r v s {out} since head h whole held agrees =
      let (fresh, answer) =
        changes_sync-ok ab (record { addressbook_id = ab.id; revision = r }) s h in
      let later_ones = Consecutive-drop r since.gone since.kept since.numbered in
      let sorted : order_by change_le (changes_since ab.id r s.conn.db) ≡ since.kept =
        ap (order_by change_le) since.logged
        ∙ order_by-Consecutive (r + length since.gone) since.kept later_ones in
      let at_head : ab.revision ≡ r + length since.gone + length since.kept =
        some_eq ab.revision (r + length (since.gone ++ since.kept)) (sym head ∙ since.head)
        ∙ omega (arith, length-append {0} since.gone since.kept) in
      let nothing_lost : since.gone ≡ [] = not_lost r since.gone since.kept later_ones (
        ap (λ cs. is_stale r (r + length since.gone + length since.kept) (map to_change cs))
          (sym sorted)
        ∙ ap
            (λ n.
              is_stale r n (map to_change (order_by change_le (changes_since ab.id r s.conn.db))))
            (sym at_head)
        ∙ fresh) in
      let head' : ab.revision ≡ r + length since.kept =
        at_head ∙ omega (arith, ap (length {A = ChangeRow}) nothing_lost) in
      let answer' : out
          ≡ page_result ab.id (r + length since.kept) username slug (items_of since.kept) limit =
        answer
        ∙ ap
            (λ n.
              page_result ab.id n username slug
                (map change_item
                  (map to_change (order_by change_le (changes_since ab.id r s.conn.db))))
                limit)
            head'
        ∙ ap (λ cs. page_result ab.id (r + length since.kept) username slug (items_of cs) limit)
            sorted in
      let all : is_truncated limit (items_of since.kept) ≡ false =
        unfold page_result in sym (ap (λ (o : SyncResult). o.truncated) answer') ∙ whole in
      (
        λ k.
            ap (λ o. apply_result o held (full_href username slug k)) answer'
            ∙ page-current ab.id r since.kept held k (v k) all (agrees k)
            ∙ ap (λ ws. Option.map quoted (after_changes (ws ++ since.kept) k (v k)))
                (sym nothing_lost)
            ∙ ap (Option.map quoted) (sym (since.current k)),
        ap (λ (o : SyncResult). o.sync_token) answer'
            ∙ page-token ab.id r since.kept all
                (subst (λ gone. Consecutive r (gone ++ since.kept)) nothing_lost since.numbered)
            ∙ ap (format_sync_token ab.id) (sym head'),
      )

-- With no history yet: the point that a token for the current revision stands for.
pub Since-start :
    (b r : ℕ) (d : Database)
    → revision_at b d ≡ some r
    → changes_since b r d ≡ []
    → Since b r (λ h. etag_at b h d) d
Since-start b r d head settled = record {
  gone = [];
  kept = [];
  logged = settled;
  numbered = tt;
  head = head ∙ ap some (omega arith);
  timed = tt;
  current = λ h. refl;
}
