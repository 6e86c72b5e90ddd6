-- ===== src/Sync/Cursors/Chain.antt =====
-- A chain of cut pages of internal/carddavx/sync.go ends with the whole of the items.
use go_contactd.Prelude.{
  ℕ, ◌≤◌, ◌<◌, ◌+◌, ◌^◌, Bytes, true, false, List, [], ◌∷◌, some, length, ◌≡◌, refl, ap, ◌∙◌, arith,
  Bool-cases, inl, inr,
}
use go_contactd.Sync.Token.{SyncToken, format_sync_token}
use go_contactd.Sync.Token.Roundtrip.{parse_sync_token-format_sync_token}
use go_contactd.Sync.Pages.{
  full_href, page_result, page_items, sync_page_token_revision, is_truncated,
}
use go_contactd.Sync.Pages.Collapse.{latest}
use go_contactd.Sync.Pages.Client.{View, apply_result, outcome}
use go_contactd.Sync.Pages.Rest.{AllInt64, token_revision-AllInt64}
use go_contactd.Sync.Cursors.{
  SyncCursor, Page, Caps, expired, lookup_cursor, cursor_cache_over_cap, take_cursor_page,
}
use go_contactd.Sync.Cursors.Paging.{rest_of_page}
use go_contactd.Sync.Cursors.Room.{take_cursor_page-left}
use go_contactd.Sync.Cursors.Follow.{
  follow, follow-whole, follow-cut, token-remaining, length-left, AllInt64-left, AllInt64-page,
  out-view, last-view,
}

-- Each request comes before the cursor that the one before has left expires.
abbrev pub Paced : (ttl deadline : ℕ) → List ℕ → Type 0
Paced ttl deadline [] = Unit
Paced ttl deadline (t ∷ times) = (t ≤ deadline) × Paced ttl (t + ttl) times

module _ (caps : Caps) (username slug : Bytes) (limit b : ℕ) (positive : 0 < b) (fits : b < 2 ^ 63)
    (limited : 0 < limit) where
  -- A client whose token has a cursor, in a cache within its caps, asks with it and then with the
  -- token of each answer, with a positive limit, no other request in between, each request before
  -- the cursor that the one before left expires, and at least as many times as there are items. It
  -- comes to an answer that is not truncated: it then holds what the last of all the items of each
  -- href says, and the token for the last revision, when the book's id is positive and the
  -- revisions are int64 numbers.
  pub follow-latest :
      (times : List ℕ) (revision : ℕ) (page : Page) (v : View) (cur : SyncCursor)
      → revision < 2 ^ 63
      → cur.head_revision < 2 ^ 63
      → AllInt64 cur.items
      → lookup_cursor (format_sync_token b revision) page ≡ some cur
      → cur.addressbook_id ≡ b
      → cursor_cache_over_cap caps page ≡ false
      → Paced caps.ttl cur.expires_at times
      → 0 < length times
      → length cur.items ≤ length times
      → (w : View) × (follow caps username slug limit times (format_sync_token b revision) page v
          ≡ some
              (w, format_sync_token b (sync_page_token_revision cur.head_revision cur.items false)))
        × ((h : Bytes)
            → w (full_href username slug h)
              ≡ outcome (latest h cur.items) (v (full_href username slug h)))
  follow-latest [] revision page v cur small head all found same within paced some_time enough =
      absurd (omega arith)
  follow-latest (t ∷ times) revision page v cur small head all found same within (early, paced)
        some_time enough =
      let parsed = parse_sync_token-format_sync_token b revision positive fits small in
      let fresh : expired t cur ≡ false = ground arith in
      elim (Bool-cases (is_truncated limit cur.items)) [
        | inr whole ↦ (
          apply_result (page_result b cur.head_revision username slug cur.items limit) v,
          follow-whole caps username slug limit b revision t times page v cur parsed found same
              fresh whole,
          λ h. last-view caps username slug limit b revision t times page v cur h whole,
        )
        | inl cut ↦
            let token : SyncToken = record { addressbook_id = b; revision = revision } in
            let (kept, still) =
              take_cursor_page-left caps token username slug limit t page cur found same fresh cut
                within in
            let (some_left, fewer) =
              length-left caps username slug limit b revision t times page v cur limited cut in
            let (w, ended, view) =
              follow-latest times
                (sync_page_token_revision cur.head_revision (page_items limit cur.items) true)
                (take_cursor_page caps token username slug limit t page).1
                (apply_result (page_result b cur.head_revision username slug cur.items limit) v)
                (rest_of_page caps b cur.head_revision cur.items limit t)
                (token_revision-AllInt64 cur.head_revision (page_items limit cur.items) head
                  (AllInt64-page caps username slug limit b revision t times page v cur all))
                head (AllInt64-left caps username slug limit b revision t times page v cur all) kept
                refl still paced (omega arith) (omega arith) in
            (
              w,
              follow-cut caps username slug limit b revision t times page v cur parsed found same
                    fresh cut
                  ∙ (ended
                      ∙ ap (λ r. some (w, format_sync_token b r))
                          (token-remaining caps username slug limit b revision t times page v cur
                            limited cut)),
              λ h. view h ∙ out-view caps username slug limit b revision t times page v cur h,
            )
      ]
