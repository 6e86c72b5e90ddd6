-- ===== src/Sync/Cursors/Follow.antt =====
-- A client of internal/carddavx/sync.go that follows the tokens of cut pages, one request after the
-- other.
use go_contactd.Prelude.{
  ℕ, ◌<◌, Bytes, true, false, List, [], ◌∷◌, Option, none, some, length, ◌≡◌, refl, sym, ap, ◌∙◌,
  if◌then◌else◌, arith, take, drop, Bool-cases, inl, inr,
}
use go_contactd.Sync.Token.{SyncToken, format_sync_token, parse_sync_token, ok, err}
use go_contactd.Sync.Pages.{
  SyncResult, full_href, page_result, page_items, remaining_items, sync_page_token_revision,
  is_truncated,
}
use go_contactd.Sync.Pages.Collapse.{latest}
use go_contactd.Sync.Pages.Client.{View, apply_result, outcome, apply_result-page_result}
use go_contactd.Sync.Pages.Rest.{
  AllInt64, AllInt64-take, AllInt64-drop, last-drop, length-remaining, outcome-append,
}
use go_contactd.Sync.Cursors.{SyncCursor, Page, Caps, expired, lookup_cursor, take_cursor_page}
use go_contactd.Sync.Cursors.Paging.{take-usable, page_items-remaining_items}

module _ (caps : Caps) (username slug : Bytes) (limit : ℕ) where
  -- The client asks with a token, at each time once, until an answer is not truncated. It applies the
  -- answers and keeps the last token.
  unfoldable pub follow : (times : List ℕ) → Bytes → Page → View → Option (View × Bytes)
  follow [] raw page v = none
  follow (t ∷ times) raw page v = elim (parse_sync_token raw) [
    | err e ↦ none
    | ok token ↦
        let (answer, next) = take_cursor_page caps token username slug limit t page in
        elim answer [
          | none ↦ none
          | some out ↦ elim out.truncated [
            | true ↦ follow times out.sync_token next (apply_result out v)
            | false ↦ some (apply_result out v, out.sync_token)
          ]
        ]
  ]

  module _ (b revision t : ℕ) (times : List ℕ) (page : Page) (v : View) (cur : SyncCursor) where
    abbrev token : SyncToken
    token = record { addressbook_id = b; revision = revision }

    -- The answer to the request at `t`.
    abbrev out : SyncResult
    out = page_result b cur.head_revision username slug cur.items limit

    truncated-out : out.truncated ≡ is_truncated limit cur.items
    unfolding page_result
    truncated-out = refl

    sync_token-cut :
        is_truncated limit cur.items ≡ true
        → out.sync_token
          ≡ format_sync_token b
              (sync_page_token_revision cur.head_revision (page_items limit cur.items) true)
    unfolding page_result
    sync_token-cut cut =
        ap
          (λ x.
            format_sync_token b
              (sync_page_token_revision cur.head_revision (page_items limit cur.items) x))
          cut

    sync_token-whole :
        is_truncated limit cur.items ≡ false
        → out.sync_token
          ≡ format_sync_token b (sync_page_token_revision cur.head_revision cur.items false)
    unfolding page_result
    sync_token-whole whole =
        ap
          (λ x. format_sync_token b (
            sync_page_token_revision cur.head_revision
              (if x then take limit cur.items else cur.items) x))
          whole

    follow-step :
        parse_sync_token (format_sync_token b revision) ≡ ok token
        → lookup_cursor (format_sync_token b revision) page ≡ some cur
        → cur.addressbook_id ≡ b
        → expired t cur ≡ false
        → follow (t ∷ times) (format_sync_token b revision) page v
          ≡ elim (is_truncated limit cur.items) [
            | true ↦
                follow times out.sync_token
                  (take_cursor_page caps token username slug limit t page).1
                  (apply_result out v)
            | false ↦ some (apply_result out v, out.sync_token)
          ]
    unfolding follow
    follow-step parsed found same fresh =
        let answered = take-usable caps token username slug limit t page cur found same fresh in
        rw (follow, parsed, answered, truncated-out) refl

    pub follow-whole :
        parse_sync_token (format_sync_token b revision) ≡ ok token
        → lookup_cursor (format_sync_token b revision) page ≡ some cur
        → cur.addressbook_id ≡ b
        → expired t cur ≡ false
        → is_truncated limit cur.items ≡ false
        → follow (t ∷ times) (format_sync_token b revision) page v
          ≡ some (
            apply_result out v,
            format_sync_token b (sync_page_token_revision cur.head_revision cur.items false),
          )
    follow-whole parsed found same fresh whole =
        follow-step parsed found same fresh
        ∙ rw whole (ap (λ raw. some (apply_result out v, raw)) (sync_token-whole whole))

    pub follow-cut :
        parse_sync_token (format_sync_token b revision) ≡ ok token
        → lookup_cursor (format_sync_token b revision) page ≡ some cur
        → cur.addressbook_id ≡ b
        → expired t cur ≡ false
        → is_truncated limit cur.items ≡ true
        → follow (t ∷ times) (format_sync_token b revision) page v
          ≡ follow times
              (format_sync_token b
                (sync_page_token_revision cur.head_revision (page_items limit cur.items) true))
              (take_cursor_page caps token username slug limit t page).1
              (apply_result out v)
    follow-cut parsed found same fresh cut =
        let next = (take_cursor_page caps token username slug limit t page).1 in
        follow-step parsed found same fresh
        ∙ (ap
              (λ x. elim x as (λ y. Option (View × Bytes)) [
                | true ↦ follow times out.sync_token next (apply_result out v)
                | false ↦ some (apply_result out v, out.sync_token)
              ])
              cut
            ∙ ap (λ raw. follow times raw next (apply_result out v)) (sync_token-cut cut))

    -- The items of the last page end as all the items do.
    pub token-remaining :
        0 < limit
        → is_truncated limit cur.items ≡ true
        → sync_page_token_revision cur.head_revision (remaining_items limit cur.items) false
          ≡ sync_page_token_revision cur.head_revision cur.items false
    unfolding sync_page_token_revision
    token-remaining limited cut = rw cut (rw (last-drop limit cur.items (ground arith)) refl)

    pub length-left :
        0 < limit
        → is_truncated limit cur.items ≡ true
        → (0 < length (remaining_items limit cur.items))
          × (length (remaining_items limit cur.items) < length cur.items)
    length-left limited cut = rw cut (ground (arith, length-remaining limit cur.items))

    pub AllInt64-left : AllInt64 cur.items → AllInt64 (remaining_items limit cur.items)
    AllInt64-left all = elim (Bool-cases (is_truncated limit cur.items)) [
      | inl cut ↦ rw cut (AllInt64-drop limit cur.items all)
      | inr whole ↦ rw whole tt
    ]

    pub AllInt64-page : AllInt64 cur.items → AllInt64 (page_items limit cur.items)
    AllInt64-page all = elim (Bool-cases (is_truncated limit cur.items)) [
      | inl cut ↦ rw cut (AllInt64-take limit cur.items all)
      | inr whole ↦ rw whole all
    ]

    -- The view after the answer, from the items of its page.
    pub out-view :
        (h : Bytes)
        → outcome
            (latest h (remaining_items limit cur.items))
            (apply_result out v (full_href username slug h))
          ≡ outcome (latest h cur.items) (v (full_href username slug h))
    out-view h =
        ap (outcome (latest h (remaining_items limit cur.items)))
          (apply_result-page_result b cur.head_revision username slug cur.items limit v h)
        ∙ (sym (
              outcome-append h (page_items limit cur.items) (remaining_items limit cur.items)
                (v (full_href username slug h)))
            ∙ ap (λ items. outcome (latest h items) (v (full_href username slug h)))
                (page_items-remaining_items limit cur.items))

    pub last-view :
        (h : Bytes)
        → is_truncated limit cur.items ≡ false
        → apply_result out v (full_href username slug h)
          ≡ outcome (latest h cur.items) (v (full_href username slug h))
    last-view h whole =
        sym (
          ap
            (λ x.
              outcome (latest h (if x then drop limit cur.items else []))
                (apply_result out v (full_href username slug h)))
            whole)
        ∙ out-view h
