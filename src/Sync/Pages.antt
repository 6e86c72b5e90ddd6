-- ===== src/Sync/Pages.antt =====
-- Pages of a sync result in internal/carddavx/sync.go: collapsing, the token's revision, the hrefs.
pub mod Collapse
pub mod Client
pub mod Rest
use go_contactd.Prelude.{
  ℕ, suc, ◌==◌, ◌&&◌, ltb, Bytes, Bool, List, [], ◌∷◌, ◌++◌, Option, none, some, lit, bytes_eq,
  if◌then◌else◌, length, take, drop,
}
use mathlib.Core.List.{get_last?}
use go_contactd.Sync.Token.{format_sync_token}

pub record SyncRef : Type 0 where
  pub href : Bytes
  pub etag : Bytes

pub record SyncResult : Type 0 where
  pub sync_token : Bytes
  pub updated : List SyncRef
  pub deleted : List Bytes
  pub truncated : Bool

pub record SyncPageItem : Type 0 where
  pub revision : ℕ
  pub href : Bytes
  pub etag_hex : Bytes
  pub deleted : Bool

-- `lastIdxByHref`: a Go map reads 0 at a key that it does not hold.
abbrev pub IndexMap : Type 0
IndexMap = Bytes → ℕ

abbrev pub assign : Bytes → ℕ → IndexMap → IndexMap
assign h i m k = if bytes_eq h k then i else m k

last_indices : (i : ℕ) → List SyncPageItem → IndexMap → IndexMap
last_indices i [] m = m
last_indices i (it ∷ rest) m = last_indices (suc i) rest (assign it.href i m)

keep_last : IndexMap → (i : ℕ) → List SyncPageItem → List SyncPageItem
keep_last m i [] = []
keep_last m i (it ∷ rest) =
    let kept = keep_last m (suc i) rest in if m it.href == i then it ∷ kept else kept

unfoldable pub collapse_sync_page_items : List SyncPageItem → List SyncPageItem
unfolding last_indices keep_last
collapse_sync_page_items items = keep_last (last_indices 0 items (λ h. 0)) 0 items

abbrev token_revision : (head : ℕ) → Option SyncPageItem → (truncated : Bool) → ℕ
token_revision head none truncated = head
token_revision head (some last) truncated =
    if truncated then last.revision else if ltb head last.revision then last.revision else head

unfoldable pub sync_page_token_revision : (head : ℕ) → List SyncPageItem → (truncated : Bool) → ℕ
sync_page_token_revision head page truncated = token_revision head (get_last? page) truncated

-- "/" + username + "/" + slug + "/" + it.Href
abbrev pub full_href : (username slug href : Bytes) → Bytes
full_href username slug href = lit "/" ++ (username ++ (lit "/" ++ (slug ++ (lit "/" ++ href))))

-- `"` + it.ETagHex + `"`
abbrev pub quoted : Bytes → Bytes
quoted s = 34 ∷ (s ++ 34 ∷ [])

-- The loop that sorts the items of a page into out.Updated and out.Deleted.
unfoldable pub emitted_updates : (username slug : Bytes) → List SyncPageItem → List SyncRef
emitted_updates username slug [] = []
emitted_updates username slug (it ∷ rest) =
    if it.deleted
    then emitted_updates username slug rest
    else (record { href = full_href username slug it.href; etag = quoted it.etag_hex })
      ∷ emitted_updates username slug rest

unfoldable pub emitted_deletions : (username slug : Bytes) → List SyncPageItem → List Bytes
emitted_deletions username slug [] = []
emitted_deletions username slug (it ∷ rest) =
    if it.deleted
    then full_href username slug it.href ∷ emitted_deletions username slug rest
    else emitted_deletions username slug rest

-- `limit > 0 && len(items) > limit`
abbrev pub is_truncated : (limit : ℕ) → List SyncPageItem → Bool
is_truncated limit items = ltb 0 limit && ltb limit (length items)

abbrev pub page_items : (limit : ℕ) → List SyncPageItem → List SyncPageItem
page_items limit items = if is_truncated limit items then take limit items else items

abbrev pub remaining_items : (limit : ℕ) → List SyncPageItem → List SyncPageItem
remaining_items limit items = if is_truncated limit items then drop limit items else []

-- The page of the first `limit` items.
unfoldable pub page_result :
    (addressbook_id head : ℕ) (username slug : Bytes) → List SyncPageItem → (limit : ℕ) → SyncResult
page_result b head username slug items limit =
    let emit = collapse_sync_page_items (page_items limit items) in
    record {
      sync_token =
          format_sync_token b
            (sync_page_token_revision head (page_items limit items) (is_truncated limit items));
      updated = emitted_updates username slug emit;
      deleted = emitted_deletions username slug emit;
      truncated = is_truncated limit items;
    }
