-- ===== src/Store/Changes.antt =====
-- The change log of internal/db/store.go: its queries, and pruning.
use go_contactd.Prelude.{
  ℕ, zero, suc, ◌+◌, ◌==◌, ◌&&◌, ◌||◌, ltb, leb, Bytes, Bool, List, [], ◌∷◌, bytes_eq, bytes_leb,
  length, take, map, where_rows, delete_rows, update_rows, any_row, order_by,
}
use Prim.Native.Nat.{max}
use mathlib.Core.List.{head?}
use mathlib.Core.Option
use go_contactd.Store.Tables.{BookRow, Card, ChangeRow, CardChange, CardSyncState, Database}
use go_contactd.Store.Exec.{ok, Exec, pure, exec, query, ◌>>=◌}
use go_contactd.Store.Books.{or_not_found}
use go_contactd.Store.Statements.{find_card, select_revision}

abbrev change_of : ℕ → ChangeRow → Bool
change_of b r = r.addressbook_id == b

-- ORDER BY revision ASC, id ASC
abbrev pub change_le : ChangeRow → ChangeRow → Bool
change_le x y = ltb x.revision y.revision || x.revision == y.revision && leb x.id y.id

abbrev pub to_change : ChangeRow → CardChange
to_change r = record {
  href = r.href;
  etag_hex = r.etag;
  deleted = r.deleted;
  revision = r.revision;
}

-- LIMIT, which the Go code appends to a query only if it is positive.
abbrev pub limited {ℓ} : {A : Type ℓ} → ℕ → List A → List A
limited zero xs = xs
limited (suc n) xs = take (suc n) xs

abbrev pub changes_since : ℕ → ℕ → Database → List ChangeRow
changes_since b after d = where_rows (λ r. r.addressbook_id == b && ltb after r.revision) d.changes

unfoldable pub list_card_changes_since : (b after limit : ℕ) → Exec (List CardChange)
list_card_changes_since b after limit =
    query (λ d. map to_change (limited limit (order_by change_le (changes_since b after d))))

-- COALESCE(MAX(cc.revision), 0) over the changes that the join finds.
abbrev max_revision : List ChangeRow → ℕ
max_revision [] = 0
max_revision (r ∷ rs) = max r.revision (max_revision rs)

abbrev sync_state : Database → Card → CardSyncState
sync_state d c = record {
  href = c.href;
  etag_hex = c.etag_hex;
  revision =
      max_revision (
        where_rows (λ r. r.addressbook_id == c.addressbook_id && bytes_eq r.href c.href) d.changes);
}

-- ORDER BY revision ASC, c.href ASC
abbrev state_le : CardSyncState → CardSyncState → Bool
state_le x y = ltb x.revision y.revision || x.revision == y.revision && bytes_leb x.href y.href

abbrev cards_of : ℕ → Database → List Card
cards_of b d = where_rows (λ c. c.addressbook_id == b) d.cards

unfoldable pub list_current_card_sync_states : (b limit : ℕ) → Exec (List CardSyncState)
list_current_card_sync_states b limit =
    query (λ d. limited limit (order_by state_le (map (sync_state d) (cards_of b d))))

unfoldable pub addressbook_revision : ℕ → Exec ℕ
addressbook_revision b = exec (select_revision b)

-- ORDER BY href ASC
unfoldable pub list_cards : ℕ → Exec (List Card)
list_cards b = query (λ d. order_by (λ x y. bytes_leb x.href y.href) (cards_of b d))

unfoldable pub card_count : ℕ → Exec ℕ
card_count b = query (λ d. length (cards_of b d))

unfoldable pub card_change_count : ℕ → Exec ℕ
card_change_count b = query (λ d. length (where_rows (change_of b) d.changes))

unfoldable pub get_card : ℕ → Bytes → Exec Card
get_card b h = do found ← query (find_card b h); or_not_found found

-- ORDER BY revision DESC, id DESC LIMIT 1
unfoldable pub last_card_change : ℕ → Exec CardChange
last_card_change b = do
  found ← query (λ d. head? (order_by (λ x y. change_le y x) (where_rows (change_of b) d.changes)))
  or_not_found (Option.map to_change found)

unfoldable pub card_change_revisions : ℕ → Exec (List ℕ)
card_change_revisions b =
    query (λ d. map (λ r. r.revision) (order_by change_le (where_rows (change_of b) d.changes)))

-- DELETE FROM card_changes WHERE …: the rows affected.
abbrev delete_changes : (ChangeRow → Bool) → Exec ℕ
delete_changes doomed = exec (λ fk d.
    ok (length (where_rows doomed d.changes), record d { changes = delete_rows doomed d.changes }))

-- WHERE changed_at < ?
unfoldable pub prune_card_changes_by_age : (cutoff : ℕ) → Exec ℕ
prune_card_changes_by_age cutoff = delete_changes (λ r. ltb r.changed_at cutoff)

-- cc.revision <= (ab.revision - keep) for the change's book; the difference may be negative.
abbrev pub beyond : ℕ → List BookRow → ChangeRow → Bool
beyond keep books r =
    any_row (λ (ab : BookRow). ab.id == r.addressbook_id && leb (r.revision + keep) ab.revision)
      books

unfoldable pub prune_card_changes_by_max_revisions : (keep : ℕ) → Exec ℕ
prune_card_changes_by_max_revisions zero = pure 0
prune_card_changes_by_max_revisions (suc k) = exec (λ fk d. ok (
  length (where_rows (beyond (suc k) d.books) d.changes),
  record d { changes = delete_rows (beyond (suc k) d.books) d.changes },
))

unfoldable pub force_card_changes_timestamp : ℕ → ℕ → Exec (Unit {0})
force_card_changes_timestamp b ts = exec (λ fk d. ok (
  tt,
  record d { changes = update_rows (change_of b) (λ r. record r { changed_at = ts }) d.changes },
))
