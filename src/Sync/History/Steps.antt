-- ===== src/Sync/History/Steps.antt =====
-- The operations of internal/db/store.go that a server and its prune loop run on a book, in any
-- order and with any failures, in the history of the book.
use go_contactd.Prelude.{
  List, ◌+◌, ◌≤◌, ℕ, zero, suc, ltb, Bytes, Option, ◌≡◌, ◌⊎◌, inl, inr, refl, sym, arith,
}
use mathlib.Core.Path.{subst}
use go_contactd.Store.Tables.{ChangeRow, Database, PutCardInput, PutCardConditions, PutCardResult}
use go_contactd.Store.Exec.{Result, ok, err, StoreError, Conn, exec}
use go_contactd.Store.Cards.{put_card_checked, put_cards_atomic, delete_card_checked}
use go_contactd.Store.Cards.Atomic.{put_card_checked-atomic, delete_card_checked-atomic}
use go_contactd.Store.Cards.Effect.{put_card_checked-Stored, delete_card_checked-Removed}
use go_contactd.Store.Changes.{
  prune_card_changes_by_age, prune_card_changes_by_max_revisions, beyond,
}
use go_contactd.Store.Books.{update_addressbook_metadata, ensure_addressbook}
use go_contactd.Sync.History.{Since, IsLatest}
use go_contactd.Sync.History.Writes.{Stored-Logged, Removed-Logged, Since-Logged}
use go_contactd.Sync.History.Imports.{Since-import}
use go_contactd.Sync.History.Prunes.{pruned, Since-prune_by_age, Since-prune_by_revisions}
use go_contactd.Sync.History.Unlogged.{
  Since-Unlogged, metadata-cases, metadata-Unlogged, ensure-cases, ensure-Unlogged,
}

-- Deletions of address books and users, which end histories, are no steps. `c` is the connection
-- that the operation runs on: any schedule of driver errors, foreign keys on
-- or off. The clock of a write is not before the changes that are logged already.
pub data Step (d d' : Database) : Type 0 where
  put :
      (sha256 : Bytes → Bytes) (now : ℕ) (hook : Option StoreError) (in_ : PutCardInput)
      (cond : Option PutCardConditions) (c : Conn)
      → c.db ≡ d
      → IsLatest now d
      → (put_card_checked sha256 now hook in_ cond c).1.db ≡ d'
      → Step d d'
  import :
      (sha256 : Bytes → Bytes) (clock : ℕ → ℕ) (hook : Option StoreError)
      (batch : List PutCardInput) (c : Conn)
      → c.db ≡ d
      → IsLatest (clock 0) d
      → ((i : ℕ) → clock i ≤ clock (i + 1))
      → (put_cards_atomic sha256 hook clock batch c).1.db ≡ d'
      → Step d d'
  delete :
      (now b : ℕ) (h : Bytes) (expected : Option Bytes) (c : Conn)
      → c.db ≡ d
      → IsLatest now d
      → (delete_card_checked now b h expected c).1.db ≡ d'
      → Step d d'
  prune_by_age :
      (cutoff : ℕ) (c : Conn)
      → c.db ≡ d
      → (prune_card_changes_by_age cutoff c).1.db ≡ d'
      → Step d d'
  prune_by_revisions :
      (keep : ℕ) (c : Conn)
      → c.db ≡ d
      → (prune_card_changes_by_max_revisions keep c).1.db ≡ d'
      → Step d d'
  update_metadata :
      (now : ℕ) (username slug : Bytes) (displayname description color : Option Bytes) (c : Conn)
      → c.db ≡ d
      → (update_addressbook_metadata now username slug displayname description color c).1.db ≡ d'
      → Step d d'
  ensure :
      (now user_id : ℕ) (slug displayname : Bytes) (c : Conn)
      → c.db ≡ d
      → (ensure_addressbook now user_id slug displayname c).1.db ≡ d'
      → Step d d'

pub data Reach (d : Database) : Database → Type 0 where
  here : Reach d d
  next : {e e' : Database} → Reach d e → Step e e' → Reach d e'

module _ (b r : ℕ) (v : Bytes → Option Bytes) where
  Since-put :
      (sha256 : Bytes → Bytes) (now : ℕ) (hook : Option StoreError) (in_ : PutCardInput)
      (cond : Option PutCardConditions) (c : Conn)
      → IsLatest now c.db
      → Since b r v c.db
      → (out : Result PutCardResult × Conn) → put_card_checked sha256 now hook in_ cond c ≡ out
      → Since b r v out.1.db
  Since-put sha256 now hook in_ cond c latest s (err x, c') e =
      subst (Since b r v) (sym (put_card_checked-atomic sha256 now hook in_ cond c e)) s
  Since-put sha256 now hook in_ cond c latest s (ok res, c') e =
      let (valid, passed, stored) = put_card_checked-Stored sha256 now hook in_ cond c e in
      Since-Logged b r v _ now _ c.db c'.db (Stored-Logged sha256 now in_ c.db stored) latest s

  Since-delete :
      (now b' : ℕ) (h : Bytes) (expected : Option Bytes) (c : Conn)
      → IsLatest now c.db
      → Since b r v c.db
      → (out : Result (Unit {0}) × Conn) → delete_card_checked now b' h expected c ≡ out
      → Since b r v out.1.db
  Since-delete now b' h expected c latest s (err x, c') e =
      subst (Since b r v) (sym (delete_card_checked-atomic now b' h expected c e)) s
  Since-delete now b' h expected c latest s (ok tt, c') e =
      let (card, found, passed, removed) = delete_card_checked-Removed now b' h expected c e in
      Since-Logged b r v b' now _ c.db c'.db (Removed-Logged now b' h card c.db removed) latest s

prune_by_age-cases :
    (cutoff : ℕ) (c : Conn)
    → ((prune_card_changes_by_age cutoff c).1.db ≡ c.db)
      ⊎ ((prune_card_changes_by_age cutoff c).1.db
          ≡ pruned (λ (x : ChangeRow). ltb x.changed_at cutoff) c.db)
unfolding prune_card_changes_by_age exec
prune_by_age-cases cutoff c = ground arith

prune_by_revisions-cases :
    (keep : ℕ) (c : Conn)
    → ((prune_card_changes_by_max_revisions keep c).1.db ≡ c.db)
      ⊎ ((prune_card_changes_by_max_revisions keep c).1.db ≡ pruned (beyond keep c.db.books) c.db)
unfolding prune_card_changes_by_max_revisions exec
prune_by_revisions-cases zero c = inl refl
prune_by_revisions-cases (suc k) c = ground arith

module _ (b r : ℕ) (v : Bytes → Option Bytes) where
  -- From one of two tables to the one that the operation left.
  either_way :
      {d x y : Database} → Since b r v x → Since b r v y → (d ≡ x) ⊎ (d ≡ y) → Since b r v d
  either_way sx sy (inl e) = subst (Since b r v) (sym e) sx
  either_way sx sy (inr e) = subst (Since b r v) (sym e) sy

  Since-Step : {d d' : Database} → Step d d' → Since b r v d → Since b r v d'
  Since-Step (put sha256 now hook in_ cond c before latest after) s = subst (Since b r v) after (
      Since-put b r v sha256 now hook in_ cond c (subst (IsLatest now) (sym before) latest)
        (subst (Since b r v) (sym before) s) _ refl)
  Since-Step (import sha256 clock hook batch c before latest onward after) s =
      subst (Since b r v) after (
        Since-import b r v sha256 hook clock batch c onward
          (subst (IsLatest (clock 0)) (sym before) latest) (subst (Since b r v) (sym before) s) _
          refl)
  Since-Step (delete now b' h expected c before latest after) s = subst (Since b r v) after (
      Since-delete b r v now b' h expected c (subst (IsLatest now) (sym before) latest)
        (subst (Since b r v) (sym before) s) _ refl)
  Since-Step (prune_by_age cutoff c before after) s =
      let s' = subst (Since b r v) (sym before) s in
      subst (Since b r v) after
        (either_way s' (Since-prune_by_age b r v c.db s' cutoff) (prune_by_age-cases cutoff c))
  Since-Step (prune_by_revisions keep c before after) s =
      let s' = subst (Since b r v) (sym before) s in
      subst (Since b r v) after (
        either_way s' (Since-prune_by_revisions b r v c.db s' keep)
          (prune_by_revisions-cases keep c))
  Since-Step (update_metadata now username slug dn desc col c before after) s =
      let s' = subst (Since b r v) (sym before) s in
      subst (Since b r v) after (
        either_way s'
          (Since-Unlogged b r v c.db _ (metadata-Unlogged now username slug dn desc col c.db) s')
          (metadata-cases now username slug dn desc col c))
  Since-Step (ensure now u slug dn c before after) s =
      let s' = subst (Since b r v) (sym before) s in
      subst (Since b r v) after (
        either_way s' (Since-Unlogged b r v c.db _ (ensure-Unlogged now u slug dn c.db) s')
          (ensure-cases now u slug dn c))

  -- Through any sequence of puts, imports, deletes of cards, prunes, metadata updates and created
  -- books, with any failures, and with clocks of writes that are not before the logged changes, the
  -- changes of a book since revision `r` stay numbered one by one up to the head, what the log has
  -- lost of them is a first part, and all of them in turn make the ETags at `r` into the current
  -- ones.
  pub Since-Reach : {d d' : Database} → Since b r v d → Reach d d' → Since b r v d'
  Since-Reach s here = s
  Since-Reach s (next reach step) = Since-Step step (Since-Reach s reach)
