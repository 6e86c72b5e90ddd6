-- ===== src/Store/Cards/Lookup.antt =====
-- Which card a lookup in internal/db/store.go finds after a write.
use mathlib.Core.Option
use go_contactd.Prelude.{
  ℕ, ◌==◌, ◌&&◌, Bytes, Bool, true, List, [], ◌∷◌, ◌++◌, Option, none, some, ◌≡◌, arith, bytes_eq,
  bytes_eq_iff, bytes_eq_refl, if◌then◌else◌, first_row, update_rows, delete_rows,
}
use go_contactd.Store.Tables.{Card, Database, PutCardInput, PutCardResult}
use go_contactd.Store.Vcard.{canonicalize_vcard, compute_etag_hex}
use go_contactd.Store.Cards.Effect.{Stored, Removed}
use go_contactd.Store.Statements.{card_at, find_card, new_card, rewritten}

-- The place (b, h) is the place (b', h').
abbrev pub same_place : ℕ → Bytes → ℕ → Bytes → Bool
same_place b h b' h' = b == b' && bytes_eq h h'

module _ (b : ℕ) (h : Bytes) (b' : ℕ) (h' : Bytes) where
  first_row-update :
      (u e v : Bytes) (now : ℕ) (cs : List Card)
      → first_row (card_at b' h') (update_rows (card_at b h) (rewritten u e v now) cs) ≡ (
          if same_place b h b' h'
          then Option.map (rewritten u e v now) (first_row (card_at b' h') cs)
          else first_row (card_at b' h') cs)
  first_row-update u e v now [] = ground arith
  first_row-update u e v now (c ∷ cs) = ground (
    arith,
    first_row-update u e v now cs,
    bytes_eq_iff c.href h,
    bytes_eq_iff c.href h',
    bytes_eq_iff h h',
  )

  first_row-append :
      (r : Card) (cs : List Card)
      → card_at b h r ≡ true
      → first_row (card_at b h) cs ≡ none
      → first_row (card_at b' h') (cs ++ r ∷ [])
        ≡ (if same_place b h b' h' then some r else first_row (card_at b' h') cs)
  first_row-append r [] at fresh =
      ground (arith, bytes_eq_iff r.href h, bytes_eq_iff r.href h', bytes_eq_iff h h')
  first_row-append r (c ∷ cs) at fresh = ground (
    arith,
    first_row-append r cs at,
    bytes_eq_iff c.href h,
    bytes_eq_iff c.href h',
    bytes_eq_iff h h',
  )

  first_row-delete :
      (cs : List Card)
      → first_row (card_at b' h') (delete_rows (card_at b h) cs)
        ≡ (if same_place b h b' h' then none else first_row (card_at b' h') cs)
  first_row-delete [] = ground arith
  first_row-delete (c ∷ cs) =
      ground (
        arith,
        first_row-delete cs,
        bytes_eq_iff c.href h,
        bytes_eq_iff c.href h',
        bytes_eq_iff h h',
      )

-- What a reader sees of a card: its UID, its ETag and its text.
abbrev pub content : Card → Bytes × Bytes × Bytes
content c = (c.uid, c.etag_hex, c.vcard)

abbrev pub content_at : ℕ → Bytes → Database → Option (Bytes × Bytes × Bytes)
content_at b h d = Option.map content (find_card b h d)

module _ (sha256 : Bytes → Bytes) (now : ℕ) (in_ : PutCardInput) (b' : ℕ) (h' : Bytes) where
  -- Once a put has stored its card, a lookup at the card's place finds the UID, the ETag and the
  -- canonical text that were put, and a lookup anywhere else finds what it found before.
  pub content_at-Stored :
      (d : Database) {res : PutCardResult} {d' : Database}
      → Stored sha256 now in_ (find_card in_.addressbook_id in_.href d) d res d'
      → content_at b' h' d' ≡ (
          if same_place in_.addressbook_id in_.href b' h'
          then some (in_.uid, res.etag_hex, canonicalize_vcard in_.vcard)
          else content_at b' h' d)
  unfolding find_card
  content_at-Stored d s =
      let b = in_.addressbook_id in
      let h = in_.href in
      let canonical = canonicalize_vcard in_.vcard in
      let etag = compute_etag_hex sha256 canonical in
      ground (
        arith,
        s.cards,
        s.etag,
        first_row-update b h b' h' in_.uid etag canonical now d.cards,
        first_row-append b h b' h' (new_card d.next_card b h in_.uid etag canonical now) d.cards,
        bytes_eq_refl h,
        bytes_eq_iff h h',
      )

module _ (now b : ℕ) (h : Bytes) (b' : ℕ) (h' : Bytes) where
  pub content_at-Removed :
      (card : Card) (d : Database) {rev : ℕ} {d' : Database}
      → Removed now b h card d rev d'
      → content_at b' h' d' ≡ (if same_place b h b' h' then none else content_at b' h' d)
  unfolding find_card
  content_at-Removed card d r = ground (arith, r.cards, first_row-delete b h b' h' d.cards)
