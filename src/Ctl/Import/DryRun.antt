-- ===== src/Ctl/Import/DryRun.antt =====
-- What a dry run of internal/ctl/ctl.go says of a card.
use go_contactd.Prelude.{
  ℕ, ◌==◌, ◌&&◌, ◌||◌, not, Bytes, Bool, true, false, List, [], ◌∷◌, Option, none, some, ◌≡◌, refl,
  ap, ◌∙◌, sym, arith, any_row, first_row, where_rows, order_by, order_insert, bytes_eq,
  bytes_eq_iff, bytes_leb, if◌then◌else◌, Bool-cases, inl, inr, ==_iff,
}
use go_contactd.Store.Tables.{Card, PutCardInput}
use go_contactd.Store.Exec.{StoreError, Conn, exec}
use go_contactd.Store.Exec
use go_contactd.Store.Statements.{card_at, uid_taken, find_card}
use go_contactd.Store.Changes.{get_card, list_cards}
use go_contactd.Store.Books.{or_not_found}
use go_contactd.Store.Cards.{exists}
use go_contactd.Ctl.Import.{
  Imported, ok, err, put_or_classify_imported_card, classify, has_uid, outcome, store, ◌>>=◌,
}

-- UNIQUE (addressbook_id, uid)
abbrev pub UniqueUids : List Card → Type 0
UniqueUids [] = Unit
UniqueUids (c ∷ cs) =
    (any_row (λ x. x.addressbook_id == c.addressbook_id && bytes_eq x.uid c.uid) cs ≡ false)
    × UniqueUids cs

-- Whether the card was created, if it was put.
abbrev pub created_of : Imported Bool → Option Bool
created_of (ok created) = some created
created_of (err e) = none

any_row-order_by :
    (le : Card → Card → Bool) (test : Card → Bool) (cs : List Card)
    → any_row test (order_by le cs) ≡ any_row test cs
any_row-order_by le test [] = refl
any_row-order_by le test (c ∷ cs) =
    inserted (order_by le cs) ∙ ap (λ b. test c || b) (any_row-order_by le test cs)
  where
    inserted : (xs : List Card) → any_row test (order_insert le c xs) ≡ (test c || any_row test xs)
    inserted [] = refl
    inserted (x ∷ xs) = ground (arith, inserted xs)

any_row-where :
    (test keep : Card → Bool) (cs : List Card)
    → any_row test (where_rows keep cs) ≡ any_row (λ c. keep c && test c) cs
any_row-where test keep [] = refl
any_row-where test keep (c ∷ cs) = ground (arith, any_row-where test keep cs)

module _ (b : ℕ) (h u : Bytes) where
  taken-elsewhere :
      (cs : List Card)
      → any_row (λ c. (c.addressbook_id == b) && (has_uid u c && not (bytes_eq c.href h))) cs
        ≡ any_row (uid_taken b h u) cs
  taken-elsewhere [] = refl
  taken-elsewhere (c ∷ cs) = ground (arith, taken-elsewhere cs)

  -- Where there is no card at the href, another card with the UID is any card with the UID.
  taken-absent :
      (cs : List Card)
      → first_row (card_at b h) cs ≡ none
      → any_row (λ c. (c.addressbook_id == b) && has_uid u c) cs ≡ any_row (uid_taken b h u) cs
  taken-absent [] e = refl
  taken-absent (c ∷ cs) e = ground (arith, taken-absent cs)

  -- The first card at the href is a card of the book there.
  first_row-clash :
      (cs : List Card) (c : Card)
      → first_row (card_at b h) cs ≡ some c
      → bytes_eq c.uid u ≡ true
      → any_row (λ x. (x.addressbook_id == b) && bytes_eq x.uid u) cs ≡ true
  first_row-clash [] c e own = absurd (ground arith)
  first_row-clash (x ∷ cs) c e own = ground (arith, first_row-clash cs c)

  taken-clash :
      (cs : List Card)
      → any_row (λ x. (x.addressbook_id == b) && bytes_eq x.uid u) cs ≡ false
      → any_row (uid_taken b h u) cs ≡ false
  taken-clash [] e = refl
  taken-clash (x ∷ cs) e = ground (arith, taken-clash cs)

  -- No other card has the book and the UID of a card.
  key-only :
      (cs : List Card) (x : Card)
      → UniqueUids (x ∷ cs)
      → x.addressbook_id ≡ b
      → x.uid ≡ u
      → any_row (λ y. (y.addressbook_id == b) && bytes_eq y.uid u) cs ≡ false
  key-only cs x keys at own = rw (sym at) (rw (sym own) (keys.0))

  -- The card that is there and has the UID is the only one that has it.
  taken-own :
      (cs : List Card) (c : Card)
      → UniqueUids cs
      → first_row (card_at b h) cs ≡ some c
      → bytes_eq c.uid u ≡ true
      → any_row (uid_taken b h u) cs ≡ false
  taken-own [] c keys e own = refl
  taken-own (x ∷ cs) c keys e own = elim (Bool-cases (card_at b h x)) [
    | inl here ↦
        let at : x.addressbook_id ≡ b = ground (arith, ==_iff x.addressbook_id b) in
        let owned : x.uid ≡ u = ground (arith, bytes_eq_iff c.uid u) in
        ground (arith, taken-clash cs (key-only cs x keys at owned))
    | inr not_here ↦
        let clash = first_row-clash cs c in
        let later = taken-own cs c (keys.1) in
        let alone = key-only cs x keys in
        ground (arith, clash, later, alone, ==_iff x.addressbook_id b, bytes_eq_iff x.uid u)
  ]

module _ (sha256 : Bytes → Bytes) (clock : ℕ → ℕ) (in_ : PutCardInput) (c : Conn) where
  abbrev existing : Option Card
  existing = find_card in_.addressbook_id in_.href c.db

  abbrev taken : Bool
  taken = any_row (uid_taken in_.addressbook_id in_.href in_.uid) c.db.cards

  abbrev answer : Option Card → Option Bool
  answer found = if taken then none else some (not (exists found))

  get_card-run : c.faults ≡ [] → get_card in_.addressbook_id in_.href c ≡ or_not_found existing c
  unfolding get_card exec
  get_card-run fine = rw fine refl

  abbrev sorted_cards : List Card
  sorted_cards =
      order_by (λ x y. bytes_leb x.href y.href)
        (where_rows (λ x. x.addressbook_id == in_.addressbook_id) c.db.cards)

  list_cards-run : c.faults ≡ [] → list_cards in_.addressbook_id c ≡ (Exec.ok sorted_cards, c)
  unfolding list_cards exec
  list_cards-run fine = rw fine refl

  any_row-sorted :
      (test : Card → Bool)
      → any_row test sorted_cards
        ≡ any_row (λ x. (x.addressbook_id == in_.addressbook_id) && test x) c.db.cards
  any_row-sorted test =
      any_row-order_by (λ x y. bytes_leb x.href y.href) test
        (where_rows (λ x. x.addressbook_id == in_.addressbook_id) c.db.cards)
      ∙ any_row-where test (λ x. x.addressbook_id == in_.addressbook_id) c.db.cards

  outcome-created :
      (conflict created : Bool)
      → created_of (outcome conflict created c).0 ≡ (if conflict then none else some created)
  outcome-created true created = refl
  outcome-created false created = refl

  outcome-still : (conflict created : Bool) → (outcome conflict created c).1 ≡ c
  outcome-still true created = refl
  outcome-still false created = refl

  -- What a dry run says, from the card at the href.
  pub classified :
      (found : Option Card)
      → existing ≡ found
      → c.faults ≡ []
      → UniqueUids c.db.cards
      → created_of (put_or_classify_imported_card sha256 clock none in_ true c).0 ≡ answer found
  unfolding put_or_classify_imported_card find_card
  classified none there fine keys =
      let absent = taken-absent in_.addressbook_id in_.href in_.uid c.db.cards there in
      let conflict = any_row-sorted (has_uid in_.uid) ∙ absent in
      rw (get_card-run fine)
        (rw there (rw (list_cards-run fine) (rw conflict (outcome-created taken true))))
  classified (some card) there fine keys =
      let elsewhere = taken-elsewhere in_.addressbook_id in_.href in_.uid c.db.cards in
      let others = any_row-sorted (λ x. has_uid in_.uid x && not (bytes_eq x.href in_.href)) in
      rw (get_card-run fine) (
        rw there (elim (Bool-cases (bytes_eq card.uid in_.uid)) [
          | inl own ↦
              let alone =
                taken-own in_.addressbook_id in_.href in_.uid c.db.cards card keys there own in
              rw own (rw alone refl)
          | inr changed ↦
              rw changed
                (rw (list_cards-run fine) (rw (others ∙ elsewhere) (outcome-created taken false)))
        ]))

  -- A dry run leaves the connection as it is.
  pub classified-still :
      c.faults ≡ [] → (put_or_classify_imported_card sha256 clock none in_ true c).1 ≡ c
  unfolding put_or_classify_imported_card
  classified-still fine = rw (get_card-run fine) (still existing)
    where
      listed :
          (test : Card → Bool) (created : Bool)
          → ((store (list_cards in_.addressbook_id) >>= λ cards.
                outcome (any_row test cards) created)
              c).1
            ≡ c
      listed test created =
          rw (list_cards-run fine) (outcome-still (any_row test sorted_cards) created)

      still :
          (found : Option Card)
          → (classify in_.addressbook_id in_.href in_.uid
              (or_not_found found c).0
              (or_not_found found c).1).1
            ≡ c
      still none = listed (has_uid in_.uid) true
      still (some card) = elim (Bool-cases (bytes_eq card.uid in_.uid)) [
        | inl own ↦ rw own refl
        | inr changed ↦
            rw changed (listed (λ x. has_uid in_.uid x && not (bytes_eq x.href in_.href)) false)
      ]
