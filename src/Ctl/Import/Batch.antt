-- ===== src/Ctl/Import/Batch.antt =====
-- What the cards of an import in internal/ctl/ctl.go do to the cards after them.
use go_contactd.Prelude.{
  ℕ, ◌&&◌, not, Bytes, Bool, true, false, List, [], ◌∷◌, ◌++◌, Option, none, some, ◌≡◌, refl, ap,
  ◌∙◌, arith, any_row, update_rows, bytes_eq, bytes_eq_iff, if◌then◌else◌, Bool-cases, inl, inr,
}
use go_contactd.Store.Tables.{Card, PutCardInput, PutCardResult, Database}
use go_contactd.Store.Statements.{card_at, uid_taken, book_is, find_card, rewritten, new_card}
use go_contactd.Store.Vcard.{canonicalize_vcard, compute_etag_hex}
use go_contactd.Store.Cards.{invalid_put, exists}
use go_contactd.Store.Cards.Answer.{any_row-bumped}
use go_contactd.Store.Cards.Effect.{Stored}
use go_contactd.Store.Cards.Lookup.{content_at, content_at-Stored}
use go_contactd.Ctl.Import.{has_uid, counted}

-- Two cards of a batch: other hrefs, other UIDs, and no stored card at the first one's href has the
-- second one's UID.
abbrev pub clash : PutCardInput → PutCardInput → List Card → Bool
clash i k cards = any_row (λ c. card_at i.addressbook_id i.href c && has_uid k.uid c) cards

abbrev pub Apart : PutCardInput → PutCardInput → List Card → Type 0
Apart i k cards =
    (bytes_eq i.href k.href ≡ false) × (bytes_eq i.uid k.uid ≡ false) × (clash i k cards ≡ false)

abbrev pub AllApart : PutCardInput → List PutCardInput → List Card → Type 0
AllApart i [] cards = Unit
AllApart i (k ∷ batch) cards = Apart i k cards × AllApart i batch cards

-- Each card of the batch is apart from those after it.
abbrev pub Independent : List PutCardInput → List Card → Type 0
Independent [] cards = Unit
Independent (i ∷ batch) cards = AllApart i batch cards × Independent batch cards

-- Each card is a valid input for a book that exists.
abbrev pub AllReady : List PutCardInput → Database → Type 0
AllReady [] d = Unit
AllReady (i ∷ batch) d =
    ((invalid_put i ≡ false) × (any_row (book_is i.addressbook_id) d.books ≡ true))
    × AllReady batch d

-- Whether a card would be created, if it can be put.
abbrev pub says : PutCardInput → Database → Option Bool
says i d =
    if any_row (uid_taken i.addressbook_id i.href i.uid) d.cards
    then none
    else some (not (exists (find_card i.addressbook_id i.href d)))

abbrev pub add_count : Bool → Option (ℕ × ℕ) → Option (ℕ × ℕ)
add_count created none = none
add_count created (some n) = some (counted created n)

abbrev pub then_count : Option Bool → Option (ℕ × ℕ) → Option (ℕ × ℕ)
then_count none n = none
then_count (some created) n = add_count created n

-- How many cards would be created and updated, each looked at in the same tables.
abbrev pub expected : List PutCardInput → Database → Option (ℕ × ℕ)
expected [] d = some (0, 0)
expected (i ∷ batch) d = then_count (says i d) (expected batch d)

taken-rewritten :
    (i k : PutCardInput) (etag vcard : Bytes) (now : ℕ) (cards : List Card)
    → bytes_eq i.uid k.uid ≡ false
    → clash i k cards ≡ false
    → any_row
        (uid_taken k.addressbook_id k.href k.uid)
        (update_rows (card_at i.addressbook_id i.href) (rewritten i.uid etag vcard now) cards)
      ≡ any_row (uid_taken k.addressbook_id k.href k.uid) cards
taken-rewritten i k etag vcard now [] differ free = refl
taken-rewritten i k etag vcard now (c ∷ cards) differ free =
    ground (arith, taken-rewritten i k etag vcard now cards)

taken-new :
    (i k : PutCardInput) (n : ℕ) (etag vcard : Bytes) (now : ℕ) (cards : List Card)
    → bytes_eq i.uid k.uid ≡ false
    → any_row
        (uid_taken k.addressbook_id k.href k.uid)
        (cards ++ new_card n i.addressbook_id i.href i.uid etag vcard now ∷ [])
      ≡ any_row (uid_taken k.addressbook_id k.href k.uid) cards
taken-new i k n etag vcard now [] differ = ground arith
taken-new i k n etag vcard now (c ∷ cards) differ =
    ground (arith, taken-new i k n etag vcard now cards)

clash-rewritten :
    (i j k : PutCardInput) (etag vcard : Bytes) (now : ℕ) (cards : List Card)
    → bytes_eq i.href j.href ≡ false
    → clash j k
        (update_rows (card_at i.addressbook_id i.href) (rewritten i.uid etag vcard now) cards)
      ≡ clash j k cards
clash-rewritten i j k etag vcard now [] differ = refl
clash-rewritten i j k etag vcard now (c ∷ cards) differ =
    ground (arith, clash-rewritten i j k etag vcard now cards, bytes_eq_iff c.href i.href)

clash-new :
    (i j k : PutCardInput) (n : ℕ) (etag vcard : Bytes) (now : ℕ) (cards : List Card)
    → bytes_eq i.href j.href ≡ false
    → clash j k (cards ++ new_card n i.addressbook_id i.href i.uid etag vcard now ∷ [])
      ≡ clash j k cards
clash-new i j k n etag vcard now [] differ = ground arith
clash-new i j k n etag vcard now (c ∷ cards) differ =
    ground (arith, clash-new i j k n etag vcard now cards)

exists-content :
    (b : ℕ) (h : Bytes) (d : Database)
    → exists (find_card b h d) ≡ elim (content_at b h d) [ none ↦ false | some x ↦ true ]
exists-content b h d = ground arith

-- After the put of `i`, the cards that are apart from it see what they saw.
module _ (sha256 : Bytes → Bytes) (now : ℕ) (i : PutCardInput) (d d' : Database)
    {res : PutCardResult}
    (stored : Stored sha256 now i (find_card i.addressbook_id i.href d) d res d') where
  taken-Stored :
      (k : PutCardInput)
      → Apart i k d.cards
      → any_row (uid_taken k.addressbook_id k.href k.uid) d'.cards
        ≡ any_row (uid_taken k.addressbook_id k.href k.uid) d.cards
  taken-Stored k (href, uid, free) =
      let canonical = canonicalize_vcard i.vcard in
      let etag = compute_etag_hex sha256 canonical in
      elim (Bool-cases (exists (find_card i.addressbook_id i.href d))) [
        | inl there ↦ ground (arith, stored.cards, taken-rewritten i k etag canonical now d.cards)
        | inr absent ↦
            ground (arith, stored.cards, taken-new i k d.next_card etag canonical now d.cards)
      ]

  clash-Stored :
      (j k : PutCardInput) → bytes_eq i.href j.href ≡ false → clash j k d'.cards ≡ clash j k d.cards
  clash-Stored j k differ =
      let canonical = canonicalize_vcard i.vcard in
      let etag = compute_etag_hex sha256 canonical in
      elim (Bool-cases (exists (find_card i.addressbook_id i.href d))) [
        | inl there ↦ ground (arith, stored.cards, clash-rewritten i j k etag canonical now d.cards)
        | inr absent ↦
            ground (arith, stored.cards, clash-new i j k d.next_card etag canonical now d.cards)
      ]

  says-Stored : (k : PutCardInput) → Apart i k d.cards → says k d' ≡ says k d
  says-Stored k (href, uid, free) = ground (
    arith,
    taken-Stored k (href, uid, free),
    exists-content k.addressbook_id k.href d,
    exists-content k.addressbook_id k.href d',
    content_at-Stored sha256 now i k.addressbook_id k.href d stored,
  )

  pub expected-Stored :
      (batch : List PutCardInput) → AllApart i batch d.cards → expected batch d' ≡ expected batch d
  expected-Stored [] apart = refl
  expected-Stored (k ∷ batch) (first, apart) =
      ap (λ s. then_count s (expected batch d')) (says-Stored k first)
      ∙ ap (then_count (says k d)) (expected-Stored batch apart)

  AllApart-Stored :
      (j : PutCardInput) (batch : List PutCardInput)
      → bytes_eq i.href j.href ≡ false
      → AllApart j batch d.cards
      → AllApart j batch d'.cards
  AllApart-Stored j [] differ apart = tt
  AllApart-Stored j (k ∷ batch) differ ((href, uid, free), apart) =
      ((href, uid, clash-Stored j k differ ∙ free), AllApart-Stored j batch differ apart)

  pub Independent-Stored :
      (batch : List PutCardInput)
      → AllApart i batch d.cards
      → Independent batch d.cards
      → Independent batch d'.cards
  Independent-Stored [] apart independent = tt
  Independent-Stored (j ∷ batch) ((href, uid, free), apart) (alone, independent) =
      (AllApart-Stored j batch href alone, Independent-Stored batch apart independent)

  pub AllReady-Stored : (batch : List PutCardInput) → AllReady batch d → AllReady batch d'
  AllReady-Stored [] ready = tt
  AllReady-Stored (k ∷ batch) ((valid, there), ready) = (
    (
      valid,
      ap (any_row (book_is k.addressbook_id)) stored.books
          ∙ (any_row-bumped k.addressbook_id i.addressbook_id now d.books ∙ there),
    ),
    AllReady-Stored batch ready,
  )
