-- ===== src/Carddav/Objects/Others.antt =====
-- What the writes of internal/carddav/backend.go leave alone: the cards of every other book.
use go_contactd.Prelude.{
  ℕ, ◌==◌, Bytes, false, Option, none, some, ◌≡◌, refl, ap, ◌∙◌, arith, inl, inr,
}
use go_contactd.Store.Tables.{Database, PutCardInput, PutCardConditions}
use go_contactd.Store.Exec.{StoreError, Conn, Exec, exec}
use go_contactd.Store.Exec.Laws.{result-cases}
use go_contactd.Store.Changes.{get_card}
use go_contactd.Store.Cards.{
  put_card, put_card_conditional, put_card_checked, delete_card, delete_card_conditional,
  delete_card_checked,
}
use go_contactd.Store.Cards.Effect.{put_card_checked-Stored, delete_card_checked-Removed}
use go_contactd.Store.Cards.Atomic.{put_card_checked-atomic, delete_card_checked-atomic}
use go_contactd.Store.Cards.Lookup.{content_at, content_at-Stored, content_at-Removed}
use go_contactd.Carddav.{Reply, ok, err, Request, ◌>>=◌, lift, continue, store_with, store}
use go_contactd.Carddav.Objects.{
  Codec, PutAddressObjectOptions, check_conditional, put_card_conditions_from_request,
  existing_card, write_with, write_object, put_object, delete_with, strict_uid_from_card,
  to_address_object, or_status, put_err,
}

-- A request, or an operation of the store, that leaves `f` of the tables as it was.
module _ {X : Type 0} (f : Database → X) where
  abbrev pub Keeps : {A : Type 0} → Request A → Type 0
  Keeps m = (c : Conn) → f (m c).1.db ≡ f c.db

  abbrev pub StoreKeeps : {A : Type 0} → Exec A → Type 0
  StoreKeeps m = (c : Conn) → f (m c).1.db ≡ f c.db

  continue-Keeps :
      {A B : Type 0} (r : Reply A) (g : A → Request B) (c : Conn)
      → ((a : A) → Keeps (g a))
      → f (continue r g c).1.db ≡ f c.db
  continue-Keeps (ok a) g c k = k a c
  continue-Keeps (err e) g c k = refl

  pub continue-at :
      {A B : Type 0} (r : Reply A) (g : A → Request B) (c : Conn)
      → ((a : A) → r ≡ ok a → f (g a c).1.db ≡ f c.db)
      → f (continue r g c).1.db ≡ f c.db
  continue-at (ok a) g c k = k a refl
  continue-at (err e) g c k = refl

  pub bind-Keeps :
      {A B : Type 0} (m : Request A) (g : A → Request B)
      → Keeps m
      → ((a : A) → Keeps (g a))
      → Keeps (m >>= g)
  bind-Keeps m g km kg c = continue-Keeps (m c).0 g (m c).1 kg ∙ km c

  pub or_status-Keeps : {A : Type 0} (status : ℕ) (o : Option A) → Keeps (or_status status o)
  or_status-Keeps status none c = refl
  or_status-Keeps status (some a) c = refl

  pub get_card-Keeps : (b : ℕ) (h : Bytes) → StoreKeeps (get_card b h)
  unfolding get_card exec
  get_card-Keeps b h c = ground arith

module _ (b b' : ℕ) (h' : Bytes) (other : (b == b') ≡ false) where
  put_card_checked-other :
      (sha256 : Bytes → Bytes) (now : ℕ) (hook : Option StoreError) (in_ : PutCardInput)
      (cond : Option PutCardConditions)
      → in_.addressbook_id ≡ b
      → StoreKeeps (content_at b' h') (put_card_checked sha256 now hook in_ cond)
  put_card_checked-other sha256 now hook in_ cond at c =
      elim (result-cases (put_card_checked sha256 now hook in_ cond) c) [
        | inl (res, done) ↦
            let (valid, passed, stored) = put_card_checked-Stored sha256 now hook in_ cond c done in
            ground (arith, content_at-Stored sha256 now in_ b' h' c.db stored)
        | inr (e, failed) ↦
            ap (content_at b' h') (put_card_checked-atomic sha256 now hook in_ cond c failed)
      ]

  delete_card_checked-other :
      (now : ℕ) (h : Bytes) (expected : Option Bytes)
      → StoreKeeps (content_at b' h') (delete_card_checked now b h expected)
  delete_card_checked-other now h expected c =
      elim (result-cases (delete_card_checked now b h expected) c) [
        | inl (t, done) ↦
            let (card, found, passed, removed) =
              delete_card_checked-Removed now b h expected c done in
            ground (arith, content_at-Removed now b h b' h' card c.db removed)
        | inr (e, failed) ↦
            ap (content_at b' h') (delete_card_checked-atomic now b h expected c failed)
      ]

module _ (b b' : ℕ) (h' : Bytes) (other : (b == b') ≡ false) where
  write_with-other :
      (sha256 : Bytes → Bytes) (now : ℕ) (hook : Option StoreError) (in_ : PutCardInput)
      (cond : Option PutCardConditions)
      → in_.addressbook_id ≡ b
      → StoreKeeps (content_at b' h') (write_with sha256 now hook in_ cond)
  unfolding put_card put_card_conditional
  write_with-other sha256 now hook in_ none at =
      put_card_checked-other b b' h' other sha256 now hook in_ none at
  write_with-other sha256 now hook in_ (some cond) at =
      put_card_checked-other b b' h' other sha256 now hook in_ (some cond) at

  write_object-other :
      {VCard : Type 0} (codec : Codec VCard) (sha256 : Bytes → Bytes) (now : ℕ)
      (hook : Option StoreError) (user slug href : Bytes) (in_ : PutCardInput)
      (cond : Option PutCardConditions)
      → in_.addressbook_id ≡ b
      → Keeps (content_at b' h') (write_object codec sha256 now hook user slug href b in_ cond)
  unfolding write_object
  write_object-other codec sha256 now hook user slug href in_ cond at =
      let f = content_at b' h' in
      bind-Keeps f (store_with put_err (write_with sha256 now hook in_ cond)) _
        (write_with-other sha256 now hook in_ cond at)
        (λ res. bind-Keeps f (store (get_card b href)) _ (get_card-Keeps f b href) (λ row.
          bind-Keeps f (or_status 500 (to_address_object codec user slug row)) _
            (or_status-Keeps f 500 _) (λ ao c. refl)))

  pub delete_with-other :
      (now : ℕ) (h : Bytes) (expected : Option Bytes)
      → StoreKeeps (content_at b' h') (delete_with now b h expected)
  unfolding delete_card delete_card_conditional
  delete_with-other now h none = delete_card_checked-other b b' h' other now h none
  delete_with-other now h (some e) = delete_card_checked-other b b' h' other now h (some e)

  pub put_object-other :
      {VCard : Type 0} (codec : Codec VCard) (sha256 : Bytes → Bytes) (now : ℕ)
      (hook : Option StoreError) (user slug href : Bytes) (card : VCard)
      (opts : Option PutAddressObjectOptions)
      → Keeps
          (content_at b' h')
          (put_object codec sha256 now hook user slug href b card opts (λ d. d))
  unfolding put_object write_object
  put_object-other codec sha256 now hook user slug href card opts =
      let f = content_at b' h' in
      bind-Keeps f (existing_card b href) _ (get_card-Keeps f b href) (λ existing.
        bind-Keeps f (lift (check_conditional existing opts)) _ (λ c. refl)
          (λ passed.
            bind-Keeps f (or_status 400 (strict_uid_from_card codec card)) _
              (or_status-Keeps f 400 _)
              (λ uid.
                bind-Keeps f (or_status 400 (codec.encode card)) _ (or_status-Keeps f 400 _) (λ raw.
                  write_object-other codec sha256 now hook user slug href
                    (record { addressbook_id = b; href = href; uid = uid; vcard = raw })
                    (put_card_conditions_from_request existing opts) refl))))
