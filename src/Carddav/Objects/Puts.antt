-- ===== src/Carddav/Objects/Puts.antt =====
-- What a put of internal/carddav/backend.go has done that succeeds.
use mathlib.Core.Path.{subst}
use go_contactd.Prelude.{
  ℕ, Bytes, Bool, false, Option, none, some, ◌≡◌, refl, sym, ap, ◌∙◌, arith, inl, inr, ◌⊎◌,
}
use go_contactd.Store.Tables.{Card, Database, PutCardInput, PutCardConditions, PutCardResult}
use go_contactd.Store.Exec.{StoreError, Conn, Exec, exec}
use go_contactd.Store.Exec
use go_contactd.Store.Statements.{find_card}
use go_contactd.Store.Changes.{get_card}
use go_contactd.Store.Cards.{put_card, put_card_conditional, precondition_fails}
use go_contactd.Store.Cards.Effect.{put_card_checked-Stored, Stored}
use go_contactd.Carddav.{
  Reply, ok, err, Request, BackendError, ◌>>=◌, store_with, store, pure, lift,
}
use go_contactd.Carddav.Objects.{
  Codec, AddressObject, PutAddressObjectOptions, check_conditional,
  put_card_conditions_from_request, existing_card, write_with, write_object, put_object,
  strict_uid_from_card, to_address_object, or_status, put_err,
}

reply-cases :
    {A : Type 0} (r : Reply A) → ((a : A) × (r ≡ ok a)) ⊎ ((e : BackendError) × (r ≡ err e))
reply-cases (ok a) = inl (a, refl)
reply-cases (err e) = inr (e, refl)

module _ {A B : Type 0} where
  pub bind-ok :
      (m : Request A) (f : A → Request B) (c : Conn) {x : B} {c' : Conn}
      → (m >>= f) c ≡ (ok x, c')
      → (a : A) × (c1 : Conn) × (m c ≡ (ok a, c1)) × (f a c1 ≡ (ok x, c'))
  bind-ok m f c h = elim (reply-cases (m c).0) [
    | inl (a, e) ↦ (a, (m c).1, ground (arith, e), ground (arith, e))
    | inr (e, e') ↦ absurd (ground (arith, e'))
  ]

result-cases :
    {A : Type 0} (r : Exec.Result A)
    → ((a : A) × (r ≡ Exec.ok a)) ⊎ ((e : StoreError) × (r ≡ Exec.err e))
result-cases (Exec.ok a) = inl (a, refl)
result-cases (Exec.err e) = inr (e, refl)

get_card-db : (b : ℕ) (h : Bytes) (c : Conn) → (get_card b h c).1.db ≡ c.db
unfolding get_card exec
get_card-db b h c = ground arith

existing_card-ok :
    (b : ℕ) (h : Bytes) (c : Conn) {e : Option Card} {c1 : Conn}
    → existing_card b h c ≡ (ok e, c1)
    → (e ≡ find_card b h c.db) × (c1.db ≡ c.db)
unfolding get_card exec
existing_card-ok b h c ran = ground arith

store_with-ok :
    {A : Type 0} (f : StoreError → BackendError) (m : Exec A) (c : Conn) {a : A} {c' : Conn}
    → store_with f m c ≡ (ok a, c')
    → m c ≡ (Exec.ok a, c')
store_with-ok f m c h = elim (result-cases (m c).0) [
  | inl (a, e) ↦ ground (arith, e)
  | inr (e, failed) ↦ absurd (ground (arith, failed))
]

or_status-ok :
    {A : Type 0} (status : ℕ) (o : Option A) (c : Conn) {a : A} {c' : Conn}
    → or_status status o c ≡ (ok a, c')
    → (o ≡ some a) × (c' ≡ c)
or_status-ok status none c h = absurd (ground arith)
or_status-ok status (some a) c h = (ground arith, ground arith)

lift-ok :
    (r : Reply (Unit {0})) (c : Conn) {a : Unit {0}} {c' : Conn}
    → lift r c ≡ (ok a, c')
    → (r ≡ ok tt) × (c' ≡ c)
lift-ok (ok tt) c h = (refl, ground arith)
lift-ok (err e) c h = absurd (ground arith)

put_tail :
    {A : Type 0} (ao : Option A) (created : Bool) (c : Conn) {x : A × Bool} {c' : Conn}
    → (or_status 500 ao >>= λ a. pure (a, created)) c ≡ (ok x, c')
    → (c' ≡ c) × (x.1 ≡ created)
put_tail none created c ran = absurd (ground arith)
put_tail (some a) created c ran = (ground arith, ground arith)

-- What a put has done that succeeds.
pub record Put {VCard : Type 0} (codec : Codec VCard) (sha256 : Bytes → Bytes) (now : ℕ) (b : ℕ)
    (href : Bytes) (card : VCard) (opts : Option PutAddressObjectOptions)
    (before meantime after : Database) (created : Bool) : Type 0 where
  pub uid : Bytes
  pub raw : Bytes
  pub result : PutCardResult
  pub is_uid : strict_uid_from_card codec card ≡ some uid
  pub is_raw : codec.encode card ≡ some raw
  pub checked : check_conditional (find_card b href before) opts ≡ ok tt
  pub passed :
      precondition_fails
        (put_card_conditions_from_request (find_card b href before) opts)
        (find_card b href meantime)
      ≡ false
  pub is_created : created ≡ result.created
  pub stored :
      Stored sha256 now
        (record { addressbook_id = b; href = href; uid = uid; vcard = raw })
        (find_card b href meantime)
        meantime
        result
        after

module _ {VCard : Type 0} (codec : Codec VCard) (sha256 : Bytes → Bytes) (now : ℕ)
    (hook : Option StoreError) where
  write_with-Stored :
      (in_ : PutCardInput) (cond : Option PutCardConditions) (c : Conn) {res : PutCardResult}
      {c' : Conn}
      → write_with sha256 now hook in_ cond c ≡ (Exec.ok res, c')
      → (precondition_fails cond (find_card in_.addressbook_id in_.href c.db) ≡ false)
        × Stored sha256 now in_ (find_card in_.addressbook_id in_.href c.db) c.db res c'.db
  unfolding put_card put_card_conditional
  write_with-Stored in_ none c h =
      let (valid, passed, stored) = put_card_checked-Stored sha256 now hook in_ none c h in
      (passed, stored)
  write_with-Stored in_ (some cond) c h =
      let (valid, passed, stored) = put_card_checked-Stored sha256 now hook in_ (some cond) c h in
      (passed, stored)

  write_object-Stored :
      (user slug href : Bytes) (b : ℕ) (in_ : PutCardInput) (cond : Option PutCardConditions)
      (c : Conn) {x : AddressObject codec × Bool} {c' : Conn}
      → write_object codec sha256 now hook user slug href b in_ cond c ≡ (ok x, c')
      → (res : PutCardResult) × (x.1 ≡ res.created)
        × (precondition_fails cond (find_card in_.addressbook_id in_.href c.db) ≡ false)
        × Stored sha256 now in_ (find_card in_.addressbook_id in_.href c.db) c.db res c'.db
  unfolding write_object
  write_object-Stored user slug href b in_ cond c {x} {c'} h =
      let (res, c1, wrote, rest) =
        bind-ok (store_with put_err (write_with sha256 now hook in_ cond)) _ c h in
      let (row, c2, read, rest') = bind-ok (store (get_card b href)) _ c1 rest in
      let (same, created) = put_tail (to_address_object codec user slug row) res.created c2 rest' in
      let (passed, stored) =
        write_with-Stored in_ cond c
          (store_with-ok put_err (write_with sha256 now hook in_ cond) c wrote) in
      let db : c'.db ≡ c1.db =
        ap (λ (k : Conn). k.db) same
        ∙ sym (ap (λ (p : Reply Card × Conn). p.1.db) read)
        ∙ get_card-db b href c1 in
      (
        res,
        created,
        passed,
        subst (Stored sha256 now in_ (find_card in_.addressbook_id in_.href c.db) c.db res) (sym db)
            stored,
      )

  pub put_object-Put :
      (user slug href : Bytes) (b : ℕ) (card : VCard) (opts : Option PutAddressObjectOptions)
      (meanwhile : Database → Database) (c : Conn) {x : AddressObject codec × Bool} {c' : Conn}
      → put_object codec sha256 now hook user slug href b card opts meanwhile c ≡ (ok x, c')
      → Put codec sha256 now b href card opts c.db (meanwhile c.db) c'.db x.1
  unfolding put_object
  put_object-Put user slug href b card opts meanwhile c {x} {c'} h =
      let (existing, c1, read, r1) = bind-ok (existing_card b href) _ c h in
      let (found, same1) = existing_card-ok b href c read in
      let (t, c2, checked, r2) = bind-ok (lift (check_conditional existing opts)) _ c1 r1 in
      let (uid, c3, is_uid, r3) =
        bind-ok (or_status 400 (strict_uid_from_card codec card)) _ c2 r2 in
      let (raw, c4, is_raw, r4) = bind-ok (or_status 400 (codec.encode card)) _ c3 r3 in
      let in_ : PutCardInput = record { addressbook_id = b; href = href; uid = uid; vcard = raw } in
      let cond = put_card_conditions_from_request existing opts in
      let c5 : Conn = record c4 { db = meanwhile c4.db } in
      let (has_uid, same3) = or_status-ok 400 (strict_uid_from_card codec card) c2 is_uid in
      let (has_raw, same4) = or_status-ok 400 (codec.encode card) c3 is_raw in
      let (passed_check, same2) = lift-ok (check_conditional existing opts) c1 checked in
      let (res, created, passed, stored) = write_object-Stored user slug href b in_ cond c5 r4 in
      let same : c5.db ≡ meanwhile c.db =
        ap meanwhile (ap (λ (k : Conn). k.db) (same4 ∙ same3 ∙ same2) ∙ same1) in
      record {
        uid = uid;
        raw = raw;
        result = res;
        is_uid = has_uid;
        is_raw = has_raw;
        checked = subst (λ e. check_conditional e opts ≡ ok tt) found passed_check;
        passed =
            subst
              (λ e.
                precondition_fails (put_card_conditions_from_request e opts)
                  (find_card b href (meanwhile c.db))
                ≡ false)
              found (subst (λ d. precondition_fails cond (find_card b href d) ≡ false) same passed);
        is_created = created;
        stored = subst (λ d. Stored sha256 now in_ (find_card b href d) d res c'.db) same stored;
      }
