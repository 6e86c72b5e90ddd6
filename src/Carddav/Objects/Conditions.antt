-- ===== src/Carddav/Objects/Conditions.antt =====
-- Conditional puts of internal/carddav/backend.go while other requests write.
use go_contactd.Prelude.{
  ℕ, not, Bytes, Bool, true, false, Option, none, some, if◌then◌else◌, ◌≡◌, refl, ap, ◌∙◌, arith,
  bytes_eq_iff,
}
use go_contactd.Store.Tables.{Card, Database, PutCardInput}
use go_contactd.Store.Exec.{StoreError, Conn}
use go_contactd.Store.Statements.{find_card}
use go_contactd.Store.Vcard.{canonicalize_vcard, compute_etag_hex}
use go_contactd.Store.Cards.{precondition_fails, exists}
use go_contactd.Store.Cards.Lookup.{content_at, content_at-Stored, same_place}
use go_contactd.Carddav.{ok}
use go_contactd.Carddav.Objects.{
  Codec, AddressObject, PutAddressObjectOptions, check_conditional,
  put_card_conditions_from_request, put_object, strict_uid_from_card,
}
use go_contactd.Carddav.Objects.Puts.{put_object-Put}

absent_required :
    (opts : PutAddressObjectOptions) (seen there : Option Card)
    → opts.if_none_match.is_set ≡ true
    → opts.if_none_match.is_wildcard ≡ true
    → precondition_fails (put_card_conditions_from_request seen (some opts)) there ≡ false
    → there ≡ none
unfolding put_card_conditions_from_request precondition_fails
absent_required opts seen none set wild passed = refl
absent_required opts seen (some c) set wild passed = absurd (ground arith)

match_required :
    (opts : PutAddressObjectOptions) (seen there : Option Card)
    → opts.if_match.is_set ≡ true
    → check_conditional seen (some opts) ≡ ok tt
    → precondition_fails (put_card_conditions_from_request seen (some opts)) there ≡ false
    → (replaced : Card) × (there ≡ some replaced)
      × (opts.if_match.match_etag replaced.etag_hex ≡ some true)
unfolding put_card_conditions_from_request precondition_fails check_conditional
match_required opts none there set checked passed = absurd (ground arith)
match_required opts (some c) none set checked passed = absurd (ground arith)
match_required opts (some c) (some d) set checked passed =
    (d, refl, ground (arith, bytes_eq_iff d.etag_hex c.etag_hex))

module _ {VCard : Type 0} (codec : Codec VCard) (sha256 : Bytes → Bytes) (now : ℕ)
    (hook : Option StoreError) where
  -- A put with `If-None-Match: *` that succeeds has created the card: at the moment of the write
  -- there was none at its place, whatever other requests have written since the backend looked.
  pub put_object-if_none_match :
      (user slug href : Bytes) (b : ℕ) (card : VCard) (opts : PutAddressObjectOptions)
      (meanwhile : Database → Database) (c : Conn) {x : AddressObject codec × Bool} {c' : Conn}
      → opts.if_none_match.is_set ≡ true
      → opts.if_none_match.is_wildcard ≡ true
      → put_object codec sha256 now hook user slug href b card (some opts) meanwhile c ≡ (ok x, c')
      → (find_card b href (meanwhile c.db) ≡ none) × (x.1 ≡ true)
  put_object-if_none_match user slug href b card opts meanwhile c set wild h =
      let put =
        put_object-Put codec sha256 now hook user slug href b card (some opts) meanwhile c h in
      let absent =
        absent_required opts (find_card b href c.db) (find_card b href (meanwhile c.db)) set wild
          put.passed in
      (absent, put.is_created ∙ put.stored.created ∙ ap (λ e. not (exists e)) absent)

  -- A put with `If-Match` that succeeds has replaced a card whose ETag, at the moment of the write,
  -- matched the condition: a card that other requests have changed since the backend looked is
  -- never overwritten unseen.
  pub put_object-if_match :
      (user slug href : Bytes) (b : ℕ) (card : VCard) (opts : PutAddressObjectOptions)
      (meanwhile : Database → Database) (c : Conn) {x : AddressObject codec × Bool} {c' : Conn}
      → opts.if_match.is_set ≡ true
      → put_object codec sha256 now hook user slug href b card (some opts) meanwhile c ≡ (ok x, c')
      → (replaced : Card) × (find_card b href (meanwhile c.db) ≡ some replaced)
        × (opts.if_match.match_etag replaced.etag_hex ≡ some true)
        × (x.1 ≡ false)
  put_object-if_match user slug href b card opts meanwhile c set h =
      let put =
        put_object-Put codec sha256 now hook user slug href b card (some opts) meanwhile c h in
      let (replaced, there, matches) =
        match_required opts (find_card b href c.db) (find_card b href (meanwhile c.db)) set
          put.checked put.passed in
      (
        replaced,
        there,
        matches,
        put.is_created ∙ put.stored.created ∙ ap (λ e. not (exists e)) there,
      )

  -- A put that succeeds leaves at its place the card's one UID, the canonical text of the encoded
  -- card and the ETag of that text, and every other card as it was at the moment of the write.
  pub put_object-content :
      (user slug href : Bytes) (b : ℕ) (card : VCard) (opts : Option PutAddressObjectOptions)
      (meanwhile : Database → Database) (c : Conn) {x : AddressObject codec × Bool} {c' : Conn}
      → put_object codec sha256 now hook user slug href b card opts meanwhile c ≡ (ok x, c')
      → (uid : Bytes) × (raw : Bytes) × (strict_uid_from_card codec card ≡ some uid)
        × (codec.encode card ≡ some raw)
        × ((b' : ℕ) (h' : Bytes)
            → content_at b' h' c'.db ≡ (
                if same_place b href b' h'
                then some
                    (uid, compute_etag_hex sha256 (canonicalize_vcard raw), canonicalize_vcard raw)
                else content_at b' h' (meanwhile c.db)))
  put_object-content user slug href b card opts meanwhile c {x} {c'} h =
      let put = put_object-Put codec sha256 now hook user slug href b card opts meanwhile c h in
      let in_ : PutCardInput = record {
        addressbook_id = b;
        href = href;
        uid = put.uid;
        vcard = put.raw;
      } in
      (
        put.uid,
        put.raw,
        put.is_uid,
        put.is_raw,
        λ b' h'.
            content_at-Stored sha256 now in_ b' h' (meanwhile c.db) put.stored
            ∙ ap
                (λ e.
                  if same_place b href b' h'
                  then some (put.uid, e, canonicalize_vcard put.raw)
                  else content_at b' h' (meanwhile c.db))
                put.stored.etag,
      )
