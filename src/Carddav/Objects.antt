-- ===== src/Carddav/Objects.antt =====
-- Cards in internal/carddav/backend.go: reading, conditional puts and deletes. `VCard` with its
-- codec is package vcard's; `meanwhile` is what other requests have committed between the read of the
-- card that is there and the write.
pub mod Puts
pub mod Conditions
pub mod Others
pub mod Tenants
use go_contactd.Prelude.{
  ℕ, ◌&&◌, ◌||◌, not, Bytes, Bool, true, false, List, [], ◌∷◌, ◌++◌, Option, none, some, lit,
  if◌then◌else◌, length,
}
use go_contactd.Strings.{trim_space}
use go_contactd.Strings.Paths.{is_empty}
use go_contactd.Store.Tables.{Card, PutCardInput, PutCardConditions, PutCardResult, Database}
use go_contactd.Store.Exec.{StoreError, not_found, Conn, Exec}
use go_contactd.Store.Exec
use go_contactd.Store.Books.{get_addressbook_by_username_slug}
use go_contactd.Store.Changes.{get_card, list_cards}
use go_contactd.Store.Cards.{put_card, put_card_conditional, delete_card, delete_card_conditional}
use go_contactd.Sync.Pages.{full_href, quoted}
use go_contactd.Carddav.{
  BackendError, http_error, no_uid_conflict, Reply, ok, err, Request, continue, ◌>>=◌, pure, refuse,
  lift, map_store_err, is_unique_err, store, store_with, from_store,
  parse_addressbook_path_for_principal, parse_card_path_for_principal,
}

-- What a request uses of a webdav.ConditionalMatch: `match_etag` is its MatchETag, `none` an error.
pub record ConditionalMatch : Type 0 where
  pub is_set : Bool
  pub is_wildcard : Bool
  pub match_etag : Bytes → Option Bool

pub record PutAddressObjectOptions : Type 0 where
  pub if_none_match : ConditionalMatch
  pub if_match : ConditionalMatch

-- What the backend uses of package vcard; `none` is an error.
pub record Codec (VCard : Type 0) : Type 0 where
  pub encode : VCard → Option Bytes
  pub decode : Bytes → Option VCard
  pub uids : VCard → List Bytes

abbrev if_none_match_of : ConditionalMatch → Option Card → Reply (Unit {0})
if_none_match_of m none = ok tt
if_none_match_of m (some c) = elim (m.match_etag c.etag_hex) [
  | none ↦ err (http_error 400)
  | some matches ↦ if m.is_wildcard || matches then err (http_error 412) else ok tt
]

abbrev if_match_of : ConditionalMatch → Option Card → Reply (Unit {0})
if_match_of m none = err (http_error 412)
if_match_of m (some c) = elim (m.match_etag c.etag_hex) [
  | none ↦ err (http_error 400)
  | some matches ↦ if matches then ok tt else err (http_error 412)
]

abbrev when_set : ConditionalMatch → Reply (Unit {0}) → Reply (Unit {0})
when_set m r = if m.is_set then r else ok tt

abbrev both : Reply (Unit {0}) → Reply (Unit {0}) → Reply (Unit {0})
both (ok _) r = r
both (err e) r = err e

unfoldable pub check_conditional : Option Card → Option PutAddressObjectOptions → Reply (Unit {0})
check_conditional existing none = ok tt
check_conditional existing (some opts) =
    both (when_set opts.if_none_match (if_none_match_of opts.if_none_match existing))
      (when_set opts.if_match (if_match_of opts.if_match existing))

abbrev pub etag_of : Option Card → Option Bytes
etag_of none = none
etag_of (some c) = some c.etag_hex

abbrev is_some : Option Bytes → Bool
is_some none = false
is_some (some _) = true

-- `none` is `ok == false`.
unfoldable pub put_card_conditions_from_request :
    Option Card → Option PutAddressObjectOptions → Option PutCardConditions
put_card_conditions_from_request existing none = none
put_card_conditions_from_request existing (some opts) =
    let absent = opts.if_none_match.is_set && opts.if_none_match.is_wildcard in
    let expected = if opts.if_match.is_set then etag_of existing else none in
    if absent || is_some expected
    then some (record { require_absent = absent; expected_current_etag_hex = expected })
    else none

-- quoteETag
abbrev pub quote_etag : Bytes → Bytes
quote_etag hex = quoted hex

-- PutCard's errors in putAddressObject.
abbrev pub put_err : StoreError → BackendError
put_err e = if is_unique_err e then no_uid_conflict else map_store_err e

-- GetCard where no card is no error.
abbrev pub card_if_any : Exec.Result Card → Reply (Option Card)
card_if_any (Exec.ok c) = ok (some c)
card_if_any (Exec.err not_found) = ok none
card_if_any (Exec.err e) = err (map_store_err e)

abbrev pub existing_card : ℕ → Bytes → Request (Option Card)
existing_card b h c = let (r, c') = get_card b h c in (card_if_any r, c')

abbrev pub or_status : {A : Type 0} → ℕ → Option A → Request A
or_status status none = refuse (http_error status)
or_status status (some a) = pure a

abbrev strict_uid : List Bytes → Option Bytes
strict_uid (value ∷ []) = let uid = trim_space value in if is_empty uid then none else some uid
strict_uid _ = none

module _ (sha256 : Bytes → Bytes) (now : ℕ) (hook : Option StoreError) where
  abbrev pub write_with : PutCardInput → Option PutCardConditions → Exec PutCardResult
  write_with in_ none = put_card sha256 now hook in_
  write_with in_ (some cond) = put_card_conditional sha256 now hook in_ cond

abbrev pub others : (Database → Database) → Request (Unit {0})
others meanwhile c = (ok tt, record c { db = meanwhile c.db })

module _ {VCard : Type 0} (codec : Codec VCard) where
  pub record AddressObject : Type 0 where
    pub path : Bytes
    pub mod_time : ℕ
    pub content_length : ℕ
    pub etag : Bytes
    pub card : VCard

  unfoldable pub strict_uid_from_card : VCard → Option Bytes
  strict_uid_from_card card = strict_uid (codec.uids card)

  unfoldable pub to_address_object : (user slug : Bytes) → Card → Option AddressObject
  to_address_object user slug row = elim (codec.decode row.vcard) [
    | none ↦ none
    | some card ↦ some (record {
      path = full_href user slug row.href;
      mod_time = row.mod_time;
      content_length = length row.vcard;
      etag = quote_etag row.etag_hex;
      card = card;
    })
  ]

  -- The loop of ListAddressObjects.
  unfoldable pub to_address_objects : (user slug : Bytes) → List Card → Option (List AddressObject)
  to_address_objects user slug [] = some []
  to_address_objects user slug (row ∷ rows) =
      let rest = to_address_objects user slug rows in
      elim (to_address_object user slug row) [
        | none ↦ none
        | some ao ↦ elim rest [ none ↦ none | some aos ↦ some (ao ∷ aos) ]
      ]

  module _ (sha256 : Bytes → Bytes) (now : ℕ) (hook : Option StoreError) where
    -- putAddressObject from the write on.
    unfoldable pub write_object :
        (user slug href : Bytes) (b : ℕ)
        → PutCardInput
        → Option PutCardConditions
        → Request (AddressObject × Bool)
    write_object user slug href b in_ cond = do
      res ← store_with put_err (write_with sha256 now hook in_ cond)
      row ← store (get_card b href)
      ao ← or_status 500 (to_address_object user slug row)
      pure (ao, res.created)

    -- putAddressObject once the address book is known.
    unfoldable pub put_object :
        (user slug href : Bytes) (b : ℕ)
        → VCard
        → Option PutAddressObjectOptions
        → (meanwhile : Database → Database) → Request (AddressObject × Bool)
    put_object user slug href b card opts meanwhile = do
      existing ← existing_card b href
      passed ← lift (check_conditional existing opts)
      uid ← or_status 400 (strict_uid_from_card card)
      raw ← or_status 400 (codec.encode card)
      other ← others meanwhile
      write_object user slug href b
          (record { addressbook_id = b; href = href; uid = uid; vcard = raw })
          (put_card_conditions_from_request existing opts)

  module _ (ctx : Option Bytes) where
    unfoldable pub get_address_object_with_raw : Bytes → Request (AddressObject × Bytes)
    get_address_object_with_raw p = do
      (user, slug, href) ← lift (parse_card_path_for_principal ctx p)
      ab ← store (get_addressbook_by_username_slug user slug)
      row ← store (get_card ab.id href)
      ao ← or_status 500 (to_address_object user slug row)
      pure (ao, row.vcard)

    unfoldable pub list_address_objects : Bytes → Request (List AddressObject)
    list_address_objects p = do
      (user, slug) ← lift (parse_addressbook_path_for_principal ctx p)
      ab ← store (get_addressbook_by_username_slug user slug)
      rows ← store (list_cards ab.id)
      or_status 500 (to_address_objects user slug rows)

    -- `filter` is carddav.Filter with the query; `none` is a nil query.
    unfoldable pub query_address_objects :
        Bytes
        → Option (List AddressObject → Reply (List AddressObject))
        → Request (List AddressObject)
    query_address_objects p none = list_address_objects p
    query_address_objects p (some filter) = do aos ← list_address_objects p; lift (filter aos)

    unfoldable pub put_address_object :
        (sha256 : Bytes → Bytes) (now : ℕ) (hook : Option StoreError)
        → Bytes
        → VCard
        → Option PutAddressObjectOptions
        → (meanwhile : Database → Database) → Request (AddressObject × Bool)
    put_address_object sha256 now hook p card opts meanwhile = do
      (user, slug, href) ← lift (parse_card_path_for_principal ctx p)
      ab ← store (get_addressbook_by_username_slug user slug)
      put_object sha256 now hook user slug href ab.id card opts meanwhile

abbrev pub delete_with : (now b : ℕ) → Bytes → Option Bytes → Exec (Unit {0})
delete_with now b href none = delete_card now b href
delete_with now b href (some etag) = delete_card_conditional now b href etag

-- DeleteAddressObject and DeleteAddressObjectWithCurrentETag
unfoldable pub delete_address_object :
    (ctx : Option Bytes) (now : ℕ) → Bytes → (current_etag : Option Bytes) → Request (Unit {0})
delete_address_object ctx now p current_etag = do
  (user, slug, href) ← lift (parse_card_path_for_principal ctx p)
  ab ← store (get_addressbook_by_username_slug user slug)
  store (delete_with now ab.id href current_etag)
