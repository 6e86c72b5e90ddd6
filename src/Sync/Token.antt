-- ===== src/Sync/Token.antt =====
-- Sync tokens of internal/carddavx/sync.go.
pub mod Roundtrip
use go_contactd.Prelude.{
  ℕ, zero, suc, Bytes, List, [], ◌∷◌, ◌++◌, lit, if◌then◌else◌, not, length, ◌==◌, Option, none,
  some,
}
use go_contactd.Strings.{
  ℤ, pos, negsuc, has_prefix, trim_prefix, is_blank, split, format_int, parse_int,
}

abbrev pub sync_token_prefix : Bytes
sync_token_prefix = lit "urn:contactd:sync:"

pub record SyncToken : Type 0 where
  pub addressbook_id : ℕ
  pub revision : ℕ

pub data TokenError : Type 0 where
  empty_token bad_prefix bad_token_parts bad_addressbook_id bad_revision : TokenError

pub data Parsed {ℓ} (A : Type ℓ) : Type ℓ where
  ok : A → Parsed A
  err : TokenError → Parsed A

unfoldable pub format_sync_token : (addressbook_id revision : ℕ) → Bytes
format_sync_token addressbook_id revision =
    sync_token_prefix ++ (format_int addressbook_id ++ 58 ∷ format_int revision)

-- `err != nil || rev < 0`
with_revision : ℕ → Option ℤ → Parsed SyncToken
with_revision ab none = err bad_revision
with_revision ab (some (negsuc n)) = err bad_revision
with_revision ab (some (pos n)) = ok (record { addressbook_id = ab; revision = n })

-- `err != nil || abID <= 0`
with_id : Option ℤ → Bytes → Parsed SyncToken
unfolding with_revision
with_id none rev = err bad_addressbook_id
with_id (some (negsuc n)) rev = err bad_addressbook_id
with_id (some (pos zero)) rev = err bad_addressbook_id
with_id (some (pos (suc n))) rev = with_revision (suc n) (parse_int rev)

parse_parts : List Bytes → Parsed SyncToken
unfolding with_id
parse_parts (id ∷ rev ∷ []) = with_id (parse_int id) rev
parse_parts _ = err bad_token_parts

unfoldable pub parse_sync_token : Bytes → Parsed SyncToken
unfolding parse_parts
parse_sync_token raw =
    if is_blank raw
    then err empty_token
    else if not (has_prefix raw sync_token_prefix)
    then err bad_prefix
    else parse_parts (split (trim_prefix raw sync_token_prefix) 58)
