-- ===== src/Ctl/Import.antt =====
-- The import command of internal/ctl/ctl.go. Package vcard's decoder and encoder are parameters, as
-- are the files: of each the name, whether it is a directory and its bytes, `none` for one that is
-- refused, cannot be read, is too large or changes during the import.
pub mod Batch
pub mod Counts
pub mod DryRun
use go_contactd.Prelude.{
  ℕ, zero, suc, ◌+◌, ◌==◌, ◌&&◌, ◌||◌, ◌^◌, ◌*◌, not, ltb, Bytes, Bool, true, false, List, [], ◌∷◌,
  ◌++◌, Option, none, some, lit, bytes_eq, bytes_leb, if◌then◌else◌, length, map, any_row,
  where_rows, order_by,
}
use go_contactd.Strings.{
  trim_space, is_blank, split, has_suffix, parse_int, ℤ, pos, negsuc, format_int,
}
use go_contactd.Strings.Paths.{is_empty}
use go_contactd.Store.Tables.{Card, PutCardInput, PutCardResult}
use go_contactd.Store.Exec.{StoreError, not_found, Conn, Exec}
use go_contactd.Store.Exec
use go_contactd.Store.Vcard.{replace_all, cr, lf}
use go_contactd.Store.Books.{get_addressbook_by_username_slug}
use go_contactd.Store.Changes.{get_card, list_cards}
use go_contactd.Store.Cards.{put_card, put_cards_atomic}
use go_contactd.Handler.{
  lower, equal_fold, EnvelopeError, data_before_begin, trailing_data, missing_envelope,
}
use go_contactd.Ctl.{
  Arguments, help, bad_flags, flags, Exit, exit, Command, leave, then_do, not_found_or_db_error,
}
use go_contactd.Ctl.Export.{safe_export_card_filename}

pub data ImportError : Type 0 where
  uid_conflict invalid_href missing_uid undecodable unencodable too_large unreadable : ImportError
  store_error : StoreError → ImportError

pub data Imported (A : Type 0) : Type 0 where
  ok : A → Imported A
  err : ImportError → Imported A

abbrev pub Import : Type 0 → Type 0
Import A = Conn → Imported A × Conn

module _ {A B : Type 0} where
  abbrev pub continue : Imported A → (A → Import B) → Import B
  continue (ok a) f c = f a c
  continue (err e) f c = (err e, c)

  infixl 5 ◌>>=◌
  abbrev pub ◌>>=◌ : Import A → (A → Import B) → Import B
  ◌>>=◌ m f c = let (r, c') = m c in continue r f c'

module _ {A : Type 0} where
  abbrev pub pure : A → Import A
  pure a c = (ok a, c)

  abbrev pub raise : ImportError → Import A
  raise e c = (err e, c)

  abbrev pub from_store : Exec.Result A → Imported A
  from_store (Exec.ok a) = ok a
  from_store (Exec.err e) = err (store_error e)

  abbrev pub store : Exec A → Import A
  store m c = let (r, c') = m c in (from_store r, c')

-- The loop over the lines, from `seenBegin` and `seenEnd`; `none` is no error.
unfoldable pub envelope_error : (seen_begin seen_end : Bool) → List Bytes → Option EnvelopeError
envelope_error seen_begin seen_end [] =
    if seen_begin && seen_end then none else some missing_envelope
envelope_error false seen_end (line ∷ rest) =
    let before = envelope_error false seen_end rest in
    let after = envelope_error true seen_end rest in
    if is_empty (trim_space line)
    then before
    else if equal_fold (trim_space line) (lit "BEGIN:VCARD")
    then after
    else some data_before_begin
envelope_error true false (line ∷ rest) =
    let unclosed = envelope_error true false rest in
    let closed = envelope_error true true rest in
    if equal_fold (trim_space line) (lit "END:VCARD") then closed else unclosed
envelope_error true true (line ∷ rest) =
    let more = envelope_error true true rest in
    if is_empty (trim_space line) then more else some trailing_data

unfoldable pub validate_single_vcard_envelope : Bytes → Option EnvelopeError
validate_single_vcard_envelope raw =
    envelope_error false false
      (split (replace_all (replace_all raw (cr ∷ lf ∷ []) (lf ∷ [])) (cr ∷ []) (lf ∷ [])) lf)

-- Whether validateImportedVCardSize returns no error.
unfoldable pub validate_imported_vcard_size : Bytes → (max_bytes : ℕ) → Bool
validate_imported_vcard_size raw max_bytes = max_bytes == 0 || not (ltb max_bytes (length raw))

abbrev default_vcard_max_bytes : ℕ
default_vcard_max_bytes = 10 * 2 ^ 20

abbrev positive : Option ℤ → Option ℕ
positive (some (pos (suc n))) = some (suc n)
positive _ = none

-- The value of CONTACTD_VCARD_MAX_BYTES, `none` if it is not set; the result's `none` is an error.
unfoldable pub import_vcard_max_bytes_from_env : Option Bytes → Option ℕ
import_vcard_max_bytes_from_env none = some default_vcard_max_bytes
import_vcard_max_bytes_from_env (some v) =
    if is_blank v then some default_vcard_max_bytes else positive (parse_int (trim_space v))

abbrev pub has_uid : Bytes → Card → Bool
has_uid uid c = bytes_eq c.uid uid

abbrev pub outcome : (conflict created : Bool) → Import Bool
outcome conflict created = if conflict then raise uid_conflict else pure created

-- The dry run of putOrClassifyImportedCard once the card has been looked up: whether it would be
-- created.
abbrev pub classify : (b : ℕ) (href uid : Bytes) → Exec.Result Card → Import Bool
classify b href uid (Exec.ok existing) =
    if bytes_eq existing.uid uid
    then pure false
    else store (list_cards b) >>= λ cards.
        outcome (any_row (λ c. has_uid uid c && not (bytes_eq c.href href)) cards) false
classify b href uid (Exec.err not_found) =
    store (list_cards b) >>= λ cards. outcome (any_row (has_uid uid) cards) true
classify b href uid (Exec.err e) = raise (store_error e)

abbrev pub counted : Bool → ℕ × ℕ → ℕ × ℕ
counted created (n, m) = if created then (n + 1, m) else (n, m + 1)

abbrev pub count : List PutCardResult → ℕ × ℕ
count [] = (0, 0)
count (res ∷ results) = counted res.created (count results)

module _ (sha256 : Bytes → Bytes) (clock : ℕ → ℕ) (hook : Option StoreError) where
  abbrev was_created : PutCardResult → Import Bool
  was_created res = pure res.created

  -- Of a PutCardResult the import reads whether the card was created.
  unfoldable pub put_or_classify_imported_card : PutCardInput → (dry_run : Bool) → Import Bool
  put_or_classify_imported_card in_ true c =
      let (r, c') = get_card in_.addressbook_id in_.href c in
      classify in_.addressbook_id in_.href in_.uid r c'
  put_or_classify_imported_card in_ false c =
      (store (put_card sha256 (clock 0) hook in_) >>= was_created) c

  -- The loop of a dry run: how many cards are created and updated.
  unfoldable pub dry_run_batch : List PutCardInput → Import (ℕ × ℕ)
  dry_run_batch [] = pure (0, 0)
  dry_run_batch (in_ ∷ batch) = do
    created ← put_or_classify_imported_card in_ true
    n ← dry_run_batch batch
    pure (counted created n)

  unfoldable pub apply_imported_batch : List PutCardInput → (dry_run : Bool) → Import (ℕ × ℕ)
  apply_imported_batch batch true = dry_run_batch batch
  apply_imported_batch batch false = do
    results ← store (put_cards_atomic sha256 hook clock batch)
    pure (count results)

pub record ImportFile : Type 0 where
  pub name : Bytes
  pub is_dir : Bool
  pub content : Option Bytes

-- What the import uses of package vcard: what Decode returns call by call (`none` is an error, the end
-- of the list io.EOF), Encode, and PreferredValue of the UID.
pub record Vcards (VCard : Type 0) : Type 0 where
  pub decodes : Bytes → List (Option VCard)
  pub encode : VCard → Option Bytes
  pub preferred_uid : VCard → Bytes

pub record ImportFlags : Type 0 where
  pub username : Bytes
  pub book : Bytes
  pub dry_run : Bool

abbrev or_error : {A : Type 0} → ImportError → Option A → Imported A
or_error e none = err e
or_error e (some a) = ok a

module _ {A B : Type 0} where
  abbrev and_then : Imported A → (A → Imported B) → Imported B
  and_then (ok a) f = f a
  and_then (err e) f = err e

module _ {VCard : Type 0} (vcards : Vcards VCard) (b : ℕ) where
  abbrev only : List (Option VCard) → Imported VCard
  only (some card ∷ []) = ok card
  only _ = err undecodable

  unfoldable pub decode_single_card_bytes : Bytes → Imported VCard
  decode_single_card_bytes raw = elim (validate_single_vcard_envelope raw) [
    | some e ↦ err undecodable
    | none ↦ only (vcards.decodes raw)
  ]

  abbrev uid_of : VCard → Imported Bytes
  uid_of card =
      if is_blank (vcards.preferred_uid card)
      then err missing_uid
      else ok (trim_space (vcards.preferred_uid card))

  abbrev input : (href uid raw : Bytes) → PutCardInput
  input href uid raw = record { addressbook_id = b; href = href; uid = uid; vcard = raw }

  -- One file of importFromDir.
  unfoldable pub import_file : ImportFile → Imported PutCardInput
  import_file file = and_then (or_error invalid_href (safe_export_card_filename file.name)) (λ href.
      and_then (or_error unreadable file.content) (λ raw.
        and_then (decode_single_card_bytes raw)
          (λ card. and_then (uid_of card) (λ uid. ok (input href uid raw)))))

  -- One card of importFromConcatFile.
  unfoldable pub import_card : (max_bytes : ℕ) → Option VCard → Imported PutCardInput
  import_card max_bytes none = err undecodable
  import_card max_bytes (some card) = and_then (uid_of card) (λ uid.
      and_then (or_error invalid_href (safe_export_card_filename (uid ++ lit ".vcf"))) (λ href.
        and_then (or_error unencodable (vcards.encode card)) (λ raw.
          if validate_imported_vcard_size raw max_bytes
          then ok (input href uid raw)
          else err too_large)))

  -- The loops over files and cards: the first error, or the batch.
  abbrev batch_of :
      {A : Type 0} → (A → Imported PutCardInput) → List A → Imported (List PutCardInput)
  batch_of f [] = ok []
  batch_of f (x ∷ xs) =
      let rest = batch_of f xs in and_then (f x) (λ in_. and_then rest (λ ins. ok (in_ ∷ ins)))

  abbrev is_vcf : ImportFile → Bool
  is_vcf file = not file.is_dir && has_suffix (map lower file.name) (lit ".vcf")

  abbrev by_name : List ImportFile → List ImportFile
  by_name files = order_by (λ x y. bytes_leb x.name y.name) (where_rows is_vcf files)

  unfoldable pub dir_batch : List ImportFile → Imported (List PutCardInput)
  dir_batch files = batch_of import_file (by_name files)

  unfoldable pub concat_batch : (max_bytes : ℕ) (raw : Option Bytes) → Imported (List PutCardInput)
  concat_batch max_bytes none = err unreadable
  concat_batch max_bytes (some raw) = batch_of (import_card max_bytes) (vcards.decodes raw)

-- What is at the path of an import.
pub data Source : Type 0 where
  missing : Source
  directory : List ImportFile → Source
  file : Option Bytes → Source

module _ {VCard : Type 0} (vcards : Vcards VCard) (sha256 : Bytes → Bytes) (clock : ℕ → ℕ)
    (opened : Bool) (hook : Option StoreError) where
  abbrev source_batch : (b max_bytes : ℕ) → Source → Imported (List PutCardInput)
  source_batch b max_bytes missing = err unreadable
  source_batch b max_bytes (directory files) = dir_batch vcards b files
  source_batch b max_bytes (file raw) = concat_batch vcards b max_bytes raw

  abbrev apply_to : Imported (List PutCardInput) → (dry_run : Bool) → Import (ℕ × ℕ)
  apply_to (err e) dry_run = raise e
  apply_to (ok batch) dry_run = apply_imported_batch sha256 clock hook batch dry_run

  abbrev report : ImportFlags → (path : Bytes) → ℕ × ℕ → Bytes
  report f path (created, updated) =
      (if f.dry_run then lit "dry-run: user=" else lit "imported: user=")
      ++ (f.username
          ++ (lit " book="
              ++ (f.book
                  ++ (lit " created="
                      ++ (format_int created
                          ++ (lit " updated="
                              ++ (format_int updated ++ (lit " path=" ++ (path ++ 10 ∷ [])))))))))

  abbrev import_exit : ImportFlags → (path : Bytes) → Imported (ℕ × ℕ) → Exit
  import_exit f path (ok n) = record { code = 0; output = report f path n }
  import_exit f path (err e) = exit 1

  abbrev import_at :
      ImportFlags → (path : Bytes) → (b : ℕ) → (max_bytes : Option ℕ) → Source → Command
  import_at f path b max_bytes missing = leave (exit 1)
  import_at f path b none source = leave (exit 2)
  import_at f path b (some max_bytes) source = λ c.
      let (r, c') = apply_to (source_batch b max_bytes source) f.dry_run c in
      (import_exit f path r, c')

  abbrev import_flags : ImportFlags → (path : Bytes) → (env : Option Bytes) → Source → Command
  import_flags f path env source =
      if not opened
      then leave (exit 1)
      else then_do (get_addressbook_by_username_slug f.username f.book) not_found_or_db_error
          (λ ab. import_at f path ab.id (import_vcard_max_bytes_from_env env) source)

  -- The file's bytes are limited by the size that the environment sets before `source` has them.
  unfoldable pub run_import : Arguments ImportFlags → (env : Option Bytes) → Source → Command
  run_import help env source = leave (exit 0)
  run_import bad_flags env source = leave (exit 2)
  run_import (flags f (path ∷ [])) env source =
      if is_blank f.username then leave (exit 2) else import_flags f path env source
  run_import (flags f _) env source = leave (exit 2)
