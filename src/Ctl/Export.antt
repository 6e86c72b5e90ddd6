-- ===== src/Ctl/Export.antt =====
-- The export command of internal/ctl/ctl.go. `write` is whether files, by name and content, could be
-- written.
use go_contactd.Prelude.{
  ℕ, ◌+◌, ◌&&◌, ◌||◌, not, ltb, Bytes, Bool, List, [], ◌∷◌, ◌++◌, Option, none, some, lit, bytes_eq,
  if◌then◌else◌, length,
}
use go_contactd.Strings.{is_blank, has_suffix, format_int}
use go_contactd.Strings.Paths.{is_dot, is_dot_dot, contains_byte}
use go_contactd.Store.Tables.{Card}
use go_contactd.Store.Books.{get_addressbook_by_username_slug}
use go_contactd.Store.Changes.{list_cards}
use go_contactd.Ctl.{
  Arguments, Exit, exit, Command, leave, then_do, db_error, not_found_or_db_error, with_flags,
}

-- filepath.Base of a text without a slash that is not empty is the text. `none` is an error.
unfoldable pub safe_export_card_filename : Bytes → Option Bytes
safe_export_card_filename href =
    if is_blank href
    then none
    else if contains_byte 47 href || contains_byte 92 href
    then none
    else if is_dot href || is_dot_dot href
    then none
    else some href

abbrev crlf : Bytes
crlf = 13 ∷ 10 ∷ []

-- The loop of writeConcatExport after its first card; `prev` is the card before.
unfoldable pub concat_rest : (prev : Bytes) → List Card → Bytes
concat_rest prev [] = []
concat_rest prev (c ∷ cards) =
    (if ltb 0 (length c.vcard) && not (has_suffix prev crlf) then crlf else [])
    ++ (c.vcard ++ concat_rest c.vcard cards)

-- What writeConcatExport writes.
unfoldable pub write_concat_export : List Card → Bytes
write_concat_export [] = []
write_concat_export (c ∷ cards) = c.vcard ++ concat_rest c.vcard cards

-- The files of writeDirExport; `none` is a card whose href is not a file's name.
unfoldable pub dir_export_files : List Card → Option (List (Bytes × Bytes))
dir_export_files [] = some []
dir_export_files (c ∷ cards) =
    let rest = dir_export_files cards in
    elim (safe_export_card_filename c.href) [
      | none ↦ none
      | some name ↦ elim rest [ none ↦ none | some files ↦ some ((name, c.vcard) ∷ files) ]
    ]

pub record ExportFlags : Type 0 where
  pub username : Bytes
  pub book : Bytes
  pub format : Bytes
  pub out : Bytes
  pub dry_run : Bool

unfoldable pub total_bytes : List Card → ℕ
total_bytes [] = 0
total_bytes (c ∷ cards) = length c.vcard + total_bytes cards

abbrev is_concat : ExportFlags → Bool
is_concat f = bytes_eq f.format (lit "concat")

-- user=… book=… cards=…
abbrev subject : ExportFlags → List Card → Bytes
subject f cards =
    lit "user="
    ++ (f.username ++ (lit " book=" ++ (f.book ++ (lit " cards=" ++ format_int (length cards)))))

abbrev target : ExportFlags → Bytes
target f = lit " format=" ++ (f.format ++ (lit " out=" ++ (f.out ++ 10 ∷ [])))

abbrev done : Bytes → Exit
done output = record { code = 0; output = output }

abbrev summary : ExportFlags → List Card → Exit
summary f cards = done (
    lit "dry-run: "
    ++ (subject f cards ++ (lit " total_bytes=" ++ (format_int (total_bytes cards) ++ target f))))

abbrev exported : Bool → ExportFlags → List Card → Exit
exported written f cards =
    if written then done (lit "exported: " ++ (subject f cards ++ target f)) else exit 1

module _ (opened : Bool) (write : List (Bytes × Bytes) → Bool) where
  unfoldable pub export_cards : ExportFlags → List Card → Exit
  export_cards f cards =
      if f.dry_run
      then if is_concat f
        then summary f cards
        else elim (dir_export_files cards) [ none ↦ exit 1 | some files ↦ summary f cards ]
      else if is_concat f
      then if is_blank f.out
        then done (write_concat_export cards)
        else exported (write ((f.out, write_concat_export cards) ∷ [])) f cards
      else elim (dir_export_files cards) [
        | none ↦ exit 1
        | some files ↦ exported (write files) f cards
      ]

  abbrev is_usage : ExportFlags → Bool
  is_usage f =
      not (is_blank f.username)
      && (is_concat f || bytes_eq f.format (lit "dir"))
      && not (bytes_eq f.format (lit "dir") && is_blank f.out)

  unfoldable pub run_export : Arguments ExportFlags → Command
  run_export args = with_flags args (λ f.
      if not (is_usage f)
      then leave (exit 2)
      else if not opened
      then leave (exit 1)
      else then_do (get_addressbook_by_username_slug f.username f.book) not_found_or_db_error
          (λ ab. then_do (list_cards ab.id) db_error (λ cards. leave (export_cards f cards))))
