-- ===== src/Tests/CtlRuns.antt =====
-- Runs of the commands of internal/ctl/ctl.go.
use go_contactd.Prelude.{ℕ, true, false, List, [], ◌∷◌, none, lit, ◌≡◌, refl}
use go_contactd.Store.Tables.{PutCardInput}
use go_contactd.Ctl.Import.{apply_imported_batch}
use go_contactd.Ctl.Import.Counts.{counts_of, apply_imported_batch-dry_run}
use go_contactd.Tests.Data.{checksum, working, new_input}

-- A new card, and one for the card that is there.
abbrev two_inputs : List PutCardInput
two_inputs =
    new_input
    ∷ record { addressbook_id = 1; href = lit "x.vcf"; uid = lit "u1"; vcard = lit "D" }
    ∷ []

abbrev clock : ℕ → ℕ
clock i = 7

apply_imported_batch-dry_run_example :
    counts_of (apply_imported_batch checksum clock none two_inputs true working).0
    ≡ counts_of (apply_imported_batch checksum clock none two_inputs false working).0
apply_imported_batch-dry_run_example =
    apply_imported_batch-dry_run checksum clock two_inputs working refl (refl, tt)
      ((refl, refl), ((refl, refl), tt)) (((refl, refl, refl), tt), (tt, tt))
