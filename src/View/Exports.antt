-- ===== src/View/Exports.antt =====
-- The rows that the tables of keys and of invoices export, and the key as it is shown:
-- portal/components/tables/key-table.tsx and invoice-table.tsx. The locale's print of a month is a
-- parameter.
use canonizr_hda.Prelude.{
  ℕ, leb, if◌then◌else◌, length, Text, text, Option, none, some, List, [], ◌∷◌, ◌++◌, map,
}
use canonizr_hda.Usage.Print.{format_kb, format_currency}
use canonizr_hda.Jobs.Pages.{KeyRow}
use canonizr_hda.Services.Billing.{Invoice}

-- The header and the rows of a table.
abbrev pub Sheet : Type 0
Sheet = List Text × List (List Text)

unfoldable pub quota_cell : Option ℕ → Text
quota_cell none = text "No limit"
quota_cell (some kb) = format_kb kb

unfoldable pub key_cells : KeyRow → List Text
key_cells k = k.display_name ∷ format_kb k.usage_kb ∷ quota_cell k.quota_kb ∷ []

unfoldable pub key_export_rows : List KeyRow → Sheet
key_export_rows keys = (text "Name" ∷ text "Usage" ∷ text "Quota" ∷ [], map key_cells keys)

-- `s.slice(-n)` for an `n` that is not 0.
unfoldable pub last_of : ℕ → Text → Text
last_of n [] = []
last_of n (c ∷ s) = let rest = last_of n s in if leb (length (c ∷ s)) n then c ∷ s else rest

unfoldable pub masked : KeyRow → Text
masked k = text "•••• " ++ last_of 4 k.value

module _ (format_month : Text → Text) where
  unfoldable pub invoice_cells : Invoice → List Text
  invoice_cells inv =
      format_month inv.date
      ∷ format_kb inv.processed_kb
      ∷ format_currency inv.amount
      ∷ inv.status
      ∷ []

  unfoldable pub invoice_export_rows : List Invoice → Sheet
  invoice_export_rows invoices = (
    text "Period" ∷ text "Processed" ∷ text "Amount" ∷ text "Status" ∷ [],
    map invoice_cells invoices,
  )
