-- ===== src/View/Quota.antt =====
-- The editor of a key's quota, portal/components/quota-editor.tsx, and the labels of
-- portal/components/usage-bar.tsx. What is typed is read as a whole number.
use canonizr_hda.Prelude.{
  ℕ, ◌+◌, ◌*◌, ◌/◌, leb, if◌then◌else◌, Text, text, decimal, Bool, true, false, Option, none, some,
  [], ◌∷◌, ◌++◌, to_number,
}
use canonizr_hda.Usage.Print.{format_kb}
use canonizr_hda.View.Fetch.{Settled, resolved, rejected}
pub mod Laws

pub data SizeUnit : Type 0 where
  mb gb : SizeUnit

-- `Math.round(a / b)`
abbrev pub round_div : ℕ → ℕ → ℕ
round_div a b = (2 * a + b) / (2 * b)

unfoldable pub kb_to_display : ℕ → ℕ × SizeUnit
kb_to_display kb = if leb 1000000 kb then (round_div kb 1000000, gb) else (round_div kb 1000, mb)

unfoldable pub display_to_kb : ℕ → SizeUnit → ℕ
display_to_kb value gb = value * 1000000
display_to_kb value mb = value * 1000

pub record Editor : Type 0 where
  pub editing : Bool
  pub saving : Bool
  pub value : Text
  pub unit : SizeUnit

-- What the fields hold for a quota; `none` is null, no limit.
unfoldable pub fields_of : Option ℕ → Text × SizeUnit
fields_of none = ([], gb)
fields_of (some kb) = let shown = kb_to_display kb in (decimal shown.0, shown.1)

unfoldable pub initial : Option ℕ → Editor
initial quota =
    let fields = fields_of quota in
    record { editing = false; saving = false; value = fields.0; unit = fields.1 }

unfoldable pub edit : Editor → Editor
edit s = record { editing = true; saving = s.saving; value = s.value; unit = s.unit }

unfoldable pub handle_cancel : Option ℕ → Editor → Editor
handle_cancel quota s =
    let fields = fields_of quota in
    record { editing = false; saving = s.saving; value = fields.0; unit = fields.1 }

-- `newQuotaKB`
unfoldable pub new_quota_kb : Text → SizeUnit → Option ℕ
new_quota_kb [] u = none
new_quota_kb (c ∷ value) u = some (display_to_kb (to_number (c ∷ value)) u)

-- `handleSave` until it awaits: the quota it sends.
unfoldable pub handle_save : Editor → Editor × Option ℕ
handle_save s = (
  record { editing = s.editing; saving = true; value = s.value; unit = s.unit },
  new_quota_kb s.value s.unit,
)

-- What follows the await; a promise that is rejected ends the handler.
unfoldable pub saved : Settled Bool → Editor → Editor
saved (resolved ok) s = record { editing = false; saving = false; value = s.value; unit = s.unit }
saved rejected s = s

unfoldable pub is_full : ℕ → Option ℕ → Bool
is_full usage none = false
is_full usage (some quota) = leb quota usage

unfoldable pub quota_label : Option ℕ → Text
quota_label none = text "∞"
quota_label (some quota) = format_kb quota

unfoldable pub aria_label : ℕ → Option ℕ → Text
aria_label usage none = format_kb usage ++ text " of no limit"
aria_label usage (some quota) = format_kb usage ++ (text " of " ++ format_kb quota)
