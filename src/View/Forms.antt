-- ===== src/View/Forms.antt =====
-- The forms: portal/components/create-key-form.tsx, create-key-input.tsx, key-actions.tsx,
-- paid-usage-settings.tsx, admin-user-form.tsx and manage-billing-button.tsx. A handler that awaits is
-- two functions, what it does until then and what follows; a promise that is rejected ends the handler,
-- but for a `finally`. What is typed as a number is read as a whole one, or is an argument.
use canonizr_hda.Prelude.{
  ℕ, if◌then◌else◌, is_some, Text, text, decimal, Bool, true, false, not, ◌&&◌, ◌||◌, Option, none,
  some, List, [], ◌∷◌, ◌++◌, to_number,
}
use canonizr_hda.Keys.Names.{trim, validate_key_name}
use canonizr_hda.View.Fetch.{
  Request, request, no_body, limits_body, Settled, resolved, rejected, is_resolved,
}
use canonizr_hda.View.Hooks.{CreateKeyResult}
pub mod Upload
pub mod KeySelector
pub mod Laws

-- `mode: "created"` with its fields, or `none` for idle.
pub record CreateForm : Type 0 where
  pub state : Option CreateKeyResult
  pub name : Text
  pub loading : Bool
  pub touched : Bool

abbrev pub create_form : Option CreateKeyResult → Text → Bool → Bool → CreateForm
create_form state name loading touched = record {
  state = state;
  name = name;
  loading = loading;
  touched = touched;
}

-- What `handleCreate` does for the fault of the name.
unfoldable pub create_if : Option Text → CreateForm → CreateForm × Option Text
create_if (some e) s = (create_form s.state s.name s.loading true, none)
create_if none s = (create_form s.state s.name true true, some s.name)

-- `handleCreate` until it awaits, with the name that it sends; `none` is an early return.
unfoldable pub handle_create : List Text → CreateForm → CreateForm × Option Text
handle_create existing s = create_if (validate_key_name s.name existing) s

-- What follows, with the next name that `generateKeyName` makes.
unfoldable pub created : Text → Settled (Option CreateKeyResult) → CreateForm → CreateForm
created next rejected s = s
created next (resolved none) s = create_form s.state s.name false s.touched
created next (resolved (some result)) s = create_form (some result) next false false

unfoldable pub dismiss : CreateForm → CreateForm
dismiss s = create_form none s.name s.loading s.touched

unfoldable pub change_name : Text → CreateForm → CreateForm
change_name v s = create_form s.state v s.loading true

unfoldable pub randomise : Text → CreateForm → CreateForm
randomise next s = create_form s.state next s.loading false

unfoldable pub shows_error : List Text → CreateForm → Bool
shows_error existing s = s.touched && is_some (validate_key_name s.name existing)

pub data RotateState : Type 0 where
  idle busy rotated : RotateState

-- `handleRotate` for the answer to `confirm`: whether the request is sent.
unfoldable pub handle_rotate : Bool → RotateState → RotateState × Bool
handle_rotate false s = (s, false)
handle_rotate true s = (busy, true)

unfoldable pub rotate_settled : Settled Bool → RotateState → RotateState
rotate_settled rejected s = s
rotate_settled (resolved true) s = rotated
rotate_settled (resolved false) s = idle

unfoldable pub handle_delete : Bool → Text → Option Text
handle_delete false id = none
handle_delete true id = some id

pub record PaidForm : Type 0 where
  pub enabled : Bool
  pub cap : Text
  pub busy : Bool

unfoldable pub paid_form : Bool → Option ℕ → PaidForm
paid_form enabled none = record { enabled = enabled; cap = []; busy = false }
paid_form enabled (some cap) = record { enabled = enabled; cap = decimal cap; busy = false }

-- `toggle` until it awaits, with what it asks for, and what follows.
unfoldable pub toggle : PaidForm → PaidForm × Bool
toggle s = (record { enabled = s.enabled; cap = s.cap; busy = true }, not s.enabled)

unfoldable pub toggled : Bool → Settled Bool → PaidForm → PaidForm
toggled next rejected s = s
toggled next (resolved true) s = record { enabled = next; cap = s.cap; busy = false }
toggled next (resolved false) s = record { enabled = s.enabled; cap = s.cap; busy = false }

abbrev pub number_or_null : Text → Option ℕ
number_or_null [] = none
number_or_null (c ∷ s) = some (to_number (c ∷ s))

unfoldable pub save_cap : PaidForm → PaidForm × Option ℕ
save_cap s = (record { enabled = s.enabled; cap = s.cap; busy = true }, number_or_null (trim s.cap))

unfoldable pub cap_saved : Settled Bool → PaidForm → PaidForm
cap_saved rejected s = s
cap_saved (resolved ok) s = record { enabled = s.enabled; cap = s.cap; busy = false }

pub record UserForm : Type 0 where
  pub saving : Bool
  pub blocking : Bool
  pub free_units : Text
  pub max_keys : Text
  pub comp : Bool

-- `handleSave` and `handleToggleBlock` until they await, with their requests.
unfoldable pub save_limits : Text → UserForm → UserForm × Request
save_limits id s = (
  record {
    saving = true;
    blocking = s.blocking;
    free_units = s.free_units;
    max_keys = s.max_keys;
    comp = s.comp;
  },
  request (text "POST") (text "/api/admin/users/" ++ (id ++ text "/update"))
      (limits_body (number_or_null s.free_units) (to_number s.max_keys) s.comp),
)

unfoldable pub toggle_block : Text → Bool → UserForm → UserForm × Request
toggle_block id blocked s = (
  record {
    saving = s.saving;
    blocking = true;
    free_units = s.free_units;
    max_keys = s.max_keys;
    comp = s.comp;
  },
  request (text "POST")
      (text "/api/admin/users/" ++ (id ++ (if blocked then text "/unblock" else text "/block")))
      no_body,
)

-- What follows, `finally` included, and whether the page is refreshed: a refusal counts as an answer.
unfoldable pub limits_saved : {A : Type 0} → Settled A → UserForm → UserForm × Bool
limits_saved r s = (
  record {
    saving = false;
    blocking = s.blocking;
    free_units = s.free_units;
    max_keys = s.max_keys;
    comp = s.comp;
  },
  is_resolved r,
)

unfoldable pub block_toggled : {A : Type 0} → Settled A → UserForm → UserForm × Bool
block_toggled r s = (
  record {
    saving = s.saving;
    blocking = false;
    free_units = s.free_units;
    max_keys = s.max_keys;
    comp = s.comp;
  },
  is_resolved r,
)

-- `handleClick` of the button that opens the billing portal, after its two awaits: whether the button is
-- still busy, and the page that is opened. Its argument is the `url` of the answer.
unfoldable pub portal_opened : Settled (Option Text) → Bool × Option Text
portal_opened rejected = (true, none)
portal_opened (resolved none) = (false, none)
portal_opened (resolved (some [])) = (false, none)
portal_opened (resolved (some (c ∷ url))) = (false, some (c ∷ url))

-- The button "Create key".
unfoldable pub is_blocked : List Text → CreateForm → Bool
is_blocked existing s = s.loading || is_some (validate_key_name s.name existing)
