-- ===== src/View/Navigation.antt =====
-- The links of the dashboard, portal/components/sidebar-nav.tsx and mobile-nav.tsx.
use canonizr_hda.Prelude.{
  ℕ, zero, suc, ◌+◌, ◌-◌, ◌*◌, ◌/◌, ◌%◌, ◌^◌, ◌≤◌, ◌<◌, min, max, ltb, leb, ◌==◌, if◌then◌else◌,
  ltb→lt, lt→ltb, leb→le, le→leb, ==_iff, Bool-cases, Option-cases, &&-eq-true, length,
  length-append, replicate, take, head?, filter, any, all, find?, get_or, is_some, filter-append,
  All, sum, sum-append, Text, text, text_eq, text_eq_iff, text_eq_refl, text_lt, text_lt_irrefl,
  text_lt_asymm, text_lt-append_left, text_lt-append_right, decimal, decimal_from, pad_start, ◌≡◌,
  refl, sym, ap, ◌∙◌, subst, fun_ext, ◌≢◌, ◌↔◌, ◌⊎◌, inl, inr, Bool, true, false, not, ◌&&◌, ◌||◌,
  Option, none, some, List, [], ◌∷◌, ◌++◌, map, append-nil, append_assoc, arith, tests, to_number,
  to_number_from,
}
use Prim.Native.String.{String}
use canonizr_hda.View.Admin.{has_prefix, is_active, is_active_admin}
pub mod Laws

pub record Link : Type 0 where
  pub href : Text
  pub label : Text

abbrev pub link : String → String → Link
link href label = record { href = text href; label = text label }

abbrev pub links : List Link
links =
    link "/dashboard/keys" "API Keys"
    ∷ link "/dashboard/history" "Jobs"
    ∷ link "/dashboard/billing" "Billing"
    ∷ []

-- The links for administrators in the side bar, and in the menu of a narrow window.
abbrev pub admin_links : List Link
admin_links =
    link "/dashboard/admin" "Admin"
    ∷ link "/dashboard/admin/users" "Users"
    ∷ link "/dashboard/admin/trace" "Job Trace"
    ∷ []

abbrev pub mobile_admin_links : List Link
mobile_admin_links = link "/dashboard/admin" "Admin" ∷ link "/dashboard/admin/users" "Users" ∷ []

unfoldable pub is_active_mobile : Text → Link → Bool
is_active_mobile pathname l =
    text_eq pathname l.href
    || (text_eq l.label (text "Users") && has_prefix pathname (text "/dashboard/admin/users"))

abbrev pub for_admin : Bool → List Link → List Link
for_admin true ls = ls
for_admin false ls = []

-- The links that are marked as the current page.
unfoldable pub sidebar_current : Bool → Text → List Link
sidebar_current is_admin pathname =
    filter (λ l. is_active pathname l.href) links
    ++ filter (λ l. is_active_admin pathname l.href) (for_admin is_admin admin_links)

unfoldable pub mobile_current : Bool → Text → List Link
mobile_current is_admin pathname =
    filter (λ l. is_active pathname l.href) links
    ++ filter (is_active_mobile pathname) (for_admin is_admin mobile_admin_links)

-- The menu of a narrow window: a click on its button, and a change of the page.
abbrev pub toggle_menu : Bool → Bool
toggle_menu shown = not shown

abbrev pub navigated : Bool → Bool
navigated shown = false
