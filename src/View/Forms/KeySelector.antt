-- ===== src/View/Forms/KeySelector.antt =====
-- The choice of a key for an upload: KeyResolver of portal/app/dashboard/history/page.tsx and
-- KeySelector of portal/components/upload-form.tsx.
use canonizr_hda.Prelude.{
  ℕ, zero, suc, ◌+◌, ◌-◌, ◌*◌, ◌/◌, ◌%◌, ◌^◌, ◌≤◌, ◌<◌, min, max, ltb, leb, ◌==◌, if◌then◌else◌,
  ltb→lt, lt→ltb, leb→le, le→leb, ==_iff, Bool-cases, Option-cases, &&-eq-true, length,
  length-append, replicate, take, head?, filter, any, all, find?, get_or, is_some, filter-append,
  All, sum, sum-append, Text, text, text_eq, text_eq_iff, text_eq_refl, text_lt, text_lt_irrefl,
  text_lt_asymm, text_lt-append_left, text_lt-append_right, decimal, decimal_from, pad_start, ◌≡◌,
  refl, sym, ap, ◌∙◌, subst, fun_ext, ◌≢◌, ◌↔◌, ◌⊎◌, inl, inr, Bool, true, false, not, ◌&&◌, ◌||◌,
  Option, none, some, List, [], ◌∷◌, ◌++◌, map, append-nil, append_assoc, arith, tests, to_number,
  to_number_from,
}
use canonizr_hda.World.Actions.{Env, Action, ◌>>=◌, pure}
use canonizr_hda.Auth.Session.{require_user}
use canonizr_hda.Keys.Store.{ApiKey, list}
pub mod Laws

pub record KeyOption : Type 0 where
  pub id : Text
  pub display_name : Text
  pub key : Text
  pub quota_kb : Option ℕ
  pub usage_kb : ℕ

abbrev pub key_option : ApiKey → KeyOption
key_option k = record {
  id = k.id;
  display_name = k.display_name;
  key = k.key;
  quota_kb = k.quota_kb;
  usage_kb = k.usage_kb;
}

-- The options; with none of them the page asks the user to make a key.
unfoldable pub key_resolver : {env : Env} → Action env (List KeyOption)
key_resolver = do user ← require_user true; keys ← list user.user_id; pure (map key_option keys)

-- `keys[0]?.id ?? ""`
unfoldable pub first_id : List KeyOption → Text
first_id [] = []
first_id (k ∷ keys) = k.id

unfoldable pub selected_key : List KeyOption → Text → Option KeyOption
selected_key keys selected = find? (λ k. text_eq k.id selected) keys

-- What the selector tells the form: the key, or the empty text.
unfoldable pub told_key : Option KeyOption → Text
told_key none = []
told_key (some k) = k.key
