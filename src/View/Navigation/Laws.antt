-- ===== src/View/Navigation/Laws.antt =====
-- At most one link of the dashboard is marked, portal/components/sidebar-nav.tsx and mobile-nav.tsx.
use canonizr_hda.Prelude.{
  ℕ, zero, suc, ◌≤◌, ==_iff, Bool-cases, &&-eq-true, length, Text, text, text_eq, text_eq_iff, ◌≡◌,
  refl, ap, ◌∙◌, inl, inr, Bool, true, false, ◌||◌, Option, none, some, [], ◌∷◌, ◌++◌, arith,
}
use canonizr_hda.View.Admin.{has_prefix, is_active, is_active_admin}
use canonizr_hda.View.Navigation.{link, sidebar_current, is_active_mobile, mobile_current}

-- The unit at a place.
char_at : ℕ → Text → Option ℕ
char_at n [] = none
char_at zero (c ∷ s) = some c
char_at (suc n) (c ∷ s) = char_at n s

char_at-has_prefix :
    (n c : ℕ) (path prefix : Text)
    → has_prefix path prefix ≡ true
    → char_at n prefix ≡ some c
    → char_at n path ≡ some c
unfolding char_at text_eq
char_at-has_prefix n c path [] h e = ground arith
char_at-has_prefix n c [] (p ∷ prefix) h e = ground arith
char_at-has_prefix zero c (x ∷ path) (p ∷ prefix) h e =
    let same = (==_iff x p).0 (&&-eq-true _ _ h).0 in ap some same ∙ e
char_at-has_prefix (suc n) c (x ∷ path) (p ∷ prefix) h e =
    char_at-has_prefix n c path prefix (&&-eq-true _ _ h).1 e

char_at-text_eq :
    (n : ℕ) (path href : Text) → text_eq path href ≡ true → char_at n path ≡ char_at n href
char_at-text_eq n path href h = ap (char_at n) ((text_eq_iff path href).0 h)

-- The unit at which the addresses of the user's links differ from each other and from the others.
char_at-is_active :
    (path href : Text) (c : ℕ)
    → char_at 11 href ≡ some c
    → is_active path href ≡ true
    → char_at 11 path ≡ some c
unfolding is_active
char_at-is_active path href c e h = char_at-has_prefix 11 c path href h e

-- A link for administrators is marked at its own address and below it.
char_at-below :
    (n c : ℕ) (path href : Text)
    → char_at n href ≡ some c
    → char_at n (href ++ text "/") ≡ some c
    → (text_eq path href || has_prefix path (href ++ text "/")) ≡ true
    → char_at n path ≡ some c
char_at-below n c path href e k h = elim (Bool-cases (text_eq path href)) [
  | inl same ↦ char_at-text_eq n path href same ∙ e
  | inr other ↦ char_at-has_prefix n c path (href ++ text "/") (rw other at h) k
]

char_at-is_active_admin :
    (n c : ℕ) (path href : Text)
    → text_eq href (text "/dashboard/admin") ≡ false
    → char_at n href ≡ some c
    → char_at n (href ++ text "/") ≡ some c
    → is_active_admin path href ≡ true
    → char_at n path ≡ some c
unfolding is_active_admin
char_at-is_active_admin n c path href other e k h = char_at-below n c path href e k (rw other at h)

char_at-admin :
    (n : ℕ) (path : Text)
    → is_active_admin path (text "/dashboard/admin") ≡ true
    → char_at n path ≡ char_at n (text "/dashboard/admin")
unfolding is_active_admin text text_eq
char_at-admin n path h = char_at-text_eq n path (text "/dashboard/admin") h

char_at-mobile_admin :
    (n : ℕ) (path : Text)
    → is_active_mobile path (link "/dashboard/admin" "Admin") ≡ true
    → char_at n path ≡ char_at n (text "/dashboard/admin")
unfolding is_active_mobile text text_eq
char_at-mobile_admin n path h = char_at-text_eq n path (text "/dashboard/admin") (ground arith)

char_at-mobile_users :
    (n c : ℕ) (path : Text)
    → char_at n (text "/dashboard/admin/users") ≡ some c
    → is_active_mobile path (link "/dashboard/admin/users" "Users") ≡ true
    → char_at n path ≡ some c
unfolding is_active_mobile text text_eq
char_at-mobile_users n c path e h =
    elim (Bool-cases (text_eq path (text "/dashboard/admin/users"))) [
      | inl same ↦ char_at-text_eq n path (text "/dashboard/admin/users") same ∙ e
      | inr other ↦ char_at-has_prefix n c path (text "/dashboard/admin/users") (rw other at h) e
    ]

-- In the side bar, and in the menu of a narrow window, at most one link is marked as the current page,
-- at whatever address.
pub sidebar_current_unique :
    (is_admin : Bool) (path : Text)
    → (length (sidebar_current is_admin path) ≤ 1) × (length (mobile_current is_admin path) ≤ 1)
unfolding sidebar_current mobile_current char_at text text_eq
sidebar_current_unique is_admin path =
    let keys = char_at-is_active path (text "/dashboard/keys") b'k' refl in
    let history = char_at-is_active path (text "/dashboard/history") b'h' refl in
    let billing = char_at-is_active path (text "/dashboard/billing") b'b' refl in
    let admin = char_at-admin 11 path in
    let admin_only = char_at-admin 17 path in
    let users =
      char_at-is_active_admin 11 b'a' path (text "/dashboard/admin/users") refl refl refl in
    let users_only =
      char_at-is_active_admin 17 b'u' path (text "/dashboard/admin/users") refl refl refl in
    let trace =
      char_at-is_active_admin 11 b'a' path (text "/dashboard/admin/trace") refl refl refl in
    let trace_only =
      char_at-is_active_admin 17 b't' path (text "/dashboard/admin/trace") refl refl refl in
    let mobile = char_at-mobile_admin 11 path in
    let mobile_only = char_at-mobile_admin 17 path in
    let mobile_users = char_at-mobile_users 11 b'a' path refl in
    let mobile_users_only = char_at-mobile_users 17 b'u' path refl in
    (
      ground
          (arith, keys, history, billing, admin, admin_only, users, users_only, trace, trace_only),
      ground (arith, keys, history, billing, mobile, mobile_only, mobile_users, mobile_users_only),
    )
