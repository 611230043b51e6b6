-- ===== src/Keys/Resolve/Laws.antt =====
-- Whom a key admits after the operations of the key store, as the gateway finds it.
use canonizr_hda.Prelude.{
  ℕ, if◌then◌else◌, Bool-cases, length, length-append, is_some, Text, text, text_eq, text_eq_iff,
  text_eq_refl, ◌≡◌, refl, sym, ap, ◌∙◌, inl, inr, Bool, true, false, Option, none, some, [], ◌∷◌,
  ◌++◌, arith,
}
use canonizr_hda.Storage.Rows.{Row}
use canonizr_hda.World.Actions.{
  Env, World, value_in, delete_entity, redis_del, random_uuid, upsert_entity,
}
use canonizr_hda.Tables.TableName
use canonizr_hda.Keys.Store.{try_delete, auth_cache_key, create, write_key}
use canonizr_hda.Keys.Access.{holder}
use canonizr_hda.Keys.Lifecycle.{made_by, holder_created}
use canonizr_hda.Keys.Rotation
use canonizr_hda.Keys.Deletion
use canonizr_hda.Keys.Resolve.{via, sub_of, entry_of, admits}
use Prim.Native.String.{String}
use mathlib.Core.Option

-- A text is not a longer one.
text_eq-longer : (c : ℕ) (a s : Text) → text_eq s (c ∷ (a ++ s)) ≡ false
text_eq-longer c a s = elim (Bool-cases (text_eq s (c ∷ (a ++ s)))) [
  | inl same ↦
      let e : length s ≡ length (c ∷ (a ++ s)) =
        ap length ((text_eq_iff s (c ∷ (a ++ s))).0 same) in
      absurd (omega (arith, e, length-append a s))
  | inr other ↦ other
]

text_eq_comm : (s t : Text) → text_eq s t ≡ text_eq t s
text_eq_comm s t = ground (arith, text_eq_iff s t, text_eq_iff t s)

text_eq-append_right : (a b s : Text) → text_eq (a ++ s) (b ++ s) ≡ text_eq a b
unfolding text_eq
text_eq-append_right [] [] s = text_eq_refl s
text_eq-append_right [] (c ∷ b) s = text_eq-longer c b s
text_eq-append_right (c ∷ a) [] s = text_eq_comm (c ∷ (a ++ s)) s ∙ text_eq-longer c a s
text_eq-append_right (c ∷ a) (d ∷ b) s = rw (text_eq-append_right a b s) refl

pub auth_cache_key-inj : (a b : Text) → text_eq (auth_cache_key a) (auth_cache_key b) ≡ text_eq a b
unfolding text text_eq
auth_cache_key-inj a b = text_eq-append_right a b (text ":sub_id")

-- What becomes of an answer when the entry of a hash is dropped, and its row is replaced or dropped.
via_granted :
    (hit : Bool) (c : Option Text) (o : Option (Text × Text)) (id user : Text)
    → (hit ≡ true → via c (sub_of o) ≡ none)
    → via c (sub_of (if hit then some (id, user) else o))
      ≡ (if hit then some id else via c (sub_of o))
via_granted false c o id user h = refl
via_granted true none o id user h = refl
via_granted true (some []) o id user h = refl
via_granted true (some (x ∷ s)) o id user h = let e = h refl in cc

via_revoked :
    (hit : Bool) (c : Option Text) (o : Option (Text × Text))
    → via (if hit then none else c) (sub_of (if hit then none else o))
      ≡ (if hit then none else via c (sub_of o))
via_revoked true c o = refl
via_revoked false c o = refl

via_replaced :
    (new old : Bool) (c : Option Text) (o : Option (Text × Text)) (id user : Text)
    → (new ≡ true → via c (sub_of o) ≡ none)
    → via
        (if old then none else c)
        (sub_of (if new then some (id, user) else if old then none else o))
      ≡ (if new then some id else if old then none else via c (sub_of o))
via_replaced false old c o id user h = via_revoked old c o
via_replaced true true c o id user h = refl
via_replaced true false c o id user h = via_granted true c o id user h

module _ (env : Env) where
  pub value_in_deleted :
      (o : Option env.cache.State) (now : ℕ) (k j : Text)
      → value_in env (Option.map (λ r. env.cache.del r k) o) now j
        ≡ (if text_eq k j then none else value_in env o now j)
  value_in_deleted none now k j = elim (Bool-cases (text_eq k j)) [
    | inl e ↦ rw e refl
    | inr e ↦ rw e refl
  ]
  value_in_deleted (some r) now k j = env.cache.get-del r k now j

  entry_of_deleted :
      (old at : Text) (w : World env)
      → entry_of env (redis_del (auth_cache_key old) w).1 at
        ≡ (if text_eq old at then none else entry_of env w at)
  unfolding redis_del
  entry_of_deleted old at w =
      value_in_deleted w.redis w.now (auth_cache_key old) (auth_cache_key at)
      ∙ rw (auth_cache_key-inj old at) refl

  -- A delete whose failure is ignored leaves Redis alone.
  entry_of-try_delete :
      (t : String) (p r at : Text) (w : World env)
      → entry_of env (try_delete t p r w).1 at ≡ entry_of env w at
  unfolding try_delete delete_entity
  entry_of-try_delete t p r at w =
      elim (Bool-cases (is_some (env.storage.get_entity w.tables t p r))) [
        | inl there ↦ rw there refl
        | inr gone ↦ rw gone refl
      ]

  entry_of_created :
      (user name at : Text) (w : World env)
      → entry_of env (create user name w).1 at ≡ entry_of env w at
  unfolding create write_key random_uuid upsert_entity
  entry_of_created user name at w = refl

  -- Whom the hashes stand for after a rotation, whose new key stood for nothing before.
  pub admits-rotated :
      (id at : Text) (row : Row) (w : World env)
      → admits env w (env.sha256_hex (Rotation.new_key env id row w)) ≡ none
      → admits env (Rotation.rotated env id row w) at ≡ (
          if text_eq (env.sha256_hex (Rotation.new_key env id row w)) at
          then some id
          else if text_eq (Rotation.old_hash env id row w) at
          then none
          else admits env w at)
  unfolding admits
  admits-rotated id at row w unused =
      let new = env.sha256_hex (Rotation.new_key env id row w) in
      let old = Rotation.old_hash env id row w in
      let fresh : text_eq new at ≡ true → admits env w at ≡ none =
        λ h. ap (admits env w) (sym ((text_eq_iff new at).0 h)) ∙ unused in
      rw
        (
          entry_of_deleted old at (Rotation.admitted env id row w),
          entry_of-try_delete TableName.gw_api_keys (text "key") old at
              (Rotation.replaced env id row w),
          Rotation.holder_rotated env id row w at,
        )
        (via_replaced (text_eq new at) (text_eq old at) (entry_of env w at) (holder env w.tables at)
          id row.partition_key fresh)

  pub admits-deleted :
      (id at : Text) (row : Row) (w : World env)
      → admits env (Deletion.deleted env id row w) at
        ≡ (if text_eq (Deletion.old_hash env id row w) at then none else admits env w at)
  unfolding admits
  admits-deleted id at row w =
      let old = Deletion.old_hash env id row w in
      rw
        (
          entry_of_deleted old at (Deletion.revoked env id row w),
          entry_of-try_delete TableName.gw_api_keys (text "key") old at
              (Deletion.unsubscribed env id row w),
          entry_of-try_delete TableName.gw_subscriptions (text "subscription") id at
              (Deletion.removed env id row w),
          Deletion.holder_deleted env id row w at,
        )
        (via_revoked (text_eq old at) (entry_of env w at) (holder env w.tables at))

  pub admits-created :
      (user name at : Text) (w : World env)
      → admits env w (env.sha256_hex (made_by {env = env} w).primary_key) ≡ none
      → admits env (create user name w).1 at ≡ (
          if text_eq (env.sha256_hex (made_by {env = env} w).primary_key) at
          then some (made_by {env = env} w).id
          else admits env w at)
  unfolding admits
  admits-created user name at w unused =
      let new = env.sha256_hex (made_by {env = env} w).primary_key in
      let fresh : text_eq new at ≡ true → admits env w at ≡ none =
        λ h. ap (admits env w) (sym ((text_eq_iff new at).0 h)) ∙ unused in
      rw (entry_of_created user name at w, holder_created user name at w)
        (via_granted (text_eq new at) (entry_of env w at) (holder env w.tables at)
          (made_by {env = env} w).id user fresh)
