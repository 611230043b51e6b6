-- ===== src/Keys/Journal.antt =====
-- The key store against an abstract view of it: of what the gateway admits only the grants and the
-- revocations matter, in their order, and not the three tables and the cache that hold them, nor what
-- the gateway keeps in Redis in between.
use canonizr_hda.Prelude.{
  ℕ, ◌+◌, if◌then◌else◌, head?, filter, Text, text_eq, ◌≡◌, refl, Option, none, some, List, [], ◌∷◌,
  ◌++◌,
}
use canonizr_hda.Storage.Rows.{Row}
use canonizr_hda.World.Actions.{Outcome, ok, err, Env, World, list_entities}
use canonizr_hda.Tables.TableName
use canonizr_hda.Keys.Store.{
  CreatedKey, primary_key_of, string_of, with_row_key, create, rotate, rotate_from, delete,
  delete_from, set_quota,
}
use canonizr_hda.Keys.Resolve.{admits, resolve_api_key}

-- A hash begins to stand for a subscription, or stands for nothing any more.
pub data Event : Type 0 where
  grant : (hash sub_id : Text) → Event
  revoke : (hash : Text) → Event

-- What a hash stands for after events, given what it stood for before.
pub replay : List Event → Text → Option Text → Option Text
replay [] k a = a
replay (grant hash sub ∷ events) k a = replay events k (if text_eq hash k then some sub else a)
replay (revoke hash ∷ events) k a = replay events k (if text_eq hash k then none else a)

-- The operations that change the store, and those of the gateway.
pub data Op : Type 0 where
  creation : (user name : Text) → Op
  rotation : (id : Text) → Op
  deletion : (id : Text) → Op
  quota : (id : Text) (kb : Option ℕ) → Op
  -- The gateway resolves a key, and keeps the answer in Redis.
  lookup : (key : Text) → Op

module _ (env : Env) where
  -- A failure of an operation leaves what it has written.
  unfoldable pub step : Op → World env → World env
  step (creation user name) w = (create user name w).1
  step (rotation id) w = (rotate id w).1
  step (deletion id) w = (delete id w).1
  step (quota id kb) w = (set_quota id kb w).1
  step (lookup key) w = (resolve_api_key key w).1

  unfoldable pub run : List Op → World env → World env
  run [] w = w
  run (op ∷ ops) w = run ops (step op w)

  abbrev pub stored : Text → World env → Option Row
  stored id w = head? (filter (with_row_key id) (env.storage.rows w.tables TableName.api_keys))

  abbrev hash_of : Row → Text
  hash_of row = env.sha256_hex (string_of "primaryKey" row.entity)

  abbrev on_created : Text → Outcome CreatedKey → List Event
  on_created user (ok made) = grant (env.sha256_hex made.primary_key) made.id ∷ []
  on_created user (err e) = []

  abbrev on_rotated : Text → Option Row → Outcome Text → List Event
  on_rotated id (some row) (ok new) = revoke (hash_of row) ∷ grant (env.sha256_hex new) id ∷ []
  on_rotated id (some row) (err e) = []
  on_rotated id none result = []

  abbrev on_deleted : Option Row → List Event
  on_deleted (some row) = revoke (hash_of row) ∷ []
  on_deleted none = []

  -- What an operation promises: a key that it makes admits its subscription, the key of a subscription
  -- that it rotates or deletes is revoked, and a key that is not stored has nothing to revoke.
  pub events_of : Op → World env → List Event
  events_of (creation user name) w = on_created user (create user name w).0
  events_of (rotation id) w = on_rotated id (stored id w) (rotate id w).0
  events_of (deletion id) w = on_deleted (stored id w)
  events_of (quota id kb) w = []
  events_of (lookup key) w = []

  pub journal : List Op → World env → List Event
  journal [] w = []
  journal (op ∷ ops) w = events_of op w ++ journal ops (step op w)

  pub rotate_missing : (id : Text) (w : World env) → stored id w ≡ none → (rotate id w).1 ≡ w
  unfolding rotate rotate_from list_entities
  rotate_missing id w h = rw h refl

  pub delete_missing : (id : Text) (w : World env) → stored id w ≡ none → (delete id w).1 ≡ w
  unfolding delete delete_from list_entities
  delete_missing id w h = rw h refl

  -- The hash of a key that is drawn stands for nothing yet.
  unfoldable pub IsUnused : Op → World env → Type 0
  IsUnused (creation user name) w =
      admits env w (env.sha256_hex (primary_key_of (env.uuid (w.drawn + 1)))) ≡ none
  IsUnused (rotation id) w =
      admits env w (env.sha256_hex (primary_key_of (env.uuid w.drawn))) ≡ none
  IsUnused (deletion id) w = Unit {0}
  IsUnused (quota id kb) w = Unit {0}
  IsUnused (lookup key) w = Unit {0}

  unfoldable pub AreUnused : List Op → World env → Type 0
  AreUnused [] w = Unit {0}
  AreUnused (op ∷ ops) w = IsUnused op w × AreUnused ops (step op w)
