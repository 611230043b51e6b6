-- ===== src/Jobs/Overview.antt =====
-- The figures of the overview for administrators, portal/lib/data/admin-overview-data.ts. The calls on
-- the stream of the queue are parameters, each of which may throw; the numbers in its entries are
-- whole.
use canonizr_hda.Prelude.{
  ℕ, ◌+◌, ◌*◌, ◌/◌, ◌==◌, if◌then◌else◌, length, filter, get_or, sum, Text, text, text_eq, Bool,
  true, false, Option, none, some, List, [], ◌∷◌, map, to_number,
}
use canonizr_hda.Storage.Entity.{prop, str?}
use canonizr_hda.Storage.Rows.{Row, in_partition}
use canonizr_hda.World.Time.{day_ms, iso_string}
use canonizr_hda.World.Actions.{Env, Action, ◌>>=◌, ◌>>◌, pure, gets, catch, list_entities}
use canonizr_hda.Tables.TableName
use canonizr_hda.Auth.Session.{require_admin}
use canonizr_hda.Jobs.UserList.{is_created_since}

-- An entry of the stream: its id and its fields, names and values by turns.
pub record Entry : Type 0 where
  pub id : Text
  pub fields : List Text

pub record QueueStats : Type 0 where
  pub queue_length : ℕ
  pub queue_size_kb : ℕ
  pub in_flight_jobs : ℕ
  pub oldest_waiting_since : Option Text

pub record TableStats : Type 0 where
  pub jobs_today : ℕ
  pub jobs_error_today : ℕ
  pub total_users : ℕ

abbrev pub no_queue : QueueStats
no_queue = record {
  queue_length = 0;
  queue_size_kb = 0;
  in_flight_jobs = 0;
  oldest_waiting_since = none;
}

-- `streamId.split("-")[0]`
unfoldable pub before_dash : Text → Text
before_dash [] = []
before_dash (c ∷ s) = let rest = before_dash s in if c == b'-' then [] else c ∷ rest

unfoldable pub waiting_since : List Entry → Option Text
waiting_since [] = none
waiting_since (e ∷ entries) = some (iso_string (to_number (before_dash e.id)))

-- `Math.round(bytes / 1024)`
abbrev pub kb_of : ℕ → ℕ
kb_of bytes = (2 * bytes + 1024) / 2048

unfoldable pub size_of : List Text → ℕ
size_of [] = 0
size_of (name ∷ []) = 0
size_of (name ∷ value ∷ fields) =
    (if text_eq name (text "input_bytes") then kb_of (to_number value) else 0) + size_of fields

unfoldable pub queue_size : List Entry → ℕ
queue_size entries = sum (map (λ e. size_of e.fields) entries)

abbrev pub is_failed_row : Row → Bool
is_failed_row row = elim (str? (prop "status" row.entity)) [
  | none ↦ false
  | some s ↦ text_eq s (text "error")
]

-- The calls on the stream, where there is a client.
pub record Stream (env : Env) : Type 0 where
  pub xlen : Action env ℕ
  -- the first element of the summary, if it is a number
  pub xpending : Action env (Option ℕ)
  -- the first entries, at most so many
  pub xrange : ℕ → Action env (List Entry)

module _ {env : Env} where
  -- `try { x = await m } catch {}` for an `x` that has a value before.
  unfoldable pub attempt : {A : Type 0} → A → Action env A → Action env A
  attempt before m = catch m (λ _. pure before)

  -- The oldest entry, and the size of the first thousand. If the second call throws, the first has had
  -- its effect.
  unfoldable pub size_after : Option Text → Stream env → Action env (Option Text × ℕ)
  size_after since s = do entries ← attempt [] (s.xrange 1000); pure (since, queue_size entries)

  unfoldable pub oldest_and_size : Stream env → Action env (Option Text × ℕ)
  oldest_and_size s =
      catch (do oldest ← s.xrange 1; size_after (waiting_since oldest) s) (λ _. pure (none, 0))

  unfoldable pub queue_stats : Option (Stream env) → Action env QueueStats
  queue_stats none = pure no_queue
  queue_stats (some s) = do
    size ← attempt 0 s.xlen
    pending ← attempt none s.xpending
    found ← oldest_and_size s
    pure (record {
      queue_length = size;
      queue_size_kb = found.1;
      in_flight_jobs = get_or pending 0;
      oldest_waiting_since = found.0;
    })

  unfoldable pub table_stats : Action env TableStats
  table_stats = do
    now ← gets (λ w. w.now)
    let today = iso_string (now / day_ms * day_ms)
    jobs ← attempt [] (list_entities TableName.gw_user_jobs (is_created_since today))
    users ← attempt [] (list_entities TableName.users (in_partition (text "user")))
    pure (record {
      jobs_today = length jobs;
      jobs_error_today = length (filter is_failed_row jobs);
      total_users = length users;
    })

  unfoldable pub get_admin_overview : Option (Stream env) → Action env (QueueStats × TableStats)
  get_admin_overview redis = do
    require_admin true
    queue ← queue_stats redis
    tables ← table_stats
    pure (queue, tables)
