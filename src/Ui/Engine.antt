-- ===== src/Ui/Engine.antt =====
-- crates/mk-ui/src/store.rs: one round of the transfer engine. Times are in nanoseconds; the hash
-- maps are tables; a channel is what a worker has sent since the last round. Floats are a parameter.
pub mod Plan
pub mod Slots
use m_kestrel.Prelude.{
  ℕ, zero, suc, ◌+◌, ◌-◌, ◌*◌, ◌^◌, ◌%◌, ℤ, max, Bool, true, false, not, ◌&&◌, ◌||◌, List, [], ◌∷◌,
  ◌++◌, map, Option, none, some, Text, codes, if◌then◌else◌, ◌==◌, text_eq, eqb, ltb, leb, any,
  find, filter, length, take, drop, update_first, Table, lookup, erase, enter, Result, ok, err,
  decimal,
}
use m_kestrel.Core.Host.{Host}
use m_kestrel.Core.Job.{Job, JobState, VerifyMethod, is_running, is_waiting, is_failed}
use m_kestrel.Transfer.Scheduler.{Floats, sum_rates, saturate, ids, running_jobs, waiting_jobs}

-- The operations on `f64` that the engine has beside those of the planner.
pub record EngineFloats : Type 1 where
  pub floats : Floats
  pub mul : floats.F → floats.F → floats.F
  pub larger : floats.F → floats.F → floats.F
  pub of_u64 : ℕ → floats.F
  pub to_u64 : floats.F → ℕ

-- `Duration::from_secs`.
abbrev pub from_secs : ℕ → ℕ
from_secs s = s * 1000000000

-- `5 * 2u64.pow(attempt)`, which wraps in a release build.
unfoldable pub engine_backoff : ℕ → ℕ
engine_backoff attempt = 5 * (2 ^ attempt % 2 ^ 64) % 2 ^ 64

unfoldable pub host_is_real : List Host → Text → Bool
host_is_real hosts id = elim (find (λ h. h.id == id) hosts) [ none ↦ false | some h ↦ h.is_real ]

pub record Channel : Type 0 where
  pub messages : List ℕ
  pub closed : Bool

-- `TransferOutcome` of crates/mk-ui/src/backend.rs.
pub record TransferOutcome : Type 0 where
  pub bytes_done : ℕ
  pub verify_method : Option VerifyMethod
  pub verified : Option Bool
  pub files_done : ℕ
  pub files_total : ℕ
  pub files_failed : ℕ
  pub notice : Option Text

pub record Engine (F : Type 0) : Type 0 where
  pub jobs : List (Job F)
  pub running_since : Table ℕ
  pub failed_since : Table ℕ
  pub workers : Table Channel
  pub prev_bytes : Table ℕ
  pub cancel_flags : Table Bool
  pub rate_history : List F

-- What a round reads from the other signals and from the clock.
pub record Inputs : Type 0 where
  pub parallel : ℕ
  pub bandwidth_limit_bytes : ℕ
  pub verify : Bool
  pub offline : Bool
  pub hosts : List Host
  pub now : ℕ
  pub unix_now : ℤ

abbrev pub or_else {ℓ} : {A : Type ℓ} → A → Option A → A
or_else d none = d
or_else d (some a) = a

abbrev pub is_some {ℓ} : {A : Type ℓ} → Option A → Bool
is_some none = false
is_some (some a) = true

-- The latest of the messages.
unfoldable pub latest : List ℕ → Option ℕ
latest [] = none
latest (b ∷ []) = some b
latest (b ∷ c ∷ bs) = latest (c ∷ bs)

unfoldable pub drained : Table Channel → Table ℕ
unfolding latest
drained [] = []
drained ((id, rx) ∷ ws) =
    let rest = drained ws in elim (latest rx.messages) [ none ↦ rest | some b ↦ (id, b) ∷ rest ]

unfoldable pub finished_workers : Table Channel → List Text
finished_workers [] = []
finished_workers ((id, rx) ∷ ws) =
    let rest = finished_workers ws in if rx.closed then id ∷ rest else rest

unfoldable pub emptied : Table Channel → Table Channel
emptied = map (λ w. (w.0, record w.1 { messages = [] }))

unfoldable pub erase_all : {V : Type 0} → List Text → Table V → Table V
erase_all [] t = t
erase_all (id ∷ is) t = erase_all is (erase id t)

unfoldable pub enter_all : List Text → ℕ → Table ℕ → Table ℕ
enter_all [] now t = t
enter_all (id ∷ is) now t = enter_all is now (enter id now t)

module _ {F : Type 0} where
  unfoldable pub start : Job F → Job F
  start j = record j { state = JobState.running }

  unfoldable pub requeue : Job F → Job F
  requeue j = record j { state = JobState.waiting }

  unfoldable pub start_all : List Text → List (Job F) → List (Job F)
  start_all [] jobs = jobs
  start_all (id ∷ is) jobs = start_all is (update_first (λ j. j.id == id) start jobs)

  unfoldable pub waiting_ids : Bool → ℕ → List (Job F) → List Text
  waiting_ids offline parallel jobs =
      if offline then [] else ids (take (parallel - length (running_jobs jobs)) (waiting_jobs jobs))

  unfoldable pub retry_due : Table ℕ → ℕ → Job F → Bool
  unfolding engine_backoff
  retry_due failed_since now j =
      is_failed j.state
      && ltb j.attempt j.max_attempts
      && leb (from_secs (engine_backoff j.attempt)) (now - or_else now (lookup j.id failed_since))

  abbrev pub retry : Table ℕ → ℕ → Job F → Job F
  retry failed_since now j = if retry_due failed_since now j then requeue j else j

  -- Promotion and retry: the jobs afterwards.
  unfoldable pub schedule : Bool → ℕ → Table ℕ → ℕ → List (Job F) → List (Job F)
  unfolding start_all waiting_ids retry_due
  schedule offline parallel failed_since now jobs =
      map (retry failed_since now) (start_all (waiting_ids offline parallel jobs) jobs)

  -- The times that promotion and retry leave in `running_since`.
  unfoldable pub schedule_since : Bool → ℕ → Table ℕ → ℕ → List (Job F) → Table ℕ → Table ℕ
  unfolding start_all waiting_ids retry_due enter_all erase_all
  schedule_since offline parallel failed_since now jobs since =
      let promoted = waiting_ids offline parallel jobs in
      erase_all (ids (filter (retry_due failed_since now) (start_all promoted jobs)))
        (enter_all promoted now since)

  -- A worker is cancelled when its job does not run.
  unfoldable pub runs : Text → List (Job F) → Bool
  runs id jobs = any (λ j. j.id == id && is_running j.state) jobs

  unfoldable pub set_flags : List (Job F) → Table Bool → Table Bool
  unfolding runs
  set_flags jobs = map (λ e. (e.0, not (runs e.0 jobs)))

  unfoldable pub to_spawn : List Host → Table Channel → List (Job F) → List (Job F)
  unfolding host_is_real
  to_spawn hosts workers = filter (λ j.
      is_running j.state && host_is_real hosts j.host_id && not (is_some (lookup j.id workers)))

  unfoldable pub spawn_workers : List (Job F) → Table Channel → Table Channel
  spawn_workers [] workers = workers
  spawn_workers (j ∷ js) workers =
      spawn_workers js (enter j.id (record { messages = []; closed = false }) workers)

  unfoldable pub spawn_flags : List (Job F) → Table Bool → Table Bool
  spawn_flags [] flags = flags
  spawn_flags (j ∷ js) flags = spawn_flags js (enter j.id false flags)

  -- The ring keeps the last 60 rates.
  unfoldable pub feed_ring : F → List F → List F
  feed_ring rate history = let longer = history ++ rate ∷ [] in drop (length longer - 60) longer
