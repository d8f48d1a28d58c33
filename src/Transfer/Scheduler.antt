-- ===== src/Transfer/Scheduler.antt =====
-- crates/mk-transfer/src/scheduler.rs. The clock is the map of elapsed seconds that the caller
-- passes; floats are a parameter.
pub mod Slots
pub mod Retry
use m_kestrel.Prelude.{
  ℕ, ◌*◌, ◌-◌, ◌^◌, min, Bool, true, false, ◌&&◌, List, [], ◌∷◌, map, Option, none, some, Text,
  if◌then◌else◌, ltb, leb, filter, length, take,
}
use m_kestrel.Core.Job.{Job, is_running, is_waiting, is_failed}

-- The operations on `f64` that the planner uses.
pub record Floats : Type 1 where
  pub F : Type 0
  pub zero : F
  pub one : F
  pub add : F → F → F
  pub div : F → F → F
  pub gt : F → F → Bool

abbrev pub u64_max : ℕ
u64_max = 2 ^ 64 - 1

-- `u64::saturating_mul` and `saturating_pow` of values in range.
abbrev pub saturate : ℕ → ℕ
saturate n = min n u64_max

unfoldable pub backoff : ℕ → ℕ
backoff attempt = saturate (5 * saturate (2 ^ attempt))

pub record TickPlan (F : Type 0) : Type 0 where
  pub scale : F
  pub promote : List Text
  pub retry : List Text

module _ (fl : Floats) where
  open fl use {F, zero, one, add, div, gt}

  unfoldable pub sum_rates : F → List (Job F) → F
  sum_rates acc [] = acc
  sum_rates acc (j ∷ js) = sum_rates (add acc j.rate_bytes_per_s) js

-- `.map(|elapsed| *elapsed >= backoff(j.attempt)).unwrap_or(false)`.
abbrev pub past_backoff : Option ℕ → ℕ → Bool
past_backoff none attempt = false
past_backoff (some elapsed) attempt = leb (backoff attempt) elapsed

module _ {F : Type 0} where
  abbrev pub running_jobs : List (Job F) → List (Job F)
  running_jobs = filter (λ j. is_running j.state)

  abbrev pub waiting_jobs : List (Job F) → List (Job F)
  waiting_jobs = filter (λ j. is_waiting j.state)

  abbrev pub ids : List (Job F) → List Text
  ids = map (λ j. j.id)

  unfoldable pub is_due : (Text → Option ℕ) → Job F → Bool
  is_due elapsed j =
      is_failed j.state && ltb j.attempt j.max_attempts && past_backoff (elapsed j.id) j.attempt

module _ (fl : Floats) where
  open fl use {F, zero, one, add, div, gt}

  unfoldable pub scale_for : F → F → F
  scale_for limit total =
      if gt limit zero && gt total limit && gt total zero then div limit total else one

  unfoldable pub plan_tick : List (Job F) → ℕ → F → (Text → Option ℕ) → TickPlan F
  unfolding sum_rates scale_for is_due
  plan_tick jobs parallel bandwidth_limit_bps elapsed =
      let running = length (running_jobs jobs) in
      let slots = parallel - running in
      record {
        scale = scale_for bandwidth_limit_bps (sum_rates fl zero (running_jobs jobs));
        promote = ids (take slots (waiting_jobs jobs));
        retry = ids (filter (is_due elapsed) jobs);
      }
