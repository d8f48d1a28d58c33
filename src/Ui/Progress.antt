-- ===== src/Ui/Progress.antt =====
-- crates/mk-ui/src/store.rs: what a round of the transfer engine and a finished worker do to a job.
-- `now` is in nanoseconds and `unix_now` is the wall clock in seconds.
pub mod Demo
pub mod Ended
use m_kestrel.Prelude.{
  ℕ, suc, ◌+◌, ◌-◌, ◌^◌, ◌%◌, min, max, ℤ, Bool, true, false, not, ◌&&◌, List, [], ◌∷◌, ◌++◌, map,
  Option, none, some, Text, codes, if◌then◌else◌, ◌==◌, text_eq, ltb, leb, eqb, filter,
  update_first, Table, lookup, erase, enter, Result, ok, err, decimal,
}
use m_kestrel.Core.Host.{Host}
use m_kestrel.Core.Job.{Job, JobState, is_running}
use m_kestrel.Transfer.Scheduler.{Floats, sum_rates, saturate}
use m_kestrel.Ui.Engine.{EngineFloats, TransferOutcome, host_is_real, or_else, is_some, from_secs}

-- The rate of a round so far, with `prev_bytes`.
pub record Rates (F : Type 0) : Type 0 where
  pub aggregate : F
  pub prev_bytes : Table ℕ

-- The rate of a round so far, with the two clocks of demo jobs.
pub record Clocks (F : Type 0) : Type 0 where
  pub aggregate : F
  pub running_since : Table ℕ
  pub failed_since : Table ℕ

module _ (ef : EngineFloats) where
  open ef use {floats, mul, larger, of_u64, to_u64}
  open floats use {F, zero, one, add, div, gt}

  unfoldable pub seconds_left : ℕ → F → ℕ
  seconds_left remaining rate = to_u64 (div (of_u64 remaining) (larger rate one))

  unfoldable pub set_eta : Job F → Job F
  unfolding seconds_left
  set_eta j =
      if ltb 0 j.bytes_total
      then record j {
        eta_seconds = some (seconds_left (j.bytes_total - j.bytes_done) j.rate_bytes_per_s);
      }
      else j

  unfoldable pub take_progress : Option ℕ → Job F → Rates F → Job F × Rates F
  take_progress none j r = (j, r)
  take_progress (some bytes) j r =
      let rate = of_u64 (bytes - or_else 0 (lookup j.id r.prev_bytes)) in
      (
        record j { bytes_done = bytes; rate_bytes_per_s = rate },
        record { aggregate = add r.aggregate rate; prev_bytes = enter j.id bytes r.prev_bytes },
      )

  unfoldable pub progress_job : List Host → Table ℕ → Job F → Rates F → Job F × Rates F
  unfolding take_progress set_eta
  progress_job hosts progress j r =
      if is_running j.state && host_is_real hosts j.host_id
      then (let (k, r') = take_progress (lookup j.id progress) j r in (set_eta k, r'))
      else (j, r)

  unfoldable pub apply_progress :
      List Host → Table ℕ → List (Job F) → Rates F → List (Job F) × Rates F
  unfolding progress_job
  apply_progress hosts progress [] r = ([], r)
  apply_progress hosts progress (j ∷ js) r =
      let (k, r') = progress_job hosts progress j r in
      let (ks, r'') = apply_progress hosts progress js r' in (k ∷ ks, r'')

  unfoldable pub is_demo : List Host → Job F → Bool
  is_demo hosts j = is_running j.state && not (host_is_real hosts j.host_id)

  unfoldable pub demo_scale : List Host → ℕ → List (Job F) → F
  unfolding is_demo
  demo_scale hosts limit jobs =
      let total = sum_rates floats zero (filter (is_demo hosts) jobs) in
      if gt total (of_u64 limit) && gt total zero then div (of_u64 limit) total else one

  -- The bytes of a round, and the end of the job when all bytes are there.
  unfoldable pub move_bytes : F → Bool → ℤ → Job F → Job F
  unfolding seconds_left
  move_bytes rate verify unix_now j =
      let moved = saturate (j.bytes_done + to_u64 rate) in
      if leb j.bytes_total moved
      then record j {
        bytes_done = j.bytes_total;
        state = JobState.done;
        finished_at = some unix_now;
        verified = some verify;
      }
      else record j {
        bytes_done = moved;
        eta_seconds = some (seconds_left (j.bytes_total - moved) rate);
      }

  -- A job with a message fails again after two seconds.
  unfoldable pub fail_again : ℕ → ℤ → Job F → Clocks F → Job F × Clocks F
  fail_again now unix_now j c =
      if is_some j.message && is_running j.state
      then (let started = or_else now (lookup j.id c.running_since) in
          if leb (from_secs 2) (now - started)
          then (
            record j {
              state = JobState.failed;
              attempt = (j.attempt + 1) % 2 ^ 32;
              finished_at = some unix_now;
            },
            record c {
              running_since = erase j.id c.running_since;
              failed_since = enter j.id now c.failed_since;
            },
          )
          else (j, record c { running_since = enter j.id started c.running_since }))
      else (j, c)

  unfoldable pub demo_job : List Host → F → Bool → ℕ → ℤ → Job F → Clocks F → Job F × Clocks F
  unfolding is_demo move_bytes fail_again
  demo_job hosts scale verify now unix_now j c =
      if is_demo hosts j
      then (let rate = mul j.rate_bytes_per_s scale in
          let k = move_bytes rate verify unix_now j in
          fail_again now unix_now k (record c {
            aggregate = add c.aggregate rate;
            running_since =
                if is_running k.state then c.running_since else erase j.id c.running_since;
          }))
      else (j, c)

  unfoldable pub advance_demo :
      List Host → F → Bool → ℕ → ℤ → List (Job F) → Clocks F → List (Job F) × Clocks F
  unfolding demo_job
  advance_demo hosts scale verify now unix_now [] c = ([], c)
  advance_demo hosts scale verify now unix_now (j ∷ js) c =
      let (k, c') = demo_job hosts scale verify now unix_now j c in
      let (ks, c'') = advance_demo hosts scale verify now unix_now js c' in (k ∷ ks, c'')

-- `format!("{} of {} failed", failed, total)`.
abbrev pub failed_text : ℕ → ℕ → Text
failed_text failed total = decimal failed ++ codes " of " ++ decimal total ++ codes " failed"

module _ {F : Type 0} where
  unfoldable pub finish_ok : TransferOutcome → ℤ → Job F → Job F
  finish_ok o unix_now j =
      let all_failed = ltb 0 o.files_failed && eqb o.files_done 0 in
      record j {
        bytes_done = max o.bytes_done j.bytes_done;
        bytes_total = if ltb 0 o.bytes_done then max j.bytes_total o.bytes_done else j.bytes_total;
        files_done = o.files_done;
        files_total = o.files_total;
        files_failed = o.files_failed;
        verify_method = o.verify_method;
        verified = o.verified;
        state = if all_failed then JobState.failed else JobState.done;
        message =
            if ltb 0 o.files_failed
            then some (failed_text o.files_failed o.files_total)
            else (if is_some o.notice then o.notice else j.message);
        finished_at = some unix_now;
      }

  unfoldable pub finish_err : Text → ℤ → Job F → Job F
  finish_err message unix_now j = record j {
    state = JobState.failed;
    attempt = (j.attempt + 1) % 2 ^ 32;
    message = some message;
    finished_at = some unix_now;
  }

  unfoldable pub finish : Result TransferOutcome Text → ℤ → Job F → Job F
  unfolding finish_ok finish_err
  finish (ok outcome) unix_now j = finish_ok outcome unix_now j
  finish (err message) unix_now j = finish_err message unix_now j

  -- The end of the worker of job `id`: the jobs and `failed_since` afterwards.
  unfoldable pub worker_done :
      Text → Result TransferOutcome Text → ℕ → ℤ → List (Job F) × Table ℕ → List (Job F) × Table ℕ
  unfolding finish
  worker_done id result now unix_now (jobs, failed_since) = (
    update_first (λ j. j.id == id && is_running j.state) (finish result unix_now) jobs,
    elim result [ ok outcome ↦ failed_since | err message ↦ enter id now failed_since ],
  )
