-- ===== src/Ui/Queue.antt =====
-- crates/mk-ui/src/store.rs: the operations on the transfer queue. The queue is the list of jobs
-- and `JOB_SEQ`; what is read from other signals (the selected host, the current directory, the
-- settings) is an argument.
pub mod Pausing
use m_kestrel.Prelude.{
  ℕ, zero, suc, ◌+◌, ℤ, pos, Bool, true, false, not, ◌&&◌, ◌||◌, List, [], ◌∷◌, ◌++◌, map, Option,
  none, some, Text, codes, if◌then◌else◌, ◌==◌, text_eq, eqb, any, filter, length, update_first,
  trim_end_matches, ends_with, decimal,
}
use m_kestrel.Core.Host.{Host, HostStatus, Entry, EntryKind}
use m_kestrel.Core.Job.{
  Job, JobState, Direction, up, down, default_job, is_running, is_waiting, is_paused, is_failed,
  is_done,
}
use m_kestrel.Core.Settings.{OverwritePolicy}

unfoldable pub lose_host : Host → Host
lose_host h = record h { status = HostStatus.unreachable }

unfoldable pub find_host : Host → Host
find_host h = record h {
  status =
      if h.id == codes "host-media-nas" || h.id == codes "host-localhost"
      then HostStatus.mounted
      else HostStatus.idle;
}

module _ {F : Type 0} where
  unfoldable pub pause_running : Job F → Job F
  pause_running j = if is_running j.state then record j { state = JobState.paused } else j

  unfoldable pub resume_paused : Job F → Job F
  resume_paused j = if is_paused j.state then record j { state = JobState.running } else j

  unfoldable pub toggle_pause_all : List (Job F) → List (Job F)
  unfolding pause_running resume_paused
  toggle_pause_all jobs =
      if any (λ j. is_running j.state) jobs then map pause_running jobs else map resume_paused jobs

  unfoldable pub pause_job : Text → List (Job F) → List (Job F)
  unfolding pause_running
  pause_job id = update_first (λ j. j.id == id) pause_running

  -- `zero_rate` is `0.0`.
  unfoldable pub restart_paused : F → Job F → Job F
  restart_paused zero_rate j =
      if is_paused j.state
      then record j { state = JobState.running; rate_bytes_per_s = zero_rate; eta_seconds = none }
      else j

  unfoldable pub resume_job : F → Text → List (Job F) → List (Job F)
  unfolding restart_paused
  resume_job zero_rate id = update_first (λ j. j.id == id) (restart_paused zero_rate)

  unfoldable pub cancel_job : Text → List (Job F) → List (Job F)
  cancel_job id = filter (λ j. not (j.id == id))

  abbrev pub skip_job : Text → List (Job F) → List (Job F)
  skip_job id = filter (λ j. not (j.id == id))

  unfoldable pub reset_job : F → Job F → Job F
  reset_job zero_rate j = record j {
    state = JobState.waiting;
    attempt = 0;
    finished_at = none;
    bytes_done = 0;
    rate_bytes_per_s = zero_rate;
    eta_seconds = none;
    message = none;
    errno = none;
  }

  unfoldable pub retry_job : F → Text → List (Job F) → List (Job F)
  unfolding reset_job
  retry_job zero_rate id = update_first (λ j. j.id == id) (reset_job zero_rate)

  unfoldable pub clear_done : List (Job F) → List (Job F)
  clear_done = filter (λ j. not (is_done j.state))

  abbrev pub count_of : (JobState → Bool) → List (Job F) → ℕ
  count_of p jobs = length (filter (λ j. p j.state) jobs)

  unfoldable pub queue_counts : List (Job F) → ℕ × ℕ × ℕ × ℕ
  queue_counts jobs = (
    count_of is_running jobs,
    count_of is_waiting jobs,
    count_of is_failed jobs,
    count_of is_done jobs,
  )

  unfoldable pub queue_badge : List (Job F) → ℕ
  unfolding queue_counts
  queue_badge jobs = let (r, w, f, d) = queue_counts jobs in r + w

  unfoldable pub set_offline : Bool → List Host × List (Job F) → List Host × List (Job F)
  unfolding pause_running resume_paused lose_host find_host
  set_offline true (hosts, jobs) = (map lose_host hosts, map pause_running jobs)
  set_offline false (hosts, jobs) = (map find_host hosts, map resume_paused jobs)
