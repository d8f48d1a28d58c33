-- ===== src/Core/Job.antt =====
-- crates/mk-core/src/job.rs: transfer queue entries. A rate is an `f64`, so the type of floats `F`
-- is a parameter.
use m_kestrel.Prelude.{ℕ, ℤ, Bool, true, false, Option, none, some, Text, codes, []}
use m_kestrel.Core.Settings.{OverwritePolicy}

-- `up` is remote to local, a download.
pub data Direction : Type 0 where
  up down : Direction

pub data JobState : Type 0 where
  running waiting paused failed done : JobState

pub data VerifyMethod : Type 0 where
  sha256_exec sha256_readback size_checked : VerifyMethod

pub record Job (F : Type 0) : Type 0 where
  pub id : Text
  pub direction : Direction
  pub name : Text
  pub host_id : Text
  pub remote_path : Text
  pub local_path : Text
  pub bytes_done : ℕ
  pub bytes_total : ℕ
  pub rate_bytes_per_s : F
  pub eta_seconds : Option ℕ
  pub state : JobState
  pub attempt : ℕ
  pub max_attempts : ℕ
  pub errno : Option ℤ
  pub message : Option Text
  pub finished_at : Option ℤ
  pub verified : Option Bool
  pub verify_method : Option VerifyMethod
  pub is_tree : Bool
  pub files_done : ℕ
  pub files_total : ℕ
  pub files_failed : ℕ
  pub remote_mtime : Option ℤ
  pub remote_size : Option ℕ
  pub overwrite_policy : Option OverwritePolicy

-- `Job::default()`, over the float `0.0`.
abbrev pub default_job : {F : Type 0} → F → Job F
default_job zero_rate = record {
  id = [];
  direction = up;
  name = [];
  host_id = [];
  remote_path = [];
  local_path = [];
  bytes_done = 0;
  bytes_total = 0;
  rate_bytes_per_s = zero_rate;
  eta_seconds = none;
  state = waiting;
  attempt = 0;
  max_attempts = 3;
  errno = none;
  message = none;
  finished_at = none;
  verified = none;
  verify_method = none;
  is_tree = false;
  files_done = 0;
  files_total = 0;
  files_failed = 0;
  remote_mtime = none;
  remote_size = none;
  overwrite_policy = none;
}

-- `j.state == JobState::…`, one test for each state.
abbrev pub is_running : JobState → Bool
is_running running = true
is_running _ = false

abbrev pub is_waiting : JobState → Bool
is_waiting waiting = true
is_waiting _ = false

abbrev pub is_paused : JobState → Bool
is_paused paused = true
is_paused _ = false

abbrev pub is_failed : JobState → Bool
is_failed failed = true
is_failed _ = false

abbrev pub is_done : JobState → Bool
is_done done = true
is_done _ = false

-- `VerifyMethod::as_str` and the label of a finished row.
unfoldable pub as_str : VerifyMethod → Text
as_str sha256_exec = codes "sha256-exec"
as_str sha256_readback = codes "sha256-readback"
as_str size_checked = codes "size-checked"

unfoldable pub queue_label : VerifyMethod → Option Bool → Text
queue_label size_checked _ = codes "size-checked"
queue_label _ (some true) = codes "verified"
queue_label _ (some false) = codes "mismatch"
queue_label _ none = codes "done"
