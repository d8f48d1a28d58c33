-- ===== src/Ui/Enqueue.antt =====
-- crates/mk-ui/src/store.rs: what puts jobs into the transfer queue. The queue is the list of jobs
-- with `JOB_SEQ`; the selected host, the current directory and the settings are arguments, and so
-- is the test for a file on disk.
pub mod Orphans
pub mod Ids
use m_kestrel.Prelude.{
  reverse, strip_prefix, ℕ, zero, suc, ◌+◌, ℤ, pos, Bool, true, false, not, ◌&&◌, ◌||◌, List, [],
  ◌∷◌, ◌++◌, map, Option, none, some, Text, codes, if◌then◌else◌, ◌==◌, text_eq, eqb, any, filter,
  length, update_first, trim_end_matches, ends_with, decimal,
}
use m_kestrel.Core.Host.{Entry, EntryKind}
use m_kestrel.Core.Job.{
  Job, JobState, Direction, up, down, default_job, is_waiting, is_paused, is_failed,
}
use m_kestrel.Core.Settings.{OverwritePolicy}

pub record Queue (F : Type 0) : Type 0 where
  pub jobs : List (Job F)
  pub job_seq : ℕ

-- `format!("{}/{}", cwd.trim_end_matches('/'), name)`.
unfoldable pub child_path : Text → Text → Text
child_path cwd name = trim_end_matches (eqb b'/') cwd ++ b'/' ∷ name

abbrev pub download_path : Text → Text
download_path name = codes "/Downloads/" ++ name

unfoldable pub job_id : Text → ℕ → Text
job_id name seq = codes "job-" ++ name ++ b'-' ∷ decimal seq

abbrev pub is_file : EntryKind → Bool
is_file EntryKind.file = true
is_file _ = false

abbrev pub is_dir : EntryKind → Bool
is_dir EntryKind.dir = true
is_dir _ = false

abbrev pub is_ask : OverwritePolicy → Bool
is_ask OverwritePolicy.ask = true
is_ask _ = false

abbrev pub is_none {ℓ} : {A : Type ℓ} → Option A → Bool
is_none none = true
is_none (some a) = false

abbrev pub is_up : Direction → Bool
is_up up = true
is_up down = false

-- `Dialog::Conflict`.
pub record Conflict : Type 0 where
  pub direction : Direction
  pub name : Text
  pub dest : Text
  pub remote_path : Text
  pub local_path : Text
  pub bytes_total : ℕ
  pub is_tree : Bool
  pub apply_all : Bool
  pub choice : OverwritePolicy

-- `apply_all.or(Some(setting)).unwrap_or(Ask)`.
abbrev pub effective_policy : Option OverwritePolicy → OverwritePolicy → OverwritePolicy
effective_policy none setting = setting
effective_policy (some p) setting = p

-- `dest_exists && policy == Ask && apply_all.is_none()`.
unfoldable pub asks :
    (Text → Bool) → Option OverwritePolicy → OverwritePolicy → Direction → Entry → Bool
asks exists apply_all setting direction entry =
    is_up direction
    && exists (download_path entry.name)
    && is_ask (effective_policy apply_all setting)
    && is_none apply_all

abbrev pub conflict_for : Direction → Entry → Text → Text → Conflict
conflict_for direction entry remote_path local_path = record {
  direction = direction;
  name = entry.name;
  dest = if is_up direction then local_path else remote_path;
  remote_path = remote_path;
  local_path = local_path;
  bytes_total = entry.size_bytes;
  is_tree = is_dir entry.kind;
  apply_all = false;
  choice = OverwritePolicy.overwrite;
}

abbrev pub selected_files : List Text → List Entry → List Entry
selected_files selection = filter (λ e. any (λ n. n == e.name) selection && is_file e.kind)

abbrev pub job_policy : OverwritePolicy → Option OverwritePolicy
job_policy policy = if is_ask policy then none else some policy

-- `trim_end_matches(".mkpart")` on a reversed text, which starts with the reversed ending; each
-- round drops a character, so one round more than there are characters is enough.
unfoldable pub trim_text : ℕ → Text → Text → Text
trim_text zero ending s = s
trim_text (suc n) ending s = elim (strip_prefix s ending) [
  | none ↦ s
  | some rest ↦ trim_text n ending rest
]

-- The name that a partial was made for, from the file stem of its path. The `strip_suffix` that
-- follows in the source finds no ending left.
unfoldable pub partial_name : Option Text → Text
unfolding trim_text
partial_name stem =
    let s : Text = elim stem [ none ↦ codes "partial" | some s ↦ s ] in
    reverse (trim_text (suc (length s)) (reverse (codes ".mkpart")) (reverse s))

module _ {F : Type 0} where
  -- A partial belongs to the first job of its name that does not run and is not done.
  unfoldable pub is_resumable : Text → Job F → Bool
  is_resumable name j =
      ends_with j.local_path name && (is_paused j.state || is_failed j.state || is_waiting j.state)

  unfoldable pub mark_resume : Job F → Job F
  mark_resume j = record j {
    state = JobState.waiting;
    overwrite_policy = some OverwritePolicy.resume;
  }

module _ {F : Type 0} (zero_rate : F) where
  unfoldable pub push_job :
      Text → Direction → Text → Text → Text → ℕ → Bool → Option OverwritePolicy → Queue F → Queue F
  unfolding job_id
  push_job host direction name remote_path local_path bytes_total is_tree policy q = record {
    jobs =
        q.jobs
        ++ record (default_job zero_rate) {
          id = job_id name q.job_seq;
          direction = direction;
          name = name;
          host_id = host;
          remote_path = remote_path;
          local_path = local_path;
          bytes_done = 0;
          bytes_total = bytes_total;
          state = JobState.waiting;
          is_tree = is_tree;
          overwrite_policy = policy;
        }
          ∷ [];
    job_seq = suc q.job_seq;
  }

  -- The queue afterwards, or the dialog that is opened in place of a change.
  unfoldable pub enqueue :
      (Text → Bool)
      → Option OverwritePolicy
      → OverwritePolicy
      → Text
      → Text
      → Direction
      → Entry
      → Queue F
      → Queue F × Option Conflict
  unfolding push_job child_path asks
  enqueue exists apply_all setting host cwd direction entry q =
      let remote_path = child_path cwd entry.name in
      let local_path = download_path entry.name in
      let policy = effective_policy apply_all setting in
      if asks exists apply_all setting direction entry
      then (q, some (conflict_for direction entry remote_path local_path))
      else (
        push_job host direction entry.name remote_path local_path entry.size_bytes
            (is_dir entry.kind) (job_policy policy) q,
        none,
      )

  -- The conflict dialog was answered: the job with the choice as its policy, which from then on
  -- applies to all where the user said so.
  unfoldable pub submit_conflict :
      Text → Conflict → Option OverwritePolicy → Queue F → Queue F × Option OverwritePolicy
  unfolding push_job
  submit_conflict host d apply_all q = (
    push_job host d.direction d.name d.remote_path d.local_path d.bytes_total d.is_tree
        (some d.choice) q,
    if d.apply_all then some d.choice else apply_all,
  )

  unfoldable pub push_selected : Text → Text → Direction → List Entry → Queue F → Queue F
  unfolding push_job child_path
  push_selected host cwd direction [] q = q
  push_selected host cwd direction (e ∷ es) q = push_selected host cwd direction es (
      push_job host direction e.name (child_path cwd e.name) (download_path e.name) e.size_bytes
        false none q)

  -- The queue afterwards; the selection is cleared.
  unfoldable pub bulk_enqueue :
      Text → Text → List Text → List Entry → Direction → Queue F → Queue F × List Text
  unfolding push_selected
  bulk_enqueue host cwd selection listing direction q =
      (push_selected host cwd direction (selected_files selection listing) q, [])

  unfoldable pub resume_partial : Text → Text → Queue F → Queue F
  unfolding is_resumable mark_resume push_job
  resume_partial host name q =
      if any (is_resumable name) q.jobs
      then record q { jobs = update_first (is_resumable name) mark_resume q.jobs }
      else push_job host up name (b'/' ∷ name) (download_path name) 0 false
          (some OverwritePolicy.resume) q

  -- `file_stem` is that of `std::path::Path`.
  unfoldable pub resume_orphans : (Text → Option Text) → Text → List Text → Queue F → Queue F
  unfolding resume_partial partial_name
  resume_orphans file_stem host [] q = q
  resume_orphans file_stem host (p ∷ ps) q =
      resume_orphans file_stem host ps (resume_partial host (partial_name (file_stem p)) q)

  unfoldable pub inject_failed_job : Text → ℤ → List (Job F) → List (Job F)
  inject_failed_job host now jobs =
      jobs
      ++ record (default_job zero_rate) {
        id = codes "job-dev-failed-" ++ decimal (length jobs);
        direction = up;
        name = codes "dev.injected.conf";
        host_id = host;
        remote_path = codes "/etc/dev.injected.conf";
        local_path = codes "/Downloads/dev.injected.conf";
        bytes_done = 0;
        bytes_total = 1024;
        rate_bytes_per_s = zero_rate;
        eta_seconds = none;
        state = JobState.failed;
        attempt = 1;
        max_attempts = 3;
        errno = some (pos 13);
        message = some (codes "EACCES · injected by dev drawer");
        finished_at = some now;
        verified = none;
      }
        ∷ []
