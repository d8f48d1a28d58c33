-- ===== src/Core/Persistence.antt =====
-- crates/mk-core/src/persistence.rs: the versioned store. `F` is the type of floats. The file
-- system is the content of each path; serde_json is a pair of functions that the section takes.
pub mod Strip
pub mod Files
use m_kestrel.Prelude.{
  ℕ, Bool, true, false, not, List, [], ◌∷◌, ◌++◌, map, Option, none, some, Text, codes,
  if◌then◌else◌, ◌==◌, eqb, text_eq, any, filter, head?,
}
use m_kestrel.Core.Host.{Host}
use m_kestrel.Core.Job.{Job, JobState, is_running}
use m_kestrel.Core.Settings.{Settings}
use m_kestrel.Core.Credentials.{Credentials}
use m_kestrel.Core.Recent.{RecentPath}
use m_kestrel.Core.Bookmark.{Bookmark}

-- `SCHEMA_VERSION`.
abbrev pub schema_version : ℕ
schema_version = 1

pub record StoredState (F : Type 0) : Type 0 where
  pub hosts : List Host
  pub settings : Settings
  pub credentials : Credentials
  pub jobs : List (Job F)
  pub selected_host_id : Text
  pub cwd : Text
  pub recents : List RecentPath
  pub bookmarks : List Bookmark

pub record StoredEnvelope (F : Type 0) : Type 0 where
  pub version : ℕ
  pub state : StoredState F

pub data LoadError : Type 0 where
  not_found : LoadError
  corrupt : Text → LoadError

pub data Loaded (F : Type 0) : Type 0 where
  ok : StoredState F → Loaded F
  err : LoadError → Loaded F

unfoldable pub real_ids : List Host → List Text
real_ids hosts = map (λ h. h.id) (filter (λ h. h.is_real) hosts)

-- `real.contains(&id)`.
abbrev pub among : List Text → Text → Bool
among ids id = any (λ i. i == id) ids

abbrev pub first_or : (Host → Text) → List Host → Text
first_or f hosts = elim (head? hosts) [ none ↦ [] | some h ↦ f h ]

module _ {F : Type 0} where
  unfoldable pub sanitize_job : Job F → Job F
  sanitize_job job = if is_running job.state then record job { state = JobState.waiting } else job

  unfoldable pub sanitize_jobs : StoredState F → StoredState F
  unfolding sanitize_job
  sanitize_jobs s = record s { jobs = map sanitize_job s.jobs }

  unfoldable pub select_first : StoredState F → StoredState F
  select_first s =
      if not (any (λ h. h.id == s.selected_host_id) s.hosts)
      then record s {
        selected_host_id = first_or (λ h. h.id) s.hosts;
        cwd = first_or (λ h. h.initial_path) s.hosts;
      }
      else s

  -- The four `retain` calls.
  unfoldable pub drop_fixtures : StoredState F → StoredState F
  unfolding real_ids
  drop_fixtures s =
      let real = real_ids s.hosts in
      record s {
        hosts = filter (λ h. h.is_real) s.hosts;
        jobs = filter (λ j. among real j.host_id) s.jobs;
        recents = filter (λ r. among real r.host_id) s.recents;
        bookmarks = filter (λ b. among real b.host_id) s.bookmarks;
      }

  unfoldable pub strip_fixtures : StoredState F → StoredState F
  unfolding drop_fixtures select_first sanitize_jobs
  strip_fixtures s = sanitize_jobs (select_first (drop_fixtures s))

abbrev pub Bytes : Type 0
Bytes = List ℕ

abbrev pub Fs : Type 0
Fs = Text → Option Bytes

-- What one call of `std::fs::write` does to its file: it fails with any content left behind.
pub data WriteOutcome : Type 0 where
  written : WriteOutcome
  write_failed : Option Bytes → WriteOutcome

unfoldable pub put : Fs → Text → Option Bytes → Fs
put fs path content q = if q == path then content else fs q

-- `std::fs::rename`: the result, and the file system after it. `works` is the environment's.
unfoldable pub rename : Bool → Fs → Text → Text → Bool × Fs
unfolding put
rename works fs from to = elim (fs from) [
  | none ↦ (false, fs)
  | some b ↦ if works then (true, put (put fs from none) to (some b)) else (false, fs)
]

unfoldable pub quarantine : Bool → Fs → Text → LoadError × Fs
unfolding rename
quarantine works fs path =
    let quarantined = path ++ codes ".corrupt" in
    (corrupt quarantined, (rename works fs path quarantined).1)

module _ {F : Type 0} (decode : Bytes → Option (StoredEnvelope F)) where
  -- `readable` and `works` say whether the environment lets the read and the rename succeed.
  unfoldable pub load : Bool → Bool → Fs → Text → Loaded F × Fs
  unfolding quarantine
  load readable works fs path = elim (if readable then fs path else none) [
    | none ↦ (err not_found, fs)
    | some bytes ↦ elim (decode bytes) [
      | none ↦ (err (quarantine works fs path).0, (quarantine works fs path).1)
      | some envelope ↦
          if not (eqb envelope.version schema_version)
          then (err (quarantine works fs path).0, (quarantine works fs path).1)
          else (ok envelope.state, fs)
    ]
  ]

module _ {F : Type 0} (encode : StoredEnvelope F → Option Bytes) where
  -- The result is true for `Ok(())`.
  unfoldable pub save : WriteOutcome → Bool → Fs → Text → StoredState F → Bool × Fs
  unfolding put rename
  save outcome works fs path state =
      let tmp = path ++ codes ".tmp" in
      elim (encode (record { version = schema_version; state = state })) [
        | none ↦ (false, fs)
        | some json ↦ elim outcome [
          | written ↦ rename works (put fs tmp (some json)) tmp path
          | write_failed torn ↦ (false, put fs tmp torn)
        ]
      ]
