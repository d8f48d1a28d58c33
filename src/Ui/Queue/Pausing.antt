-- ===== src/Ui/Queue/Pausing.antt =====
-- crates/mk-ui/src/store.rs: pausing all jobs and going offline, and back.
use m_kestrel.Prelude.{
  ◌+◌, true, false, List, [], ◌∷◌, map, ◌≡◌, refl, ap₂, inl, inr, Bool-cases, arith, any, filter,
  All, if◌then◌else◌,
}
use m_kestrel.Core.Host.{Host}
use m_kestrel.Core.Job.{
  Job, JobState, is_running, is_paused, running, waiting, paused, failed, done,
}
use m_kestrel.Ui.Queue.{pause_running, resume_paused, toggle_pause_all, set_offline, count_of}

module _ {F : Type 0} where
  pause_job_back :
      (j : Job F) (s : JobState)
      → j.state ≡ s
      → is_paused s ≡ false
      → (resume_paused (pause_running j) ≡ j) × (resume_paused j ≡ j)
  unfolding pause_running resume_paused
  pause_job_back j running e h = ground arith
  pause_job_back j waiting e h = ground arith
  pause_job_back j paused e h = cc
  pause_job_back j failed e h = ground arith
  pause_job_back j done e h = ground arith

  pub pause-back :
      (jobs : List (Job F))
      → All (λ j. is_paused j.state ≡ false) jobs
      → (map resume_paused (map pause_running jobs) ≡ jobs) × (map resume_paused jobs ≡ jobs)
  pause-back [] h = (refl, refl)
  pause-back (j ∷ jobs) h =
      let one = pause_job_back j j.state refl h.0 in
      let rest = pause-back jobs h.1 in (ap₂ ◌∷◌ one.0 rest.0, ap₂ ◌∷◌ one.1 rest.1)

  pause_stops :
      (j : Job F) (s : JobState) → j.state ≡ s → is_running (pause_running j).state ≡ false
  unfolding pause_running
  pause_stops j s e = ground arith

  pub any-running-pause :
      (jobs : List (Job F)) → any (λ j. is_running j.state) (map pause_running jobs) ≡ false
  unfolding any
  any-running-pause [] = refl
  any-running-pause (j ∷ jobs) = ground (arith, pause_stops j j.state refl, any-running-pause jobs)

  resumed_counts :
      (j : Job F) (s : JobState)
      → j.state ≡ s
      → (is_paused (resume_paused (pause_running j)).state ≡ false)
        × (is_running (resume_paused (pause_running j)).state
            ≡ (if is_paused j.state then true else is_running j.state))
  unfolding pause_running resume_paused
  resumed_counts j running e = ground arith
  resumed_counts j waiting e = ground arith
  resumed_counts j paused e = ground arith
  resumed_counts j failed e = ground arith
  resumed_counts j done e = ground arith

  counts-resume-pause :
      (jobs : List (Job F))
      → (count_of is_paused (map resume_paused (map pause_running jobs)) ≡ 0)
        × (count_of is_running (map resume_paused (map pause_running jobs))
            ≡ count_of is_running jobs + count_of is_paused jobs)
  unfolding filter
  counts-resume-pause [] = (refl, omega arith)
  counts-resume-pause (j ∷ jobs) =
      ground (arith, resumed_counts j j.state refl, counts-resume-pause jobs)

  -- Pausing all jobs twice changes nothing, if no job was paused before.
  pub toggle_pause_all_twice :
      (jobs : List (Job F))
      → All (λ j. is_paused j.state ≡ false) jobs
      → toggle_pause_all (toggle_pause_all jobs) ≡ jobs
  unfolding toggle_pause_all
  toggle_pause_all_twice jobs h = elim (Bool-cases (any (λ j. is_running j.state) jobs)) [
    | inl e ↦ rw (e, toggle_pause_all, any-running-pause jobs) (pause-back jobs h).0
    | inr e ↦ rw (e, toggle_pause_all, (pause-back jobs h).1, e) (pause-back jobs h).1
  ]

  -- Going offline and online again leaves no job paused: every job that ran runs again, and so does
  -- every job that the user had paused, however many may run at once.
  pub set_offline_resumes :
      (hosts : List Host) (jobs : List (Job F))
      → let after = (set_offline false (set_offline true (hosts, jobs))).1 in
        (count_of is_paused after ≡ 0)
        × (count_of is_running after ≡ count_of is_running jobs + count_of is_paused jobs)
  unfolding set_offline
  set_offline_resumes hosts jobs = counts-resume-pause jobs
