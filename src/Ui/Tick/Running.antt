-- ===== src/Ui/Tick/Running.antt =====
-- crates/mk-ui/src/store.rs: what a whole round keeps, whatever the workers sent.
use m_kestrel.Prelude.{
  ℕ, ◌-◌, ◌≤◌, max, ℤ, Bool, false, ◌&&◌, List, [], ◌∷◌, ◌++◌, Option, none, some, ◌≡◌, refl, ◌∙◌,
  inl, inr, Bool-cases, arith, Table, lookup, filter, length, length-drop,
}
use m_kestrel.Core.Host.{Host}
use m_kestrel.Core.Job.{Job, is_running}
use m_kestrel.Ui.Engine.{EngineFloats, Engine, Inputs, feed_ring, drained, host_is_real}
use m_kestrel.Ui.Engine.Slots.{count, schedule-count}
use m_kestrel.Ui.Progress.{
  Rates, Clocks, take_progress, set_eta, progress_job, apply_progress, demo_scale, is_demo,
  demo_job, advance_demo,
}
use m_kestrel.Ui.Tick.{drain, update_jobs, spawn, tick}

module _ (ef : EngineFloats) where
  open ef use {floats, mul, larger, of_u64, to_u64}
  open floats use {F, zero, one, add, div, gt}

  take_progress-state :
      (p : Option ℕ) (j : Job F) (r : Rates F) → (take_progress ef p j r).0.state ≡ j.state
  unfolding take_progress
  take_progress-state none j r = refl
  take_progress-state (some b) j r = refl

  set_eta-state : (j : Job F) → (set_eta ef j).state ≡ j.state
  unfolding set_eta
  set_eta-state j = ground arith

  progress_job-state :
      (hosts : List Host) (progress : Table ℕ) (j : Job F) (r : Rates F)
      → (progress_job ef hosts progress j r).0.state ≡ j.state
  unfolding progress_job
  progress_job-state hosts progress j r =
      elim (Bool-cases (is_running j.state && host_is_real hosts j.host_id)) [
        | inl e ↦
            rw (e, progress_job)
              (set_eta-state (take_progress ef (lookup j.id progress) j r).0
                ∙ take_progress-state (lookup j.id progress) j r)
        | inr e ↦ rw (e, progress_job) refl
      ]

  count-progress :
      (hosts : List Host) (progress : Table ℕ) (js : List (Job F)) (r : Rates F)
      → count (apply_progress ef hosts progress js r).0 ≡ count js
  unfolding apply_progress filter
  count-progress hosts progress [] r = refl
  count-progress hosts progress (j ∷ js) r = ground (
    arith,
    progress_job-state hosts progress j r,
    count-progress hosts progress js (progress_job ef hosts progress j r).1,
  )

  -- A demo job that does not run is not started.
  demo_job-rest :
      (hosts : List Host) (scale : F) (verify : Bool) (now : ℕ) (unix_now : ℤ) (j : Job F)
      (c : Clocks F)
      → is_running j.state ≡ false
      → is_running (demo_job ef hosts scale verify now unix_now j c).0.state ≡ false
  unfolding demo_job is_demo
  demo_job-rest hosts scale verify now unix_now j c h = rw (h, demo_job) h

  count-demo :
      (hosts : List Host) (scale : F) (verify : Bool) (now : ℕ) (unix_now : ℤ) (js : List (Job F))
      (c : Clocks F)
      → count (advance_demo ef hosts scale verify now unix_now js c).0 ≤ count js
  unfolding advance_demo filter
  count-demo hosts scale verify now unix_now [] c = omega arith
  count-demo hosts scale verify now unix_now (j ∷ js) c = ground (
    arith,
    demo_job-rest hosts scale verify now unix_now j c,
    count-demo hosts scale verify now unix_now js
        (demo_job ef hosts scale verify now unix_now j c).1,
  )

  feed_ring-length : (rate : F) (ring : List F) → length (feed_ring rate ring) ≤ 60
  unfolding feed_ring
  feed_ring-length rate ring =
      omega (arith, length-drop (length (ring ++ rate ∷ []) - 60) (ring ++ rate ∷ []))

  update_jobs-count :
      (i : Inputs) (progress : Table ℕ) (e : Engine F)
      → count (update_jobs ef i progress e).0.jobs ≤ max (max i.parallel 1) (count e.jobs)
  unfolding update_jobs
  update_jobs-count i progress e =
      let start : Rates F = record { aggregate = zero; prev_bytes = e.prev_bytes } in
      let (jobs, rates) = apply_progress ef i.hosts progress e.jobs start in
      let scale = demo_scale ef i.hosts i.bandwidth_limit_bytes jobs in
      let clocks : Clocks F = record {
        aggregate = rates.aggregate;
        running_since = e.running_since;
        failed_since = e.failed_since;
      } in
      let (moved, clocks') = advance_demo ef i.hosts scale i.verify i.now i.unix_now jobs clocks in
      omega (
        arith,
        schedule-count i.offline (max i.parallel 1) clocks'.failed_since i.now moved,
        count-demo i.hosts scale i.verify i.now i.unix_now jobs clocks,
        count-progress i.hosts progress e.jobs start,
      )

  -- In a round the running jobs never become more than the limit (which is at least one), or than
  -- there were before, and the ring holds at most the rates of the last minute.
  pub tick-Bounded :
      (i : Inputs) (e : Engine F)
      → (count (tick ef i e).0.jobs ≤ max (max i.parallel 1) (count e.jobs))
        × (length (tick ef i e).0.rate_history ≤ 60)
  unfolding tick drain spawn
  tick-Bounded i e = (
    update_jobs-count i (drained e.workers) (drain ef e),
    feed_ring-length _
        (spawn ef i.hosts (update_jobs ef i (drained e.workers) (drain ef e)).0).0.rate_history,
  )
