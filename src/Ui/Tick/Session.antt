-- ===== src/Ui/Tick/Session.antt =====
-- crates/mk-ui/src/store.rs: the queue in use: the user's operations, the rounds of the engine and
-- the ends of workers, in any order.
use m_kestrel.Prelude.{
  max, ℕ, ◌≤◌, ℤ, Bool, ◌&&◌, List, [], ◌∷◌, Option, none, some, ◌≡◌, refl, ap₂, ◌∙◌, arith, Text,
  Table, lookup, u64_bound, Result, update_first, ◌==◌, text_eq,
}
use m_kestrel.Core.Host.{Host}
use m_kestrel.Core.Job.{Job, is_running}
use m_kestrel.Transfer.Scheduler.{ids}
use m_kestrel.Ui.Enqueue.{Queue}
use m_kestrel.Ui.Enqueue.Ids.{Distinct, ids-map, ids-update_first}
use m_kestrel.Ui.Steps.{UserStep}
use m_kestrel.Ui.Steps.Numbering.{Numbers, UserStep-Numbers, same_ids-Numbers}
use m_kestrel.Ui.Engine.{
  Channel, EngineFloats, Engine, Inputs, TransferOutcome, start, start_all, retry, requeue,
  schedule, waiting_ids, drained,
}
use m_kestrel.Ui.Progress.{
  Rates, Clocks, take_progress, set_eta, progress_job, apply_progress, demo_scale, is_demo,
  move_bytes, fail_again, demo_job, advance_demo, finish, worker_done,
}
use m_kestrel.Ui.Progress.Ended.{finish-id}
use m_kestrel.Ui.Tick.{drain, update_jobs, spawn, tick}

module _ {F : Type 0} where
  start_all-ids : (is : List Text) (js : List (Job F)) → ids (start_all is js) ≡ ids js
  unfolding start_all start
  start_all-ids [] js = refl
  start_all-ids (i ∷ is) js =
      start_all-ids is (update_first (λ j. j.id == i) start js)
      ∙ ids-update_first (λ j. j.id == i) start js (λ j. refl)

  retry-id : (since : Table ℕ) (now : ℕ) (j : Job F) → (retry since now j).id ≡ j.id
  unfolding requeue
  retry-id since now j = ground arith

  schedule-ids :
      (offline : Bool) (parallel : ℕ) (since : Table ℕ) (now : ℕ) (js : List (Job F))
      → ids (schedule offline parallel since now js) ≡ ids js
  unfolding schedule
  schedule-ids offline parallel since now js =
      ids-map (retry since now) (start_all (waiting_ids offline parallel js) js)
        (retry-id since now)
      ∙ start_all-ids (waiting_ids offline parallel js) js

module _ (ef : EngineFloats) where
  open ef use {floats, mul, larger, of_u64, to_u64}
  open floats use {F, zero, one, add, div, gt}

  progress_job-id :
      (hosts : List Host) (progress : Table ℕ) (j : Job F) (r : Rates F) (p : Option ℕ)
      → p ≡ lookup j.id progress
      → (progress_job ef hosts progress j r).0.id ≡ j.id
  unfolding progress_job take_progress set_eta
  progress_job-id hosts progress j r none e = ground (arith, e)
  progress_job-id hosts progress j r (some b) e = ground (arith, e)

  progress-ids :
      (hosts : List Host) (progress : Table ℕ) (js : List (Job F)) (r : Rates F)
      → ids (apply_progress ef hosts progress js r).0 ≡ ids js
  unfolding apply_progress
  progress-ids hosts progress [] r = refl
  progress-ids hosts progress (j ∷ js) r =
      ap₂ ◌∷◌ (progress_job-id hosts progress j r (lookup j.id progress) refl)
        (progress-ids hosts progress js (progress_job ef hosts progress j r).1)

  demo_job-id :
      (hosts : List Host) (scale : F) (verify : Bool) (now : ℕ) (unix_now : ℤ) (j : Job F)
      (c : Clocks F)
      → (demo_job ef hosts scale verify now unix_now j c).0.id ≡ j.id
  unfolding demo_job is_demo move_bytes fail_again
  demo_job-id hosts scale verify now unix_now j c = ground arith

  demo-ids :
      (hosts : List Host) (scale : F) (verify : Bool) (now : ℕ) (unix_now : ℤ) (js : List (Job F))
      (c : Clocks F)
      → ids (advance_demo ef hosts scale verify now unix_now js c).0 ≡ ids js
  unfolding advance_demo
  demo-ids hosts scale verify now unix_now [] c = refl
  demo-ids hosts scale verify now unix_now (j ∷ js) c =
      ap₂ ◌∷◌ (demo_job-id hosts scale verify now unix_now j c) (
        demo-ids hosts scale verify now unix_now js
          (demo_job ef hosts scale verify now unix_now j c).1)

  tick-ids : (i : Inputs) (e : Engine F) → ids (tick ef i e).0.jobs ≡ ids e.jobs
  unfolding tick drain update_jobs spawn
  tick-ids i e =
      let start : Rates F = record { aggregate = zero; prev_bytes = (drain ef e).prev_bytes } in
      let progress = drained e.workers in
      let (jobs, rates) = apply_progress ef i.hosts progress e.jobs start in
      let scale = demo_scale ef i.hosts i.bandwidth_limit_bytes jobs in
      let clocks : Clocks F = record {
        aggregate = rates.aggregate;
        running_since = e.running_since;
        failed_since = e.failed_since;
      } in
      let (moved, clocks') = advance_demo ef i.hosts scale i.verify i.now i.unix_now jobs clocks in
      schedule-ids i.offline (max i.parallel 1) clocks'.failed_since i.now moved
      ∙ demo-ids i.hosts scale i.verify i.now i.unix_now jobs clocks
      ∙ progress-ids i.hosts progress e.jobs start

  pub record Session : Type 0 where
    pub engine : Engine F
    pub job_seq : ℕ

  abbrev pub queue_of : Session → Queue F
  queue_of s = record { jobs = s.engine.jobs; job_seq = s.job_seq }

  abbrev pub with_queue : Session → Queue F → Session
  with_queue s q = record { engine = record s.engine { jobs = q.jobs }; job_seq = q.job_seq }

  abbrev pub with_result : Text → Result TransferOutcome Text → ℕ → ℤ → Session → Session
  with_result id result now unix_now s =
      let (jobs, failed_since) =
        worker_done id result now unix_now (s.engine.jobs, s.engine.failed_since) in
      record s { engine = record s.engine { jobs = jobs; failed_since = failed_since } }

  pub data SessionStep (s : Session) : Session → Type 0 where
    user_did : {q : Queue F} → UserStep zero (queue_of s) q → SessionStep s (with_queue s q)
    round : (i : Inputs) → SessionStep s (record s { engine = (tick ef i s.engine).0 })
    worker_sent :
        (workers : Table Channel)
        → SessionStep s (record s { engine = record s.engine { workers = workers } })
    worker_ended :
        (id : Text) (result : Result TransferOutcome Text) (now : ℕ) (unix_now : ℤ)
        → SessionStep s (with_result id result now unix_now s)

  pub data SessionReach (start : Session) : Session → Type 0 where
    here : SessionReach start start
    next : {s t : Session} → SessionReach start s → SessionStep s t → SessionReach start t

  ended-ids :
      (id : Text) (result : Result TransferOutcome Text) (now : ℕ) (unix_now : ℤ)
      (jobs : List (Job F)) (since : Table ℕ)
      → ids (worker_done id result now unix_now (jobs, since)).0 ≡ ids jobs
  unfolding worker_done
  ended-ids id result now unix_now jobs since =
      ids-update_first (λ j. j.id == id && is_running j.state) (finish result unix_now) jobs
        (finish-id result unix_now)

  Step-Numbers : {s t : Session} → SessionStep s t → Numbers (queue_of s) → Numbers (queue_of t)
  Step-Numbers {s} (user_did st) h = UserStep-Numbers zero st h
  Step-Numbers {s} (round i) h =
      same_ids-Numbers (queue_of s) (tick ef i s.engine).0.jobs (tick-ids i s.engine) h
  Step-Numbers {s} (worker_sent workers) h = h
  Step-Numbers {s} (worker_ended id result now unix_now) h =
      same_ids-Numbers (queue_of s) _
        (ended-ids id result now unix_now s.engine.jobs s.engine.failed_since) h

  Reach-Numbers : {s t : Session} → SessionReach s t → Numbers (queue_of s) → Numbers (queue_of t)
  Reach-Numbers here h = h
  Reach-Numbers (next r st) h = Step-Numbers st (Reach-Numbers r h)

  -- From an empty queue on, while at most 2^64 jobs were made and the developer drawer injects none:
  -- whatever the user does with the queue, and however the rounds of the engine and the ends of
  -- workers fall between, no two jobs have the same id.
  pub SessionReach-Distinct :
      (s t : Session)
      → SessionReach s t
      → s.engine.jobs ≡ []
      → t.job_seq ≤ u64_bound
      → Distinct (ids t.engine.jobs)
  SessionReach-Distinct s t r empty b =
      (Reach-Numbers r (λ _. record { numbered = rw empty tt; distinct = rw empty tt }) b).distinct
