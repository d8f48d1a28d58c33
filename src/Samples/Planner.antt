-- ===== src/Samples/Planner.antt =====
-- The transfer planner on a concrete queue.
use m_kestrel.Prelude.{
  ℕ, ◌+◌, ◌-◌, ◌≤◌, min, max, [], ◌∷◌, ◌++◌, List, none, Text, codes, ◌≡◌, length,
}
use m_kestrel.Core.Job.{Job, default_job, failed}
use m_kestrel.Transfer.Scheduler.{plan_tick, running_jobs, waiting_jobs, ids}
use m_kestrel.Transfer.Scheduler.Slots.{plan_tick-promote}
use m_kestrel.Samples.{whole_numbers}

abbrev queue : List (Job ℕ)
queue =
    record (default_job 0) { id = codes "a" }
    ∷ record (default_job 0) { id = codes "b"; state = failed }
    ∷ []

plan_tick-promote_example :
    let promote = (plan_tick whole_numbers queue 2 0 (λ id. none)).promote in
    let running = length (running_jobs queue) in
    ((left : List Text) × (promote ++ left ≡ ids (waiting_jobs queue)))
    × (length promote ≡ min (2 - running) (length (waiting_jobs queue)))
    × (running + length promote ≤ max 2 running)
plan_tick-promote_example = plan_tick-promote whole_numbers queue 2 0 (λ id. none)
