-- ===== src/Ui/Tick.antt =====
-- crates/mk-ui/src/store.rs: a whole round of the transfer engine, and its step relation.
pub mod Running
pub mod Flags
pub mod Workers
pub mod Session
use m_kestrel.Prelude.{
  ℕ, ◌+◌, ◌-◌, ◌*◌, max, ℤ, Bool, true, false, List, [], ◌∷◌, ◌++◌, map, Option, Text, Table,
  Result,
}
use m_kestrel.Core.Host.{Host}
use m_kestrel.Core.Job.{Job}
use m_kestrel.Transfer.Scheduler.{Floats}
use m_kestrel.Ui.Engine.{
  EngineFloats, Engine, Inputs, Channel, TransferOutcome, drained, finished_workers, emptied,
  erase_all, schedule, schedule_since, set_flags, to_spawn, spawn_workers, spawn_flags, feed_ring,
}
use m_kestrel.Ui.Progress.{Rates, Clocks, apply_progress, demo_scale, advance_demo, worker_done}

module _ (ef : EngineFloats) where
  open ef use {floats, mul, larger, of_u64, to_u64}
  open floats use {F, zero, one, add, div, gt}

  -- The drain: the ended workers are dropped.
  unfoldable pub drain : Engine F → Engine F
  unfolding finished_workers emptied erase_all
  drain e =
      let gone = finished_workers e.workers in
      record e {
        workers = erase_all gone (emptied e.workers);
        prev_bytes = erase_all gone e.prev_bytes;
        cancel_flags = erase_all gone e.cancel_flags;
      }

  -- The jobs: progress, demo advancement, promotion and retry, and the rate of the round.
  unfoldable pub update_jobs : Inputs → Table ℕ → Engine F → Engine F × F
  unfolding apply_progress demo_scale advance_demo schedule schedule_since
  update_jobs i progress e =
      let (jobs, rates) =
        apply_progress ef i.hosts progress e.jobs
          (record { aggregate = zero; prev_bytes = e.prev_bytes }) in
      let scale = demo_scale ef i.hosts i.bandwidth_limit_bytes jobs in
      let (moved, clocks) = advance_demo ef i.hosts scale i.verify i.now i.unix_now jobs (record {
        aggregate = rates.aggregate;
        running_since = e.running_since;
        failed_since = e.failed_since;
      }) in
      (
        record e {
          jobs = schedule i.offline (max i.parallel 1) clocks.failed_since i.now moved;
          running_since =
              schedule_since i.offline (max i.parallel 1) clocks.failed_since i.now moved
                clocks.running_since;
          failed_since = clocks.failed_since;
          prev_bytes = rates.prev_bytes;
        },
        clocks.aggregate,
      )

  -- The flags of the live workers, and a worker for each running job of a real host without one.
  unfoldable pub spawn : List Host → Engine F → Engine F × List (Job F)
  unfolding set_flags to_spawn spawn_workers spawn_flags
  spawn hosts e =
      let new = to_spawn hosts e.workers e.jobs in
      (
        record e {
          workers = spawn_workers new e.workers;
          cancel_flags = spawn_flags new (set_flags e.jobs e.cancel_flags);
        },
        new,
      )

  -- The engine afterwards, with the jobs for which a worker was spawned.
  unfoldable pub tick : Inputs → Engine F → Engine F × List (Job F)
  unfolding drained drain update_jobs spawn feed_ring
  tick i e =
      let progress = drained e.workers in
      let (updated, aggregate) = update_jobs i progress (drain e) in
      let (spawned, new) = spawn i.hosts updated in
      (
        record spawned {
          rate_history = feed_ring (div aggregate (of_u64 (1024 * 1024))) spawned.rate_history;
        },
        new,
      )
