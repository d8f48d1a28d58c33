-- ===== src/Samples/Rounds.antt =====
-- Rounds of the transfer engine on concrete jobs.
use m_kestrel.Prelude.{
  any, find, text_ne, text_beq, Bool, Table, ℕ, ◌*◌, ◌≤◌, max, ℤ, pos, true, false, not, ◌&&◌, [],
  ◌∷◌, List, none, some, Text, codes, ◌≡◌, refl, All, arith, length, map, filter, text_eq, ok,
  lookup,
}
use m_kestrel.Core.Job.{Job, failed, done, is_running}
use m_kestrel.Transfer.Scheduler.{plan_tick, ids}
use m_kestrel.Ui.Enqueue.Ids.{Distinct}
use m_kestrel.Ui.Engine.{
  EngineFloats, Engine, Inputs, TransferOutcome, schedule, retry_due, host_is_real, runs,
}
use m_kestrel.Ui.Engine.Slots.{count}
use m_kestrel.Ui.Engine.Plan.{applied, elapsed_of, schedule-plan_tick}
use m_kestrel.Ui.Progress.{Clocks, worker_done}
use m_kestrel.Ui.Progress.Demo.{demo_rounds, demo_rounds-Done}
use m_kestrel.Ui.Progress.Ended.{finish_all_failed}
use m_kestrel.Ui.Tick.{tick}
use m_kestrel.Ui.Tick.Running.{tick-Bounded}
use m_kestrel.Ui.Tick.Flags.{HasFlags}
use m_kestrel.Ui.Tick.Workers.{IsServed, tick-Covers}
use m_kestrel.Ui.Tick.Session.{
  Session, SessionReach-Distinct, here, next, round, user_did, worker_ended, queue_of, with_queue,
  with_result,
}
use m_kestrel.Ui.Steps.{bulk_enqueued}
use m_kestrel.Ui.Enqueue.{Queue, bulk_enqueue, push_selected, push_job}
use m_kestrel.Core.Host.{Entry, EntryKind}
use m_kestrel.Core.Job.{up}
use m_kestrel.Samples.{whole_numbers, nas}
use m_kestrel.Samples.Queues.{waiting_job, running_job}

abbrev file_called : Text → Entry
file_called name = record {
  name = name;
  kind = EntryKind.file;
  target = none;
  size_bytes = 1;
  mode = 0;
  uid = 0;
  gid = 0;
  owner_label = [];
  mtime = pos 0;
  is_hidden = false;
  inode = 0;
  items = none;
}

abbrev numbers : EngineFloats
numbers = record {
  floats = whole_numbers;
  mul = λ a b. a * b;
  larger = λ a b. max a b;
  of_u64 = λ n. n;
  to_u64 = λ n. n;
}

abbrev demo_job : Job ℕ
demo_job = record running_job { bytes_total = 10; rate_bytes_per_s = 4 }

abbrev nas_job : Job ℕ
nas_job = record running_job { id = codes "job-n-4"; host_id = codes "nas" }

abbrev failed_job : Job ℕ
failed_job = record waiting_job { id = codes "job-f-3"; state = failed; attempt = 1 }

abbrev jobs : List (Job ℕ)
jobs = waiting_job ∷ failed_job ∷ demo_job ∷ nas_job ∷ []

jobs-Distinct : Distinct (ids jobs)
unfolding text_beq
jobs-Distinct = (
  (text_ne _ _ refl, (text_ne _ _ refl, (text_ne _ _ refl, tt))),
  ((text_ne _ _ refl, (text_ne _ _ refl, tt)), ((text_ne _ _ refl, tt), (tt, tt))),
)

abbrev files : List Entry
files = file_called (codes "a") ∷ file_called (codes "b") ∷ []

abbrev failures : Table ℕ
failures = (codes "job-f-3", 0) ∷ []

abbrev engine : Engine ℕ
engine = record {
  jobs = jobs;
  running_since = [];
  failed_since = failures;
  workers = [];
  prev_bytes = [];
  cancel_flags = [];
  rate_history = [];
}

abbrev inputs : Inputs
inputs = record {
  parallel = 3;
  bandwidth_limit_bytes = 100;
  verify = false;
  offline = false;
  hosts = nas ∷ [];
  now = 20000000000;
  unix_now = pos 20;
}

schedule-plan_tick_example :
    schedule false 3 failures 20000000000 jobs
    ≡ map (applied (plan_tick whole_numbers jobs 3 100 (elapsed_of failures 20000000000))) jobs
schedule-plan_tick_example =
    schedule-plan_tick whole_numbers 3 100 failures 20000000000 jobs jobs-Distinct (omega arith)

tick-Bounded_example :
    (count (tick numbers inputs engine).0.jobs ≤ max 3 (count jobs))
    × (length (tick numbers inputs engine).0.rate_history ≤ 60)
tick-Bounded_example = tick-Bounded numbers inputs engine

-- No worker yet, so none without a flag.
engine-HasFlags : HasFlags engine.workers engine.cancel_flags
unfolding lookup
engine-HasFlags = λ id h. h

tick-Covers_example :
    let after = (tick numbers inputs engine).0 in
    All
      (λ j.
        (is_running j.state && host_is_real inputs.hosts j.host_id) ≡ true
        → IsServed after.workers after.cancel_flags j)
      after.jobs
    × ((id : Text) (flag : Bool)
        → lookup id after.cancel_flags ≡ some flag
        → flag ≡ not (runs id after.jobs))
    × HasFlags after.workers after.cancel_flags
tick-Covers_example = tick-Covers numbers inputs engine engine-HasFlags

abbrev clocks : Clocks ℕ
clocks = record { aggregate = 0; running_since = []; failed_since = [] }

abbrev seconds : List (ℕ × ℕ × ℤ)
seconds =
    (1, 0, pos 0)
    ∷ (1, 0, pos 0)
    ∷ (1, 0, pos 0)
    ∷ (1, 0, pos 0)
    ∷ (1, 0, pos 0)
    ∷ (1, 0, pos 0)
    ∷ (1, 0, pos 0)
    ∷ (1, 0, pos 0)
    ∷ (1, 0, pos 0)
    ∷ (1, 0, pos 0)
    ∷ (1, 0, pos 0)
    ∷ []

demo_rounds-Done_example :
    ((demo_rounds numbers [] false seconds demo_job clocks).state ≡ done)
    × ((demo_rounds numbers [] false seconds demo_job clocks).bytes_done ≡ 10)
unfolding host_is_real find
demo_rounds-Done_example =
    demo_rounds-Done numbers [] false seconds demo_job clocks refl refl refl (omega arith)
      (omega arith) (omega arith)

abbrev outcome : TransferOutcome
outcome = record {
  bytes_done = 0;
  verify_method = none;
  verified = none;
  files_done = 0;
  files_total = 2;
  files_failed = 2;
  notice = none;
}

finish_all_failed_example :
    let (after, since) =
      worker_done (codes "job-n-4") (ok outcome) 5 (pos 5) (nas_job ∷ [], failures) in
    (k : Job ℕ) × (after ≡ k ∷ [])
    × (k.id ≡ codes "job-n-4")
    × (k.state ≡ failed)
    × (k.attempt ≡ 0)
    × (retry_due since 900000000000 k ≡ false)
unfolding lookup text_beq
finish_all_failed_example =
    finish_all_failed outcome 5 900000000000 (pos 5) nas_job [] failures refl (omega arith) refl
      refl (omega arith)

abbrev unused : Session numbers
unused = record { engine = record engine { jobs = [] }; job_seq = 0 }

-- Two files are enqueued, the first starts and its worker ends, and a third is enqueued.
abbrev two_files : Queue ℕ
two_files =
    (bulk_enqueue 0 (codes "nas") (codes "/") (codes "a" ∷ codes "b" ∷ []) files up
      (queue_of numbers unused)).0

abbrev started : Session numbers
started = with_queue numbers unused two_files

abbrev ticked : Session numbers
ticked = record started { engine = (tick numbers inputs started.engine).0 }

abbrev ended : Session numbers
ended = with_result numbers (codes "job-a-0") (ok outcome) 5 (pos 5) ticked

abbrev refilled : Session numbers
refilled =
    with_queue numbers ended
      (bulk_enqueue 0 (codes "nas") (codes "/") (codes "a" ∷ []) files up
        (queue_of numbers ended)).0

SessionReach-Distinct_example : Distinct (ids refilled.engine.jobs)
unfolding bulk_enqueue push_selected push_job filter any text_beq
SessionReach-Distinct_example =
    SessionReach-Distinct numbers unused refilled
      (next
        (next
          (next
            (next here (
              user_did (
                bulk_enqueued (codes "nas") (codes "/") (codes "a" ∷ codes "b" ∷ []) files up
                  (queue_of numbers unused))))
            (round inputs))
          (worker_ended (codes "job-a-0") (ok outcome) 5 (pos 5)))
        (user_did (
          bulk_enqueued (codes "nas") (codes "/") (codes "a" ∷ []) files up
            (queue_of numbers ended))))
      refl (omega arith)
