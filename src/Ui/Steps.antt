-- ===== src/Ui/Steps.antt =====
-- crates/mk-ui/src/store.rs: the user's operations on the queue as a step relation.
pub mod Numbering
pub mod Finished
pub mod Restart
use m_kestrel.Prelude.{ℕ, ℤ, Bool, List, Option, Text}
use m_kestrel.Core.Host.{Host, Entry}
use m_kestrel.Core.Job.{Job, Direction}
use m_kestrel.Core.Settings.{OverwritePolicy}
use m_kestrel.Ui.Queue.{
  toggle_pause_all, pause_job, resume_job, cancel_job, skip_job, retry_job, clear_done, set_offline,
}
use m_kestrel.Ui.Enqueue.{Queue, Conflict, enqueue, submit_conflict, bulk_enqueue, resume_orphans}

module _ {F : Type 0} (zero_rate : F) where
  -- One call of an operation, with any arguments and any answer of the file system: all that the user
  -- has for the queue. The failed job that the developer drawer injects is left out.
  pub data UserStep : Queue F → Queue F → Type 0 where
    enqueued :
        (exists : Text → Bool) (apply_all : Option OverwritePolicy) (setting : OverwritePolicy)
        (host cwd : Text) (direction : Direction) (entry : Entry) (q : Queue F)
        → UserStep q (enqueue zero_rate exists apply_all setting host cwd direction entry q).0
    conflict_submitted :
        (host : Text) (d : Conflict) (apply_all : Option OverwritePolicy) (q : Queue F)
        → UserStep q (submit_conflict zero_rate host d apply_all q).0
    bulk_enqueued :
        (host cwd : Text) (selection : List Text) (listing : List Entry) (direction : Direction)
        (q : Queue F)
        → UserStep q (bulk_enqueue zero_rate host cwd selection listing direction q).0
    orphans_resumed :
        (file_stem : Text → Option Text) (host : Text) (paths : List Text) (q : Queue F)
        → UserStep q (resume_orphans zero_rate file_stem host paths q)
    all_toggled : (q : Queue F) → UserStep q (record q { jobs = toggle_pause_all q.jobs })
    job_paused : (id : Text) (q : Queue F) → UserStep q (record q { jobs = pause_job id q.jobs })
    job_resumed :
        (id : Text) (q : Queue F) → UserStep q (record q { jobs = resume_job zero_rate id q.jobs })
    job_cancelled :
        (id : Text) (q : Queue F) → UserStep q (record q { jobs = cancel_job id q.jobs })
    job_skipped : (id : Text) (q : Queue F) → UserStep q (record q { jobs = skip_job id q.jobs })
    job_retried :
        (id : Text) (q : Queue F) → UserStep q (record q { jobs = retry_job zero_rate id q.jobs })
    done_cleared : (q : Queue F) → UserStep q (record q { jobs = clear_done q.jobs })
    went_offline :
        (offline : Bool) (hosts : List Host) (q : Queue F)
        → UserStep q (record q { jobs = (set_offline offline (hosts, q.jobs)).1 })
