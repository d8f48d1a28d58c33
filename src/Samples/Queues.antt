-- ===== src/Samples/Queues.antt =====
-- The transfer queue and its engine on concrete jobs.
use m_kestrel.Prelude.{
  decimal, Option, ℕ, ◌+◌, true, false, [], ◌∷◌, none, some, Text, codes, ◌≡◌, refl,
}
use m_kestrel.Core.Job.{is_running, is_paused, Job, default_job, running, done, up}
use m_kestrel.Ui.Enqueue.{Queue, push_job, job_id}
use m_kestrel.Transfer.Scheduler.{ids}
use m_kestrel.Ui.Enqueue.Ids.{Distinct}
use m_kestrel.Ui.Queue.{cancel_job, pause_job, set_offline, count_of}
use m_kestrel.Ui.Queue.Pausing.{set_offline_resumes}
use m_kestrel.Ui.Steps.{job_paused}
use m_kestrel.Ui.Steps.Finished.{finished, UserStep-finished}
use m_kestrel.Ui.Steps.Restart.{push_job-restart}

abbrev pub waiting_job : Job ℕ
waiting_job = record (default_job 0) {
  id = codes "job-a-0";
  name = codes "a";
  local_path = codes "/Downloads/a";
}

abbrev pub running_job : Job ℕ
running_job = record (default_job 0) { id = codes "job-b-1"; name = codes "b"; state = running }

abbrev pub done_job : Job ℕ
done_job = record (default_job 0) { id = codes "job-c-2"; state = done }

abbrev three : Queue ℕ
three = record { jobs = waiting_job ∷ running_job ∷ done_job ∷ []; job_seq = 3 }

abbrev stem_a : Text → Option Text
stem_a path = some (codes "a.mkpart")

set_offline_resumes_example :
    let after = (set_offline false (set_offline true ([], three.jobs))).1 in
    (count_of is_paused after ≡ 0)
    × (count_of is_running after ≡ count_of is_running three.jobs + count_of is_paused three.jobs)
set_offline_resumes_example = set_offline_resumes [] three.jobs

UserStep-finished_example : finished (pause_job (codes "job-b-1") three.jobs) ≡ finished three.jobs
UserStep-finished_example = UserStep-finished 0 (job_paused (codes "job-b-1") three) (λ h. h)

push_job-restart_example :
    let restarted : Queue ℕ = record { jobs = waiting_job ∷ []; job_seq = 0 } in
    let jobs =
      (push_job 0
        (codes "h")
        up
        (codes "a")
        (codes "/a")
        (codes "/Downloads/a")
        9
        false
        none
        restarted).jobs in
    (¬ Distinct (ids jobs))
    × (cancel_job (job_id (codes "a") 0) jobs ≡ cancel_job (job_id (codes "a") 0) [])
unfolding job_id decimal
push_job-restart_example =
    push_job-restart 0 (codes "h") up (codes "a") (codes "/a") (codes "/Downloads/a") 9 0 false none
      waiting_job [] refl
