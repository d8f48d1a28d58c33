-- ===== src/Ui/Steps/Numbering.antt =====
-- crates/mk-ui/src/store.rs: within one run of the program every job has an id of its own; after a
-- restart the numbers start again.
use m_kestrel.Prelude.{
  update_first, ℕ, ◌≤◌, Bool, true, false, List, [], ◌∷◌, Option, none, some, Text, ◌≡◌, refl, inl,
  inr, Bool-cases, arith, any, filter, u64_bound, text_eq,
}
use m_kestrel.Core.Host.{Host, Entry}
use m_kestrel.Core.Job.{is_running, Job, Direction, up}
use m_kestrel.Core.Settings.{OverwritePolicy}
use m_kestrel.Transfer.Scheduler.{ids}
use m_kestrel.Ui.Queue.{
  pause_running, resume_paused, restart_paused, reset_job, toggle_pause_all, pause_job, resume_job,
  cancel_job, retry_job, clear_done, set_offline,
}
use m_kestrel.Ui.Enqueue.{
  selected_files, asks, Queue, push_job, push_selected, submit_conflict, enqueue, bulk_enqueue,
  resume_orphans, resume_partial, partial_name, is_resumable, mark_resume, child_path,
  download_path, job_policy, effective_policy, is_dir,
}
use m_kestrel.Ui.Enqueue.Ids.{
  IsNumberedQueue, Distinct-filter, Numbered-filter, ids-map, ids-update_first, push_job-IsNumbered,
}
use m_kestrel.Ui.Steps.{
  UserStep, enqueued, bulk_enqueued, orphans_resumed, all_toggled, job_paused, job_resumed,
  job_cancelled, job_skipped, conflict_submitted, job_retried, done_cleared, went_offline,
}

module _ {F : Type 0} where
  -- Numbers are u64: the claim is for queues whose counter has not wrapped.
  abbrev pub Numbers : Queue F → Type 0
  Numbers q = q.job_seq ≤ u64_bound → IsNumberedQueue q

  filter-Numbers :
      (p : Job F → Bool) (q : Queue F) → Numbers q → Numbers (record q { jobs = filter p q.jobs })
  filter-Numbers p q h b = record {
    numbered = Numbered-filter q.job_seq p q.jobs (h b).numbered;
    distinct = Distinct-filter p q.jobs (h b).distinct;
  }

  pub same_ids-Numbers :
      (q : Queue F) (js : List (Job F))
      → ids js ≡ ids q.jobs
      → Numbers q
      → Numbers (record q { jobs = js })
  same_ids-Numbers q js e h b = record {
    numbered = rw e (h b).numbered;
    distinct = rw e (h b).distinct;
  }

  -- The changes of one job keep its id.
  pause_running-id : (j : Job F) → (pause_running j).id ≡ j.id
  unfolding pause_running
  pause_running-id j = ground arith

  resume_paused-id : (j : Job F) → (resume_paused j).id ≡ j.id
  unfolding resume_paused
  resume_paused-id j = ground arith

  restart_paused-id : (zero_rate : F) (j : Job F) → (restart_paused zero_rate j).id ≡ j.id
  unfolding restart_paused
  restart_paused-id zero_rate j = ground arith

  reset_job-id : (zero_rate : F) (j : Job F) → (reset_job zero_rate j).id ≡ j.id
  unfolding reset_job
  reset_job-id zero_rate j = refl

  mark_resume-id : (j : Job F) → (mark_resume j).id ≡ j.id
  unfolding mark_resume
  mark_resume-id j = refl

  module _ (zero_rate : F) where
    push_job-Numbers :
        (host : Text) (direction : Direction) (name remote_path local_path : Text) (size : ℕ)
        (is_tree : Bool) (policy : Option OverwritePolicy) (q : Queue F)
        → Numbers q
        → Numbers
            (push_job zero_rate host direction name remote_path local_path size is_tree policy q)
    unfolding push_job
    push_job-Numbers host direction name remote_path local_path size is_tree policy q h b =
        push_job-IsNumbered zero_rate host direction name remote_path local_path size is_tree policy
          q b (h (omega arith))

    push_selected-Numbers :
        (host cwd : Text) (direction : Direction) (es : List Entry) (q : Queue F)
        → Numbers q
        → Numbers (push_selected zero_rate host cwd direction es q)
    unfolding push_selected
    push_selected-Numbers host cwd direction [] q h = h
    push_selected-Numbers host cwd direction (e ∷ es) q h =
        push_selected-Numbers host cwd direction es _ (
          push_job-Numbers host direction e.name (child_path cwd e.name) (download_path e.name)
            e.size_bytes false none q h)

    enqueue-Numbers :
        (exists : Text → Bool) (apply_all : Option OverwritePolicy) (setting : OverwritePolicy)
        (host cwd : Text) (direction : Direction) (entry : Entry) (q : Queue F)
        → Numbers q
        → Numbers (enqueue zero_rate exists apply_all setting host cwd direction entry q).0
    unfolding enqueue
    enqueue-Numbers exists apply_all setting host cwd direction entry q h =
        elim (Bool-cases (asks exists apply_all setting direction entry)) [
          | inl e ↦ rw (e, enqueue) h
          | inr e ↦
              rw (e, enqueue)
                (push_job-Numbers host direction entry.name (child_path cwd entry.name)
                  (download_path entry.name) entry.size_bytes (is_dir entry.kind)
                  (job_policy (effective_policy apply_all setting)) q h)
        ]

    resume_partial-Numbers :
        (host name : Text) (q : Queue F)
        → Numbers q
        → Numbers (resume_partial zero_rate host name q)
    unfolding resume_partial
    resume_partial-Numbers host name q h = elim (Bool-cases (any (is_resumable name) q.jobs)) [
      | inl e ↦
          rw (e, resume_partial)
            (same_ids-Numbers q (update_first (is_resumable name) mark_resume q.jobs)
              (ids-update_first (is_resumable name) mark_resume q.jobs mark_resume-id) h)
      | inr e ↦
          rw (e, resume_partial)
            (push_job-Numbers host up name (b'/' ∷ name) (download_path name) 0 false
              (some OverwritePolicy.resume) q h)
    ]

    resume_orphans-Numbers :
        (file_stem : Text → Option Text) (host : Text) (paths : List Text) (q : Queue F)
        → Numbers q
        → Numbers (resume_orphans zero_rate file_stem host paths q)
    unfolding resume_orphans
    resume_orphans-Numbers file_stem host [] q h = h
    resume_orphans-Numbers file_stem host (p ∷ ps) q h =
        resume_orphans-Numbers file_stem host ps
          (resume_partial zero_rate host (partial_name (file_stem p)) q)
          (resume_partial-Numbers host (partial_name (file_stem p)) q h)

    toggle-ids : (js : List (Job F)) → ids (toggle_pause_all js) ≡ ids js
    unfolding toggle_pause_all
    toggle-ids js = elim (Bool-cases (any (λ j. is_running j.state) js)) [
      | inl e ↦ rw (e, toggle_pause_all) (ids-map pause_running js pause_running-id)
      | inr e ↦ rw (e, toggle_pause_all) (ids-map resume_paused js resume_paused-id)
    ]

    offline-ids :
        (offline : Bool) (hosts : List Host) (js : List (Job F))
        → ids (set_offline offline (hosts, js)).1 ≡ ids js
    unfolding set_offline
    offline-ids true hosts js = ids-map pause_running js pause_running-id
    offline-ids false hosts js = ids-map resume_paused js resume_paused-id

    pub UserStep-Numbers : {q r : Queue F} → UserStep zero_rate q r → Numbers q → Numbers r
    unfolding bulk_enqueue submit_conflict pause_job resume_job cancel_job retry_job clear_done
    UserStep-Numbers (enqueued exists apply_all setting host cwd direction entry q) h =
        enqueue-Numbers exists apply_all setting host cwd direction entry q h
    UserStep-Numbers (conflict_submitted host d apply_all q) h =
        push_job-Numbers host d.direction d.name d.remote_path d.local_path d.bytes_total d.is_tree
          (some d.choice) q h
    UserStep-Numbers (bulk_enqueued host cwd selection listing direction q) h =
        push_selected-Numbers host cwd direction (selected_files selection listing) q h
    UserStep-Numbers (orphans_resumed file_stem host paths q) h =
        resume_orphans-Numbers file_stem host paths q h
    UserStep-Numbers (all_toggled q) h = same_ids-Numbers q _ (toggle-ids q.jobs) h
    UserStep-Numbers (job_paused id q) h =
        same_ids-Numbers q _ (ids-update_first _ pause_running q.jobs pause_running-id) h
    UserStep-Numbers (job_resumed id q) h =
        same_ids-Numbers q _
          (ids-update_first _ (restart_paused zero_rate) q.jobs (restart_paused-id zero_rate)) h
    UserStep-Numbers (job_cancelled id q) h = filter-Numbers _ q h
    UserStep-Numbers (job_skipped id q) h = filter-Numbers _ q h
    UserStep-Numbers (job_retried id q) h =
        same_ids-Numbers q _
          (ids-update_first _ (reset_job zero_rate) q.jobs (reset_job-id zero_rate)) h
    UserStep-Numbers (done_cleared q) h = filter-Numbers _ q h
    UserStep-Numbers (went_offline offline hosts q) h =
        same_ids-Numbers q _ (offline-ids offline hosts q.jobs) h
