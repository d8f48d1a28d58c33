-- ===== src/Ui/Steps/Finished.antt =====
-- crates/mk-ui/src/store.rs: what is done stays done.
use m_kestrel.Prelude.{
  ℕ, Bool, true, false, List, [], ◌∷◌, ◌++◌, map, Option, none, some, Text, ◌≡◌, refl, ap, ◌∙◌, inl,
  inr, Bool-cases, arith, any, filter, update_first, text_eq,
}
use m_kestrel.Core.Host.{Host, Entry}
use m_kestrel.Core.Job.{
  up, is_running, Job, JobState, Direction, is_done, running, waiting, paused, failed, done,
}
use m_kestrel.Ui.Queue.{
  pause_running, resume_paused, restart_paused, toggle_pause_all, pause_job, resume_job,
  set_offline,
}
use m_kestrel.Ui.Enqueue.{
  effective_policy, job_policy, is_dir, asks, download_path, child_path, selected_files,
  partial_name, Queue, push_job, push_selected, submit_conflict, enqueue, bulk_enqueue,
  resume_orphans, resume_partial, is_resumable, mark_resume,
}
use m_kestrel.Ui.Steps.{
  OverwritePolicy, UserStep, enqueued, bulk_enqueued, orphans_resumed, all_toggled, job_paused,
  job_resumed, job_cancelled, job_skipped, conflict_submitted, job_retried, done_cleared,
  went_offline,
}

module _ {F : Type 0} where
  abbrev pub finished : List (Job F) → List (Job F)
  finished = filter (λ j. is_done j.state)

  -- The change leaves a done job alone, and makes no other job done.
  abbrev Unfinished : (Job F → Job F) → Job F → Type 0
  Unfinished f j = (is_done (f j).state ≡ is_done j.state) × (is_done j.state ≡ true → f j ≡ j)

  finished-update_first :
      (p : Job F → Bool) (f : Job F → Job F) (js : List (Job F))
      → ((j : Job F) → p j ≡ true → Unfinished f j)
      → finished (update_first p f js) ≡ finished js
  unfolding update_first filter
  finished-update_first p f [] h = refl
  finished-update_first p f (j ∷ js) h = elim (Bool-cases (p j)) [
    | inr e ↦ ground (arith, e, finished-update_first p f js h)
    | inl e ↦ elim (Bool-cases (is_done j.state)) [
      | inl d ↦ rw (e, update_first, (h j e).1 d) refl
      | inr d ↦ rw (e, update_first, filter, (h j e).0, d) refl
    ]
  ]

  finished-map :
      (f : Job F → Job F) (js : List (Job F))
      → ((j : Job F) → Unfinished f j)
      → finished (map f js) ≡ finished js
  unfolding filter
  finished-map f [] h = refl
  finished-map f (j ∷ js) h = elim (Bool-cases (is_done j.state)) [
    | inl d ↦ rw ((h j).1 d, filter, d) (ap (◌∷◌ j) (finished-map f js h))
    | inr d ↦ rw (filter, (h j).0, d) (finished-map f js h)
  ]

  finished-snoc :
      (js : List (Job F)) (j : Job F)
      → is_done j.state ≡ false
      → finished (js ++ j ∷ []) ≡ finished js
  unfolding filter
  finished-snoc [] j e = rw (e, filter) refl
  finished-snoc (i ∷ js) j e = ground (arith, finished-snoc js j e)

  pause_keeps : (j : Job F) (s : JobState) → j.state ≡ s → Unfinished pause_running j
  unfolding pause_running
  pause_keeps j running e = ground arith
  pause_keeps j waiting e = ground arith
  pause_keeps j paused e = ground arith
  pause_keeps j failed e = ground arith
  pause_keeps j done e = ground arith

  resume_keeps : (j : Job F) (s : JobState) → j.state ≡ s → Unfinished resume_paused j
  unfolding resume_paused
  resume_keeps j running e = ground arith
  resume_keeps j waiting e = ground arith
  resume_keeps j paused e = ground arith
  resume_keeps j failed e = ground arith
  resume_keeps j done e = ground arith

  restart_keeps :
      (zero_rate : F) (j : Job F) (s : JobState)
      → j.state ≡ s
      → Unfinished (restart_paused zero_rate) j
  unfolding restart_paused
  restart_keeps zero_rate j running e = ground arith
  restart_keeps zero_rate j waiting e = ground arith
  restart_keeps zero_rate j paused e = ground arith
  restart_keeps zero_rate j failed e = ground arith
  restart_keeps zero_rate j done e = ground arith

  mark_keeps :
      (name : Text) (j : Job F) (s : JobState)
      → j.state ≡ s
      → is_resumable name j ≡ true
      → Unfinished mark_resume j
  unfolding is_resumable mark_resume
  mark_keeps name j running e h = ground arith
  mark_keeps name j waiting e h = ground arith
  mark_keeps name j paused e h = ground arith
  mark_keeps name j failed e h = ground arith
  mark_keeps name j done e h = ground arith

  module _ (zero_rate : F) where
    push-finished :
        (host : Text) (direction : Direction) (name remote_path local_path : Text) (size : ℕ)
        (is_tree : Bool) (policy : Option OverwritePolicy) (q : Queue F)
        → finished
            (push_job zero_rate host direction name remote_path local_path size is_tree policy
              q).jobs
          ≡ finished q.jobs
    unfolding push_job
    push-finished host direction name remote_path local_path size is_tree policy q =
        finished-snoc q.jobs _ refl

    selected-finished :
        (host cwd : Text) (direction : Direction) (es : List Entry) (q : Queue F)
        → finished (push_selected zero_rate host cwd direction es q).jobs ≡ finished q.jobs
    unfolding push_selected
    selected-finished host cwd direction [] q = refl
    selected-finished host cwd direction (e ∷ es) q =
        selected-finished host cwd direction es _
        ∙ push-finished host direction e.name (child_path cwd e.name) (download_path e.name)
            e.size_bytes false none q

    enqueue-finished :
        (exists : Text → Bool) (apply_all : Option OverwritePolicy) (setting : OverwritePolicy)
        (host cwd : Text) (direction : Direction) (entry : Entry) (q : Queue F)
        → finished (enqueue zero_rate exists apply_all setting host cwd direction entry q).0.jobs
          ≡ finished q.jobs
    unfolding enqueue
    enqueue-finished exists apply_all setting host cwd direction entry q =
        elim (Bool-cases (asks exists apply_all setting direction entry)) [
          | inl e ↦ rw (e, enqueue) refl
          | inr e ↦
              rw (e, enqueue)
                (push-finished host direction entry.name (child_path cwd entry.name)
                  (download_path entry.name) entry.size_bytes (is_dir entry.kind)
                  (job_policy (effective_policy apply_all setting)) q)
        ]

    partial-finished :
        (host name : Text) (q : Queue F)
        → finished (resume_partial zero_rate host name q).jobs ≡ finished q.jobs
    unfolding resume_partial
    partial-finished host name q = elim (Bool-cases (any (is_resumable name) q.jobs)) [
      | inl e ↦
          rw (e, resume_partial)
            (finished-update_first (is_resumable name) mark_resume q.jobs
              (λ j h. mark_keeps name j j.state refl h))
      | inr e ↦
          rw (e, resume_partial)
            (push-finished host up name (b'/' ∷ name) (download_path name) 0 false
              (some OverwritePolicy.resume) q)
    ]

    orphans-finished :
        (file_stem : Text → Option Text) (host : Text) (paths : List Text) (q : Queue F)
        → finished (resume_orphans zero_rate file_stem host paths q).jobs ≡ finished q.jobs
    unfolding resume_orphans
    orphans-finished file_stem host [] q = refl
    orphans-finished file_stem host (p ∷ ps) q =
        orphans-finished file_stem host ps
          (resume_partial zero_rate host (partial_name (file_stem p)) q)
        ∙ partial-finished host (partial_name (file_stem p)) q

    toggle-finished : (js : List (Job F)) → finished (toggle_pause_all js) ≡ finished js
    unfolding toggle_pause_all
    toggle-finished js = elim (Bool-cases (any (λ j. is_running j.state) js)) [
      | inl e ↦
          rw (e, toggle_pause_all) (finished-map pause_running js (λ j. pause_keeps j j.state refl))
      | inr e ↦
          rw (e, toggle_pause_all)
            (finished-map resume_paused js (λ j. resume_keeps j j.state refl))
    ]

    offline-finished :
        (offline : Bool) (hosts : List Host) (js : List (Job F))
        → finished (set_offline offline (hosts, js)).1 ≡ finished js
    unfolding set_offline
    offline-finished true hosts js = finished-map pause_running js (λ j. pause_keeps j j.state refl)
    offline-finished false hosts js =
        finished-map resume_paused js (λ j. resume_keeps j j.state refl)

    -- The operations that the user has for jobs that are done.
    abbrev pub IsForDone : {q r : Queue F} → UserStep zero_rate q r → Type 0
    IsForDone (enqueued exists apply_all setting host cwd direction entry q) = ⊥
    IsForDone (conflict_submitted host d apply_all q) = ⊥
    IsForDone (bulk_enqueued host cwd selection listing direction q) = ⊥
    IsForDone (orphans_resumed file_stem host paths q) = ⊥
    IsForDone (all_toggled q) = ⊥
    IsForDone (job_paused id q) = ⊥
    IsForDone (job_resumed id q) = ⊥
    IsForDone (job_cancelled id q) = Unit {0}
    IsForDone (job_skipped id q) = Unit {0}
    IsForDone (job_retried id q) = Unit {0}
    IsForDone (done_cleared q) = Unit {0}
    IsForDone (went_offline offline hosts q) = ⊥

    -- Every operation but cancel, skip, retry and clear, the developer drawer apart, leaves the jobs
    -- that are done as they were and in their order, and makes no other job done.
    pub UserStep-finished :
        {q r : Queue F} (st : UserStep zero_rate q r)
        → ¬ IsForDone st
        → finished r.jobs ≡ finished q.jobs
    unfolding bulk_enqueue submit_conflict pause_job resume_job
    UserStep-finished (enqueued exists apply_all setting host cwd direction entry q) h =
        enqueue-finished exists apply_all setting host cwd direction entry q
    UserStep-finished (conflict_submitted host d apply_all q) h =
        push-finished host d.direction d.name d.remote_path d.local_path d.bytes_total d.is_tree
          (some d.choice) q
    UserStep-finished (bulk_enqueued host cwd selection listing direction q) h =
        selected-finished host cwd direction (selected_files selection listing) q
    UserStep-finished (orphans_resumed file_stem host paths q) h =
        orphans-finished file_stem host paths q
    UserStep-finished (all_toggled q) h = toggle-finished q.jobs
    UserStep-finished (job_paused id q) h =
        finished-update_first _ pause_running q.jobs (λ j e. pause_keeps j j.state refl)
    UserStep-finished (job_resumed id q) h =
        finished-update_first _ (restart_paused zero_rate) q.jobs
          (λ j e. restart_keeps zero_rate j j.state refl)
    UserStep-finished (job_cancelled id q) h = absurd (h tt)
    UserStep-finished (job_skipped id q) h = absurd (h tt)
    UserStep-finished (job_retried id q) h = absurd (h tt)
    UserStep-finished (done_cleared q) h = absurd (h tt)
    UserStep-finished (went_offline offline hosts q) h = offline-finished offline hosts q.jobs
