-- ===== src/Ui/Steps/Restart.antt =====
-- crates/mk-ui/src/store.rs: `JOB_SEQ` starts at zero in each run of the program, and the jobs of
-- the last run are in the store.
use m_kestrel.Prelude.{
  ℕ, Bool, true, false, not, List, [], ◌∷◌, ◌++◌, Option, Text, ◌≡◌, refl, sym, ap, arith, filter,
  ◌==◌, text_eq, text_beq_refl,
}
use m_kestrel.Core.Job.{Job, Direction}
use m_kestrel.Core.Settings.{OverwritePolicy}
use m_kestrel.Transfer.Scheduler.{ids}
use m_kestrel.Ui.Queue.{cancel_job}
use m_kestrel.Ui.Enqueue.{Queue, push_job, job_id}
use m_kestrel.Ui.Enqueue.Ids.{Distinct, IsNew}

module _ {F : Type 0} where
  absent :
      (id : Text) (js : List (Job F)) (new : Job F)
      → new.id ≡ id
      → ¬ IsNew id (ids (js ++ new ∷ []))
  absent id [] new e h = h.0 e
  absent id (j ∷ js) new e h = absent id js new e h.1

  filter-snoc :
      (p : Job F → Bool) (js : List (Job F)) (new : Job F)
      → p new ≡ false
      → filter p (js ++ new ∷ []) ≡ filter p js
  unfolding filter
  filter-snoc p [] new e = rw (e, filter) refl
  filter-snoc p (j ∷ js) new e = ground (arith, filter-snoc p js new e)

  -- Where the first kept job has the name of a new job and the number that comes next after a
  -- restart, the new job gets the same id, and cancelling it also drops the kept one.
  pub push_job-restart :
      (zero_rate : F) (host : Text) (direction : Direction) (name remote_path local_path : Text)
      (size seq : ℕ) (is_tree : Bool) (policy : Option OverwritePolicy) (kept : Job F)
      (js : List (Job F))
      → kept.id ≡ job_id name seq
      → let restarted : Queue F = record { jobs = kept ∷ js; job_seq = seq } in
        let jobs =
          (push_job zero_rate host direction name remote_path local_path size is_tree policy
            restarted).jobs in
        (¬ Distinct (ids jobs))
        × (cancel_job (job_id name seq) jobs ≡ cancel_job (job_id name seq) js)
  unfolding push_job cancel_job filter
  push_job-restart zero_rate host direction name remote_path local_path size seq is_tree policy kept
        js e =
      let same : (job_id name seq == job_id name seq) ≡ true = text_beq_refl (job_id name seq) in
      (
        λ d. absent kept.id js _ (sym e) d.0,
        rw (e, same) (filter-snoc (λ j. not (j.id == job_id name seq)) js _ (ap not same)),
      )
