-- ===== src/Ui/Progress/Ended.antt =====
-- crates/mk-ui/src/store.rs: what the end of a worker does to the queue.
use m_kestrel.Prelude.{
  text_beq_refl, true, ℕ, ◌≤◌, ◌<◌, ℤ, false, ◌&&◌, List, ◌∷◌, none, ◌≡◌, refl, arith, Text, Table,
  lookup, update_first, ◌==◌, text_eq, Result, ok, err,
}
use m_kestrel.Core.Job.{Job, is_running, failed}
use m_kestrel.Ui.Engine.{TransferOutcome, retry_due}
use m_kestrel.Ui.Engine.Plan.{backoff-eq, backoff-pos}
use m_kestrel.Ui.Progress.{finish, worker_done}

module _ {F : Type 0} where
  pub finish-id :
      (r : Result TransferOutcome Text) (now : ℤ) (j : Job F) → (finish r now j).id ≡ j.id
  unfolding finish
  finish-id (ok o) now j = refl
  finish-id (err m) now j = refl

  abbrev changed : Text → Result TransferOutcome Text → ℤ → List (Job F) → List (Job F)
  changed id r now = update_first (λ j. j.id == id && is_running j.state) (finish r now)

  -- The running first job of the queue, a tree of which every file failed, ends as failed with its attempts
  -- unchanged, and is not due for a retry at any later time, however many attempts are left, if
  -- no failure of the job was recorded before and it had at most 61 attempts: the end of the worker
  -- records no failure.
  pub finish_all_failed :
      (o : TransferOutcome) (now now' : ℕ) (unix_now : ℤ) (j : Job F) (jobs : List (Job F))
      (failed_since : Table ℕ)
      → is_running j.state ≡ true
      → 0 < o.files_failed
      → o.files_done ≡ 0
      → lookup j.id failed_since ≡ none
      → j.attempt ≤ 61
      → let (after, since) = worker_done j.id (ok o) now unix_now (j ∷ jobs, failed_since) in
        (k : Job F) × (after ≡ k ∷ jobs)
        × (k.id ≡ j.id)
        × (k.state ≡ failed)
        × (k.attempt ≡ j.attempt)
        × (retry_due since now' k ≡ false)
  unfolding worker_done finish retry_due update_first
  finish_all_failed o now now' unix_now j jobs failed_since runs_now some_failed none_done unseen
        small =
      let own : (j.id == j.id) ≡ true = text_beq_refl j.id in
      (
        finish (ok o) unix_now j,
        rw (own, runs_now) refl,
        refl,
        ground arith,
        refl,
        ground (arith, backoff-eq j.attempt small, backoff-pos j.attempt),
      )
