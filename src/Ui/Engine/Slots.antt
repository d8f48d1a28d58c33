-- ===== src/Ui/Engine/Slots.antt =====
-- crates/mk-ui/src/store.rs: how many jobs run after promotion.
use m_kestrel.Prelude.{
  ℕ, suc, ◌+◌, ◌-◌, ◌≤◌, max, Bool, true, false, List, [], ◌∷◌, map, ◌≡◌, refl, arith, Text, Table,
  filter, length, length-map, update_first, ◌==◌, text_eq, take, length-take,
}
use m_kestrel.Core.Job.{Job, JobState, is_running, running, waiting, paused, failed, done}
use m_kestrel.Transfer.Scheduler.{running_jobs, waiting_jobs}
use m_kestrel.Ui.Engine.{start, requeue, start_all, waiting_ids, retry, retry_due, schedule}

module _ {F : Type 0} where
  abbrev pub count : List (Job F) → ℕ
  count jobs = length (running_jobs jobs)

  count-start :
      (p : Job F → Bool) (js : List (Job F)) → count (update_first p start js) ≤ suc (count js)
  unfolding update_first filter start
  count-start p [] = omega arith
  count-start p (j ∷ js) = ground (arith, count-start p js)

  count-start_all :
      (is : List Text) (js : List (Job F)) → count (start_all is js) ≤ length is + count js
  unfolding start_all
  count-start_all [] js = omega arith
  count-start_all (i ∷ is) js = omega (
    arith,
    count-start_all is (update_first (λ j. j.id == i) start js),
    count-start (λ j. j.id == i) js,
  )

  retry_stops :
      (since : Table ℕ) (now : ℕ) (j : Job F) (s : JobState)
      → j.state ≡ s
      → is_running (retry since now j).state ≡ is_running j.state
  unfolding retry_due requeue
  retry_stops since now j running e = ground arith
  retry_stops since now j waiting e = ground arith
  retry_stops since now j paused e = ground arith
  retry_stops since now j failed e = ground arith
  retry_stops since now j done e = ground arith

  count-retry :
      (since : Table ℕ) (now : ℕ) (js : List (Job F)) → count (map (retry since now) js) ≡ count js
  unfolding filter
  count-retry since now [] = refl
  count-retry since now (j ∷ js) =
      ground (arith, retry_stops since now j j.state refl, count-retry since now js)

  length-waiting_ids :
      (offline : Bool) (parallel : ℕ) (js : List (Job F))
      → length (waiting_ids offline parallel js) ≤ parallel - count js
  unfolding waiting_ids
  length-waiting_ids true parallel js = omega arith
  length-waiting_ids false parallel js =
      let slots = parallel - count js in
      omega (
        arith,
        length-map (λ (j : Job F). j.id) (take slots (waiting_jobs js)),
        length-take slots (waiting_jobs js),
      )

  -- Promotion and retry let no more jobs run than the limit says, or as many as ran before.
  pub schedule-count :
      (offline : Bool) (parallel : ℕ) (since : Table ℕ) (now : ℕ) (js : List (Job F))
      → count (schedule offline parallel since now js) ≤ max parallel (count js)
  unfolding schedule
  schedule-count offline parallel since now js = omega (
    arith,
    count-retry since now (start_all (waiting_ids offline parallel js) js),
    count-start_all (waiting_ids offline parallel js) js,
    length-waiting_ids offline parallel js,
  )
