-- ===== src/Ui/Engine/Plan.antt =====
-- crates/mk-ui/src/store.rs: the engine's own promotion and retry do what the planner of
-- crates/mk-transfer says.
use mathlib.Core.Option
use native.Mathlib.Nat.{pow-suc}
use m_kestrel.Prelude.{
  ℕ, zero, suc, ◌-◌, ◌/◌, ◌^◌, ◌≤◌, Bool, false, List, [], ◌∷◌, map, Option, ◌≡◌, refl, ap, sym,
  ◌∙◌, inl, inr, Bool-cases, Option-cases, arith, Text, Table, lookup, filter, map-map, map-All,
  All_of, subst, update_first, if◌then◌else◌, ◌==◌, text_eq, text_beq_iff, any, All,
}
use m_kestrel.Core.Job.{Job}
use m_kestrel.Core.Persistence.{among}
use m_kestrel.Transfer.Scheduler.{Floats, TickPlan, plan_tick, is_due, backoff, ids}
use m_kestrel.Ui.Enqueue.Ids.{Distinct, IsNew, ids-map}
use m_kestrel.Ui.Engine.{
  start, requeue, start_all, waiting_ids, retry, retry_due, schedule, engine_backoff,
}

pow_mono : (a n : ℕ) → a ≤ n → 2 ^ a ≤ 2 ^ n
pow_mono zero zero h = omega arith
pow_mono (suc a) zero h = absurd (omega arith)
pow_mono zero (suc n) h = omega (arith, pow-suc 2 n, pow_mono zero n (omega arith))
pow_mono (suc a) (suc n) h = omega (arith, pow-suc 2 a, pow-suc 2 n, pow_mono a n (omega arith))

-- The seconds since a job failed, as the planner takes them.
abbrev pub elapsed_of : Table ℕ → ℕ → Text → Option ℕ
elapsed_of since now id = Option.map (λ t. (now - t) / 1000000000) (lookup id since)

-- Up to 61 attempts the two backoffs are the same number.
pub backoff-eq : (a : ℕ) → a ≤ 61 → engine_backoff a ≡ backoff a
unfolding engine_backoff backoff
backoff-eq a h = omega (arith, pow_mono a 61 h)

pub backoff-pos : (a : ℕ) → 1 ≤ backoff a
unfolding backoff
backoff-pos a = omega (arith, pow_mono 0 a (omega arith))

module _ {F : Type 0} where
  due_agrees :
      (since : Table ℕ) (now : ℕ) (j : Job F)
      → j.attempt ≤ 61
      → retry_due since now j ≡ is_due (elapsed_of since now) j
  unfolding retry_due is_due
  due_agrees since now j h = elim (Option-cases (lookup j.id since)) [
    | inl e ↦ ground (arith, e, backoff-eq j.attempt, backoff-pos j.attempt)
    | inr (t, e) ↦ ground (arith, e, backoff-eq j.attempt, backoff-pos j.attempt)
  ]

  start_if : Text → Job F → Job F
  start_if id j = if j.id == id then start j else j

  start_if_miss : (id : Text) (js : List (Job F)) → IsNew id (ids js) → map (start_if id) js ≡ js
  unfolding start_if
  start_if_miss id [] h = refl
  start_if_miss id (j ∷ js) h = ground (arith, text_beq_iff j.id id, h.0, start_if_miss id js h.1)

  start_first :
      (id : Text) (js : List (Job F))
      → Distinct (ids js)
      → update_first (λ j. j.id == id) start js ≡ map (start_if id) js
  unfolding update_first start_if
  start_first id [] d = refl
  start_first id (j ∷ js) d = elim (Bool-cases (j.id == id)) [
    | inl e ↦
        rw (e, update_first)
          (ap (◌∷◌ (start j)) (
            sym (
              start_if_miss id js
                (subst (λ i. IsNew i (ids js)) ((text_beq_iff j.id id).0 e) d.0))))
    | inr e ↦ rw (e, update_first) (ap (◌∷◌ j) (start_first id js d.1))
  ]

  start_in : List Text → Job F → Job F
  start_in is j = if among is j.id then start j else j

  start_twice :
      (id : Text) (is : List Text) (j : Job F) → start_in is (start_if id j) ≡ start_in (id ∷ is) j
  unfolding start_in start_if start any
  start_twice id is j = ground (arith, text_beq_iff j.id id, text_beq_iff id j.id)

  start_if-id : (id : Text) (j : Job F) → (start_if id j).id ≡ j.id
  unfolding start_if start
  start_if-id id j = ground arith

  start_none : (js : List (Job F)) → map (start_in []) js ≡ js
  unfolding start_in any
  start_none [] = refl
  start_none (j ∷ js) = ap (◌∷◌ j) (start_none js)

  -- Starting jobs one after the other starts the jobs of these ids.
  start_all-map :
      (is : List Text) (js : List (Job F))
      → Distinct (ids js)
      → start_all is js ≡ map (start_in is) js
  unfolding start_all
  start_all-map [] js d = sym (start_none js)
  start_all-map (i ∷ is) js d =
      ap (start_all is) (start_first i js d)
      ∙ start_all-map is (map (start_if i) js)
          (subst Distinct (sym (ids-map (start_if i) js (start_if-id i))) d)
      ∙ map-map (start_in is) (start_if i) js
      ∙ map-All _ (start_in (i ∷ is)) js (All_of _ js (start_twice i is))

  among_miss :
      (p : Job F → Bool) (id : Text) (js : List (Job F))
      → IsNew id (ids js)
      → among (ids (filter p js)) id ≡ false
  unfolding any filter
  among_miss p id [] h = refl
  among_miss p id (j ∷ js) h = ground (arith, text_beq_iff j.id id, h.0, among_miss p id js h.1)

  among_tail :
      (p : Job F → Bool) (j : Job F) (js ks : List (Job F))
      → IsNew j.id (ids ks)
      → All (λ k. among (ids (filter p js)) k.id ≡ p k) ks
      → All (λ k. among (ids (filter p (j ∷ js))) k.id ≡ p k) ks
  unfolding any filter
  among_tail p j js [] n h = tt
  among_tail p j js (k ∷ ks) n h =
      (ground (arith, text_beq_iff j.id k.id, n.0), among_tail p j js ks n.1 h.1)

  among_head :
      (p : Job F → Bool) (j : Job F) (js : List (Job F))
      → IsNew j.id (ids js)
      → among (ids (filter p (j ∷ js))) j.id ≡ p j
  unfolding any filter
  among_head p j js n = ground (arith, text_beq_iff j.id j.id, among_miss p j.id js n)

  -- Of jobs with ids of their own, the ids of those that pass a test tell which pass it.
  among-filter :
      (p : Job F → Bool) (js : List (Job F))
      → Distinct (ids js)
      → All (λ j. among (ids (filter p js)) j.id ≡ p j) js
  among-filter p [] d = tt
  among-filter p (j ∷ js) d =
      (among_head p j js d.0, among_tail p j js js d.0 (among-filter p js d.1))

  -- What a plan says of one job.
  abbrev pub applied : TickPlan F → Job F → Job F
  applied plan j =
      if among plan.promote j.id then start j else if among plan.retry j.id then requeue j else j

  not_due : (since : Table ℕ) (now : ℕ) (j : Job F) → retry since now (start j) ≡ start j
  unfolding retry_due start
  not_due since now j = refl

  applied_job :
      (plan : TickPlan F) (since : Table ℕ) (now : ℕ) (j : Job F)
      → j.attempt ≤ 61
      → among plan.retry j.id ≡ is_due (elapsed_of since now) j
      → retry since now (start_in plan.promote j) ≡ applied plan j
  unfolding start_in
  applied_job plan since now j b h = elim (Bool-cases (among plan.promote j.id)) [
    | inl e ↦ rw (e, start_in) (not_due since now j)
    | inr e ↦ rw (e, start_in, h, sym (due_agrees since now j b)) refl
  ]

  applied_jobs :
      (plan : TickPlan F) (since : Table ℕ) (now : ℕ) (js : List (Job F))
      → All (λ j. j.attempt ≤ 61) js
      → All (λ j. among plan.retry j.id ≡ is_due (elapsed_of since now) j) js
      → All (λ j. retry since now (start_in plan.promote j) ≡ applied plan j) js
  applied_jobs plan since now [] b h = tt
  applied_jobs plan since now (j ∷ js) b h =
      (applied_job plan since now j b.0 h.0, applied_jobs plan since now js b.1 h.1)

module _ (fl : Floats) where
  open fl use {F}

  -- Promotion and retry implement the planner: while online, of jobs with ids of their own and at
  -- most 61 attempts, a round starts those that `plan_tick` promotes and requeues those that it
  -- retries, and changes no other job, whatever the planner is told of the bandwidth limit.
  pub schedule-plan_tick :
      (parallel : ℕ) (limit : F) (since : Table ℕ) (now : ℕ) (jobs : List (Job F))
      → Distinct (ids jobs)
      → All (λ j. j.attempt ≤ 61) jobs
      → schedule false parallel since now jobs
        ≡ map (applied (plan_tick fl jobs parallel limit (elapsed_of since now))) jobs
  unfolding schedule waiting_ids plan_tick
  schedule-plan_tick parallel limit since now jobs d b =
      let plan = plan_tick fl jobs parallel limit (elapsed_of since now) in
      ap (map (retry since now)) (start_all-map plan.promote jobs d)
      ∙ map-map (retry since now) (start_in plan.promote) jobs
      ∙ map-All _ (applied plan) jobs
          (applied_jobs plan since now jobs b (among-filter (is_due (elapsed_of since now)) jobs d))
