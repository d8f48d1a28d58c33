-- ===== src/Transfer/Scheduler/Slots.antt =====
-- crates/mk-transfer/src/scheduler.rs: the promotion of waiting jobs.
use mathlib.Core.List.{map-append}
use m_kestrel.Prelude.{
  ℕ, zero, suc, ◌+◌, ◌-◌, ◌≤◌, min, max, List, [], ◌∷◌, ◌++◌, ◌≡◌, refl, ap, sym, ◌∙◌, Text, Option,
  arith, length, length-map, length-take, take, drop,
}
use m_kestrel.Core.Job.{Job}
use m_kestrel.Transfer.Scheduler.{Floats, running_jobs, waiting_jobs, ids, plan_tick}

take-append-drop {ℓ} : {A : Type ℓ} (n : ℕ) (xs : List A) → take n xs ++ drop n xs ≡ xs
take-append-drop zero xs = refl
take-append-drop (suc n) [] = refl
take-append-drop (suc n) (x ∷ xs) = ap (◌∷◌ x) (take-append-drop n xs)

module _ (fl : Floats) where
  open fl use {F}

  -- A tick fills the free slots and no more: it promotes the waiting jobs in queue order, all of
  -- them or as many as there are slots, and never so many that more than `parallel` would run.
  pub plan_tick-promote :
      (jobs : List (Job F)) (parallel : ℕ) (limit : F) (elapsed : Text → Option ℕ)
      → let promote = (plan_tick fl jobs parallel limit elapsed).promote in
        let running = length (running_jobs jobs) in
        ((left : List Text) × (promote ++ left ≡ ids (waiting_jobs jobs)))
        × (length promote ≡ min (parallel - running) (length (waiting_jobs jobs)))
        × (running + length promote ≤ max parallel running)
  unfolding plan_tick
  plan_tick-promote jobs parallel limit elapsed =
      let slots = parallel - length (running_jobs jobs) in
      let count : length (ids (take slots (waiting_jobs jobs)))
          ≡ min slots (length (waiting_jobs jobs)) =
        length-map (λ (j : Job F). j.id) (take slots (waiting_jobs jobs))
        ∙ length-take slots (waiting_jobs jobs) in
      (
        (
          ids (drop slots (waiting_jobs jobs)),
          sym (
                map-append (λ (j : Job F). j.id) (take slots (waiting_jobs jobs))
                  (drop slots (waiting_jobs jobs)))
              ∙ ap ids (take-append-drop slots (waiting_jobs jobs)),
        ),
        count,
        omega (arith, count),
      )
