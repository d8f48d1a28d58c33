-- ===== src/Ui/Tick/Workers.antt =====
-- crates/mk-ui/src/store.rs: which jobs have workers after a round, and which workers are cancelled.
use m_kestrel.Prelude.{
  All-both, ap, ◌∙◌, Option-cases, All-filter_of, Bool, true, false, not, ◌&&◌, List, [], ◌∷◌, some,
  ◌≡◌, refl, sym, inl, inr, Bool-cases, arith, Text, Table, lookup, enter, lookup-enter, filter,
  filter-take, filter-skip, subst, any, ◌==◌, text_eq, text_beq_refl, text_beq_iff, All, All-mono,
}
use m_kestrel.Core.Host.{Host}
use m_kestrel.Core.Job.{Job, is_running}
use m_kestrel.Ui.Engine.{
  EngineFloats, Engine, Inputs, Channel, is_some, host_is_real, to_spawn, spawn_workers,
  spawn_flags, set_flags, runs, drained,
}
use m_kestrel.Ui.Tick.Flags.{HasFlags, set-HasFlags, spawn-HasFlags, drain-HasFlags}
use m_kestrel.Ui.Tick.{drain, update_jobs, spawn, tick}

module _ {F : Type 0} where
  abbrev Covered : Table Channel → Job F → Type 0
  Covered w j = is_some (lookup j.id w) ≡ true

  abbrev pub needs_worker : List Host → Job F → Bool
  needs_worker hosts j = is_running j.state && host_is_real hosts j.host_id

  Covered-enter :
      (id : Text) (c : Channel) (w : Table Channel) (j : Job F)
      → Covered w j
      → Covered (enter id c w) j
  Covered-enter id c w j h = rw (lookup-enter id j.id c w) (ground (arith, h))

  Covered-spawn :
      (ns : List (Job F)) (w : Table Channel) (j : Job F)
      → Covered w j
      → Covered (spawn_workers ns w) j
  unfolding spawn_workers
  Covered-spawn [] w j h = h
  Covered-spawn (n ∷ ns) w j h =
      Covered-spawn ns (enter n.id (record { messages = []; closed = false }) w) j
        (Covered-enter n.id (record { messages = []; closed = false }) w j h)

  Covered-new : (c : Channel) (w : Table Channel) (j : Job F) → Covered (enter j.id c w) j
  Covered-new c w j = rw (lookup-enter j.id j.id c w, text_beq_refl j.id) refl

  abbrev AllCovered : (Job F → Bool) → Table Channel → List (Job F) → List (Job F) → Type 0
  AllCovered p w new = All (λ k. p k ≡ true → Covered (spawn_workers new w) k)

  spawn-All :
      (p : Job F → Bool) (js : List (Job F)) (w : Table Channel) → AllCovered p w (filter p js) js
  unfolding spawn_workers
  spawn-All p [] w = tt
  spawn-All p (j ∷ js) w = elim (Bool-cases (p j)) [
    | inl e ↦
        let fresh : Channel = record { messages = []; closed = false } in
        subst (λ new. AllCovered p w new (j ∷ js)) (sym (filter-take p j js e))
          (
            (λ h. Covered-spawn (filter p js) (enter j.id fresh w) j (Covered-new fresh w j)),
            spawn-All p js (enter j.id fresh w),
          )
    | inr e ↦
        subst (λ new. AllCovered p w new (j ∷ js)) (sym (filter-skip p j js e))
          ((λ h. absurd (ground arith)), spawn-All p js w)
  ]

  needs_worker-Covered :
      (hosts : List Host) (w : Table Channel) (js : List (Job F)) (j : Job F)
      → (needs_worker hosts j && not (is_some (lookup j.id w)) ≡ true
          → Covered (spawn_workers js w) j)
      → needs_worker hosts j ≡ true
      → Covered (spawn_workers js w) j
  needs_worker-Covered hosts w js j new need = elim (Bool-cases (is_some (lookup j.id w))) [
    | inl old ↦ Covered-spawn js w j old
    | inr idle ↦ new (ground (arith, need, idle))
  ]

  spawn-Covers :
      (hosts : List Host) (w : Table Channel) (js : List (Job F))
      → All
          (λ j. needs_worker hosts j ≡ true → Covered (spawn_workers (to_spawn hosts w js) w) j)
          js
  unfolding to_spawn
  spawn-Covers hosts w js =
      All-mono js (λ j new need. needs_worker-Covered hosts w (to_spawn hosts w js) j new need)
        (spawn-All (λ j. needs_worker hosts j && not (is_some (lookup j.id w))) js w)

  -- A flag says that the worker's job does not run.
  abbrev FlagsAgree : List (Job F) → Table Bool → Type 0
  FlagsAgree jobs flags =
      (id : Text) (flag : Bool) → lookup id flags ≡ some flag → flag ≡ not (runs id jobs)

  set_flags-Agree :
      (jobs : List (Job F)) (flags : Table Bool) → FlagsAgree jobs (set_flags jobs flags)
  unfolding set_flags lookup
  set_flags-Agree jobs [] = λ id flag h. cc
  set_flags-Agree jobs ((i, f) ∷ flags) = λ id flag h. elim (Bool-cases (i == id)) [
    | inl e ↦ ground (arith, h, e, text_beq_iff i id)
    | inr e ↦ set_flags-Agree jobs flags id flag (ground (arith, h, e))
  ]

  spawn_flags-Agree :
      (jobs new : List (Job F)) (flags : Table Bool)
      → All (λ j. runs j.id jobs ≡ true) new
      → FlagsAgree jobs flags
      → FlagsAgree jobs (spawn_flags new flags)
  unfolding spawn_flags
  spawn_flags-Agree jobs [] flags r a = a
  spawn_flags-Agree jobs (j ∷ new) flags r a =
      spawn_flags-Agree jobs new (enter j.id false flags) r.1 (λ id flag h.
        ground (arith, r.0, a id flag, lookup-enter j.id id false flags, text_beq_iff j.id id, h))

  runs-cons : (j k : Job F) (js : List (Job F)) → runs k.id js ≡ true → runs k.id (j ∷ js) ≡ true
  unfolding runs any
  runs-cons j k js h = ground (arith, h)

  runs_head :
      (j : Job F) (js : List (Job F)) → is_running j.state ≡ true → runs j.id (j ∷ js) ≡ true
  unfolding runs any
  runs_head j js h = ground (arith, h, text_beq_refl j.id)

  runs-All : (js : List (Job F)) → All (λ j. is_running j.state ≡ true → runs j.id js ≡ true) js
  runs-All [] = tt
  runs-All (j ∷ js) =
      (runs_head j js, All-mono js (λ k h running. runs-cons j k js (h running)) (runs-All js))

  to_spawn-runs :
      (hosts : List Host) (w : Table Channel) (js : List (Job F))
      → All (λ j. runs j.id js ≡ true) (to_spawn hosts w js)
  unfolding to_spawn
  to_spawn-runs hosts w js =
      All-filter_of _ _ js (All-mono js (λ j h chosen. h (ground (arith, chosen))) (runs-All js))

  abbrev pub IsServed : Table Channel → Table Bool → Job F → Type 0
  IsServed w flags j = (is_some (lookup j.id w) ≡ true) × (lookup j.id flags ≡ some false)

  served :
      (jobs : List (Job F)) (w : Table Channel) (flags : Table Bool) (j : Job F)
      → HasFlags w flags
      → FlagsAgree jobs flags
      → is_some (lookup j.id w) ≡ true
      → runs j.id jobs ≡ true
      → IsServed w flags j
  served jobs w flags j h a covered running = elim (Option-cases (lookup j.id flags)) [
    | inl e ↦ absurd (ground (arith, h j.id covered, e))
    | inr (flag, e) ↦ (covered, e ∙ ap some (ground (arith, a j.id flag e, running)))
  ]

module _ (ef : EngineFloats) where
  open ef use {floats, mul, larger, of_u64, to_u64}
  open floats use {F, zero, one, add, div, gt}

  -- Where every worker had a flag, as in an engine without workers: after a round every running job
  -- of a real host has a worker with a flag that is not set, a flag is set exactly when no job of
  -- its id runs, and every worker has a flag again.
  pub tick-Covers :
      (i : Inputs) (e : Engine F)
      → HasFlags e.workers e.cancel_flags
      → let after = (tick ef i e).0 in
        All
          (λ j.
            (is_running j.state && host_is_real i.hosts j.host_id) ≡ true
            → IsServed after.workers after.cancel_flags j)
          after.jobs
        × ((id : Text) (flag : Bool)
            → lookup id after.cancel_flags ≡ some flag
            → flag ≡ not (runs id after.jobs))
        × HasFlags after.workers after.cancel_flags
  unfolding tick drain spawn
  tick-Covers i e h =
      let updated = (update_jobs ef i (drained e.workers) (drain ef e)).0 in
      let after = (spawn ef i.hosts updated).0 in
      let flags =
        spawn-HasFlags (to_spawn i.hosts updated.workers updated.jobs) updated.workers
          (set_flags updated.jobs updated.cancel_flags)
          (set-HasFlags updated.jobs updated.workers updated.cancel_flags
            (drain-HasFlags ef e h)) in
      let agree =
        spawn_flags-Agree updated.jobs (to_spawn i.hosts updated.workers updated.jobs)
          (set_flags updated.jobs updated.cancel_flags)
          (to_spawn-runs i.hosts updated.workers updated.jobs)
          (set_flags-Agree updated.jobs updated.cancel_flags) in
      let covered = spawn-Covers i.hosts updated.workers updated.jobs in
      (
        All-both updated.jobs
            (λ j c r need.
              served updated.jobs after.workers after.cancel_flags j flags agree (c need)
                (r (ground (arith, need))))
            covered (runs-All updated.jobs),
        agree,
        flags,
      )
