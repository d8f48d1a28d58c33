-- ===== src/Ui/Progress/Demo.antt =====
-- crates/mk-ui/src/store.rs: a demo job finishes, and stays within its size.
use m_kestrel.Prelude.{
  sym, subst, ap, ◌⊎◌, ℕ, ◌+◌, ◌-◌, ◌≤◌, ◌<◌, ℤ, Bool, true, false, List, [], ◌∷◌, ◌≡◌, refl, ◌∙◌,
  inl, inr, Bool-cases, arith, leb, length, All,
}
use m_kestrel.Core.Host.{Host}
use m_kestrel.Core.Job.{Job, is_running, done}
use m_kestrel.Transfer.Scheduler.{saturate, u64_max}
use m_kestrel.Ui.Engine.{EngineFloats, is_some, host_is_real}
use m_kestrel.Ui.Progress.{Clocks, is_demo, move_bytes, fail_again, demo_job}

module _ (ef : EngineFloats) where
  open ef use {floats, mul, larger, of_u64, to_u64}
  open floats use {F, zero, one, add, div, gt}

  -- One demo job through a sequence of rounds, each with its own scale and clock.
  pub demo_rounds : List Host → Bool → List (F × ℕ × ℤ) → Job F → Clocks F → Job F
  demo_rounds hosts verify [] j c = j
  demo_rounds hosts verify ((scale, now, unix_now) ∷ rounds) j c =
      let (k, c') = demo_job ef hosts scale verify now unix_now j c in
      demo_rounds hosts verify rounds k c'

  -- The job runs at this rate, without a message, or is done.
  record Moves (rate : F) (j : Job F) : Type 0 where
    runs : is_running j.state ≡ true
    quiet : is_some j.message ≡ false
    rated : j.rate_bytes_per_s ≡ rate
    sized : j.bytes_total ≤ u64_max

  move_some :
      (rate' rate : F) (verify : Bool) (unix_now : ℤ) (j : Job F)
      → 1 ≤ to_u64 rate'
      → Moves rate j
      → let k = move_bytes ef rate' verify unix_now j in
        (k.bytes_total ≡ j.bytes_total)
        × (((k.state ≡ done) × (k.bytes_done ≡ j.bytes_total))
            ⊎ (Moves rate k × (j.bytes_done < k.bytes_done) × (k.bytes_done < j.bytes_total)))
  unfolding move_bytes
  move_some rate' rate verify unix_now j r m =
      elim (Bool-cases (leb j.bytes_total (saturate (j.bytes_done + to_u64 rate')))) [
        | inl e ↦ rw (e, move_bytes) (refl, inl (refl, refl))
        | inr e ↦
            rw (e, move_bytes)
              (
                refl,
                inr (
                  record { runs = m.runs; quiet = m.quiet; rated = m.rated; sized = m.sized },
                  ground (arith, e, m.sized),
                  ground (arith, e),
                ),
              )
      ]

  move-message :
      (rate : F) (verify : Bool) (unix_now : ℤ) (j : Job F)
      → (move_bytes ef rate verify unix_now j).message ≡ j.message
  unfolding move_bytes
  move-message rate verify unix_now j = ground arith

  move-host :
      (rate : F) (verify : Bool) (unix_now : ℤ) (j : Job F)
      → (move_bytes ef rate verify unix_now j).host_id ≡ j.host_id
  unfolding move_bytes
  move-host rate verify unix_now j = ground arith

  abbrev Finished : Job F → ℕ → Type 0
  Finished j size = (j.state ≡ done) × (j.bytes_done ≡ size)

  fail_again-quiet :
      (now : ℕ) (unix_now : ℤ) (j : Job F) (c : Clocks F)
      → is_some j.message ≡ false
      → fail_again ef now unix_now j c ≡ (j, c)
  unfolding fail_again
  fail_again-quiet now unix_now j c h = rw h refl

  module _ (hosts : List Host) (verify : Bool) where
    demo_step :
        (rate scale : F) (now : ℕ) (unix_now : ℤ) (j : Job F) (c : Clocks F)
        → host_is_real hosts j.host_id ≡ false
        → Moves rate j
        → (demo_job ef hosts scale verify now unix_now j c).0
          ≡ move_bytes ef (mul rate scale) verify unix_now j
    unfolding demo_job is_demo
    demo_step rate scale now unix_now j c demo m =
        let moved = move_bytes ef (mul j.rate_bytes_per_s scale) verify unix_now j in
        rw (m.runs, demo_job, demo)
          (ap (λ p. p.0)
              (fail_again-quiet now unix_now moved _ (
                ap is_some (move-message (mul j.rate_bytes_per_s scale) verify unix_now j)
                ∙ m.quiet))
            ∙ ap (λ r. move_bytes ef (mul r scale) verify unix_now j) m.rated)

    rest_stays :
        (rounds : List (F × ℕ × ℤ)) (j : Job F) (c : Clocks F)
        → is_running j.state ≡ false
        → demo_rounds hosts verify rounds j c ≡ j
    unfolding demo_rounds demo_job is_demo
    rest_stays [] j c h = refl
    rest_stays ((scale, now, unix_now) ∷ rounds) j c h =
        rw (h, demo_rounds) (rest_stays rounds j c h)

    finishes :
        (rate : F) (rounds : List (F × ℕ × ℤ)) (j : Job F) (c : Clocks F)
        → host_is_real hosts j.host_id ≡ false
        → Moves rate j
        → All (λ r. 1 ≤ to_u64 (mul rate r.0)) rounds
        → j.bytes_total - j.bytes_done < length rounds
        → Finished (demo_rounds hosts verify rounds j c) j.bytes_total
    unfolding demo_rounds
    finishes rate [] j c demo m rated enough = absurd (omega arith)
    finishes rate ((scale, now, unix_now) ∷ rounds) j c demo m rated enough =
        let k = move_bytes ef (mul rate scale) verify unix_now j in
        let c' = (demo_job ef hosts scale verify now unix_now j c).1 in
        let moved = move_some (mul rate scale) rate verify unix_now j rated.0 m in
        subst (λ x. Finished (demo_rounds hosts verify rounds x c') j.bytes_total)
          (sym (demo_step rate scale now unix_now j c demo m))
          (elim moved.1 [
            | inl (ended, full) ↦ rw (rest_stays rounds k c' (ap is_running ended)) (ended, full)
            | inr (m', more, less) ↦
                let rest =
                  finishes rate rounds k c'
                    (ap (host_is_real hosts) (move-host (mul rate scale) verify unix_now j) ∙ demo)
                    m' rated.1 (omega (arith, moved.0)) in
                (rest.0, rest.1 ∙ moved.0)
          ])

    -- A demo job without a message, whose size is a u64 and whose rate in every round is a byte or
    -- more, is done, with all its bytes, after any rounds that are more than the bytes it lacks.
    pub demo_rounds-Done :
        (rounds : List (F × ℕ × ℤ)) (j : Job F) (c : Clocks F)
        → host_is_real hosts j.host_id ≡ false
        → is_running j.state ≡ true
        → is_some j.message ≡ false
        → j.bytes_total ≤ u64_max
        → All (λ r. 1 ≤ to_u64 (mul j.rate_bytes_per_s r.0)) rounds
        → j.bytes_total - j.bytes_done < length rounds
        → ((demo_rounds hosts verify rounds j c).state ≡ done)
          × ((demo_rounds hosts verify rounds j c).bytes_done ≡ j.bytes_total)
    demo_rounds-Done rounds j c demo runs quiet sized rated enough =
        finishes j.rate_bytes_per_s rounds j c demo
          (record { runs = runs; quiet = quiet; rated = refl; sized = sized }) rated enough
