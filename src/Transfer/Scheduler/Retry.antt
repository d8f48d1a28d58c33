-- ===== src/Transfer/Scheduler/Retry.antt =====
-- crates/mk-transfer/src/scheduler.rs: the automatic retries and their backoff.
use native.Mathlib.Nat.{pow-suc}
use m_kestrel.Prelude.{
  ℕ, zero, suc, ◌*◌, ◌^◌, ◌≤◌, ◌<◌, min, true, List, [], ◌∷◌, ◌≡◌, refl, Text, Option, arith, any,
  some, text_beq, text_beq_iff, Option-cases, filter, Bool-cases, inl, inr, ◌⊎◌, ◌↔◌,
}
use m_kestrel.Core.Job.{Job, failed}
use m_kestrel.Transfer.Scheduler.{Floats, ids, plan_tick, backoff, u64_max, is_due}

pow_pos : (n : ℕ) → 1 ≤ 2 ^ n
pow_pos zero = omega arith
pow_pos (suc n) = omega (arith, pow-suc 2 n, pow_pos n)

-- The wait doubles with each attempt until it sticks at the largest u64; it starts at five seconds,
-- so it is never 0 and never wraps.
pub backoff_doubles :
    (a : ℕ)
    → (backoff 0 ≡ 5)
      × (backoff (suc a) ≡ min (2 * backoff a) u64_max)
      × (5 ≤ backoff a)
      × (backoff a ≤ u64_max)
unfolding backoff
backoff_doubles a = (refl, omega (arith, pow-suc 2 a), omega (arith, pow_pos a), omega arith)

module _ {F : Type 0} (elapsed : Text → Option ℕ) where
  -- A failed job with attempts left whose backoff has passed.
  abbrev pub IsDue : Job F → Type 0
  IsDue j =
      (j.state ≡ failed)
      × (j.attempt < j.max_attempts)
      × (e : ℕ) × (elapsed j.id ≡ some e)
      × (backoff j.attempt ≤ e)

  -- Some job of that id is due.
  abbrev pub DueIn : Text → List (Job F) → Type 0
  DueIn id [] = ⊥
  DueIn id (j ∷ js) = ((j.id ≡ id) × IsDue j) ⊎ DueIn id js

  is_due_sound : (j : Job F) → is_due elapsed j ≡ true → IsDue j
  unfolding is_due
  is_due_sound j h = elim (Option-cases (elapsed j.id)) [
    | inl e ↦ absurd (ground arith)
    | inr (t, e) ↦ (ground arith, ground arith, t, e, ground arith)
  ]

  is_due_complete : (j : Job F) → IsDue j → is_due elapsed j ≡ true
  unfolding is_due
  is_due_complete j (s, a, e, t, b) = ground arith

  retry_sound :
      (id : Text) (js : List (Job F))
      → any (λ i. text_beq i id) (ids (filter (is_due elapsed) js)) ≡ true
      → DueIn id js
  unfolding any filter
  retry_sound id [] h = cc
  retry_sound id (j ∷ js) h = elim (Bool-cases (is_due elapsed j)) [
    | inl due ↦ elim (Bool-cases (text_beq j.id id)) [
      | inl here ↦ inl ((text_beq_iff j.id id).0 here, is_due_sound j due)
      | inr miss ↦ inr (retry_sound id js (ground arith))
    ]
    | inr later ↦ inr (retry_sound id js (rw (later, filter) at h))
  ]

  retry_complete :
      (id : Text) (js : List (Job F))
      → DueIn id js
      → any (λ i. text_beq i id) (ids (filter (is_due elapsed) js)) ≡ true
  unfolding any filter
  retry_complete id [] h = elim h [ ]
  retry_complete id (j ∷ js) (inl (e, due)) =
      ground (arith, is_due_complete j due, text_beq_iff j.id id)
  retry_complete id (j ∷ js) (inr rest) = ground (arith, retry_complete id js rest)

module _ (fl : Floats) where
  open fl use {F}

  -- A tick moves back exactly the failed jobs that have attempts left and have waited out their backoff.
  pub plan_tick-retry :
      (jobs : List (Job F)) (parallel : ℕ) (limit : F) (elapsed : Text → Option ℕ) (id : Text)
      → (any (λ i. text_beq i id) (plan_tick fl jobs parallel limit elapsed).retry ≡ true)
        ↔ DueIn elapsed id jobs
  unfolding plan_tick
  plan_tick-retry jobs parallel limit elapsed id =
      (retry_sound elapsed id jobs, retry_complete elapsed id jobs)
