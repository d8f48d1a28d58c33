-- ===== src/Ui/Enqueue/Ids.antt =====
-- crates/mk-ui/src/store.rs: the ids of new jobs.
use mathlib.Core.List.{map-append}
use m_kestrel.Prelude.{
  ap₂, Bool-cases, All-mono, map, filter, update_first, ℕ, suc, ◌<◌, Bool, List, [], ◌∷◌, ◌++◌,
  Option, some, Text, ◌≡◌, ◌≢◌, refl, sym, ap, ◌∙◌, inl, inr, arith, All, All-append, codes,
  decimal, decimal-IsDigit, digits-Lacks, last_part, last_part-append, parse_u64, parse_u64-decimal,
  u64_bound,
}
use m_kestrel.Core.Job.{Job, Direction}
use m_kestrel.Core.Settings.{OverwritePolicy}
use m_kestrel.Transfer.Scheduler.{ids}
use m_kestrel.Ui.Enqueue.{Queue, push_job, job_id}

-- The number at the end of an id.
last_part-job_id : (name : Text) (seq : ℕ) → last_part b'-' (job_id name seq) ≡ decimal seq
unfolding job_id
last_part-job_id name seq =
    last_part-append b'-' (codes "job-" ++ name) (decimal seq)
      (digits-Lacks b'-' (decimal seq) (decimal-IsDigit seq) (λ h. omega (arith, h.0)))

job_id-injective :
    (name other : Text) (m n : ℕ)
    → m < u64_bound
    → n < u64_bound
    → job_id name m ≡ job_id other n
    → m ≡ n
job_id-injective name other m n hm hn e =
    let same : decimal m ≡ decimal n =
      sym (last_part-job_id name m) ∙ ap (last_part b'-') e ∙ last_part-job_id other n in
    let read : some m ≡ some n =
      sym (parse_u64-decimal m hm) ∙ ap parse_u64 same ∙ parse_u64-decimal n hn in
    cc

-- Made by `push_job`, with a number below the next one.
abbrev pub IsNumbered : ℕ → Text → Type 0
IsNumbered next id = (name : Text) × (seq : ℕ) × (id ≡ job_id name seq) × (seq < next)

abbrev pub IsNew : Text → List Text → Type 0
IsNew id = All (λ i. i ≢ id)

-- No two ids are the same.
abbrev pub Distinct : List Text → Type 0
Distinct [] = Unit {0}
Distinct (i ∷ is) = IsNew i is × Distinct is

IsNew-numbered :
    (next : ℕ) (name : Text) (is : List Text)
    → next < u64_bound
    → All (IsNumbered next) is
    → IsNew (job_id name next) is
IsNew-numbered next name [] b h = tt
IsNew-numbered next name (i ∷ is) b h =
    let (other, seq, e, lt) = h.0 in
    (
      λ same.
          let equal : seq ≡ next =
            job_id-injective other name seq next (omega arith) b (sym e ∙ same) in
          absurd (omega arith),
      IsNew-numbered next name is b h.1,
    )

Distinct-snoc : (id : Text) (is : List Text) → IsNew id is → Distinct is → Distinct (is ++ id ∷ [])
Distinct-snoc id [] n d = (tt, tt)
Distinct-snoc id (i ∷ is) n d =
    (All-append (λ k. k ≢ i) is (id ∷ []) d.0 ((λ e. n.0 (sym e)), tt), Distinct-snoc id is n.1 d.1)

module _ {F : Type 0} where
  IsNew-filter :
      (id : Text) (p : Job F → Bool) (js : List (Job F))
      → IsNew id (ids js)
      → IsNew id (ids (filter p js))
  unfolding filter
  IsNew-filter id p [] h = tt
  IsNew-filter id p (j ∷ js) h = elim (Bool-cases (p j)) [
    | inl e ↦ rw (e, filter) (h.0, IsNew-filter id p js h.1)
    | inr e ↦ rw (e, filter) (IsNew-filter id p js h.1)
  ]

  pub Distinct-filter :
      (p : Job F → Bool) (js : List (Job F)) → Distinct (ids js) → Distinct (ids (filter p js))
  unfolding filter
  Distinct-filter p [] d = tt
  Distinct-filter p (j ∷ js) d = elim (Bool-cases (p j)) [
    | inl e ↦ rw (e, filter) (IsNew-filter j.id p js d.0, Distinct-filter p js d.1)
    | inr e ↦ rw (e, filter) (Distinct-filter p js d.1)
  ]

  pub Numbered-filter :
      (n : ℕ) (p : Job F → Bool) (js : List (Job F))
      → All (IsNumbered n) (ids js)
      → All (IsNumbered n) (ids (filter p js))
  unfolding filter
  Numbered-filter n p [] h = tt
  Numbered-filter n p (j ∷ js) h = elim (Bool-cases (p j)) [
    | inl e ↦ rw (e, filter) (h.0, Numbered-filter n p js h.1)
    | inr e ↦ rw (e, filter) (Numbered-filter n p js h.1)
  ]

  pub ids-map :
      (f : Job F → Job F) (js : List (Job F))
      → ((j : Job F) → (f j).id ≡ j.id)
      → ids (map f js) ≡ ids js
  ids-map f [] h = refl
  ids-map f (j ∷ js) h = ap₂ ◌∷◌ (h j) (ids-map f js h)

  pub ids-update_first :
      (p : Job F → Bool) (f : Job F → Job F) (js : List (Job F))
      → ((j : Job F) → (f j).id ≡ j.id)
      → ids (update_first p f js) ≡ ids js
  unfolding update_first
  ids-update_first p f [] h = refl
  ids-update_first p f (j ∷ js) h = elim (Bool-cases (p j)) [
    | inl e ↦ rw (e, update_first) (ap (λ i. i ∷ ids js) (h j))
    | inr e ↦ rw (e, update_first) (ap (◌∷◌ j.id) (ids-update_first p f js h))
  ]

  -- What a queue keeps: its jobs are numbered below the next number, and apart.
  pub record IsNumberedQueue (q : Queue F) : Type 0 where
    pub numbered : All (IsNumbered q.job_seq) (ids q.jobs)
    pub distinct : Distinct (ids q.jobs)

  pub push_job-IsNumbered :
      (zero_rate : F) (host : Text) (direction : Direction) (name remote_path local_path : Text)
      (size : ℕ) (is_tree : Bool) (policy : Option OverwritePolicy) (q : Queue F)
      → q.job_seq < u64_bound
      → IsNumberedQueue q
      → IsNumberedQueue
          (push_job zero_rate host direction name remote_path local_path size is_tree policy q)
  unfolding push_job
  push_job-IsNumbered zero_rate host direction name remote_path local_path size is_tree policy q b
        h =
      let new : Text = job_id name q.job_seq in
      let old : All (IsNumbered (suc q.job_seq)) (ids q.jobs) =
        All-mono (ids q.jobs) (λ i k. (k.0, k.1, k.2, omega (arith, k.3))) h.numbered in
      record {
        numbered = rw (map-append (λ (j : Job F). j.id) q.jobs _) (
            All-append (IsNumbered (suc q.job_seq)) (ids q.jobs) (new ∷ []) old
              ((name, q.job_seq, refl, omega arith), tt));
        distinct = rw (map-append (λ (j : Job F). j.id) q.jobs _) (
            Distinct-snoc new (ids q.jobs) (IsNew-numbered q.job_seq name (ids q.jobs) b h.numbered)
              h.distinct);
      }
