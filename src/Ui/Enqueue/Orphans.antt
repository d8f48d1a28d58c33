-- ===== src/Ui/Enqueue/Orphans.antt =====
-- crates/mk-ui/src/store.rs: every partial that is resumed has a job that will resume it.
use m_kestrel.Prelude.{
  Bool, true, false, ◌&&◌, List, [], ◌∷◌, ◌++◌, Option, some, Text, ◌≡◌, ◌⊎◌, inl, inr, Bool-cases,
  arith, any, update_first, any-append, ends_with, ends_with-append, ◌∙◌, All, codes,
}
use m_kestrel.Core.Job.{Job, is_waiting}
use m_kestrel.Core.Settings.{OverwritePolicy}
use m_kestrel.Ui.Enqueue.{
  Queue, is_resumable, mark_resume, resume_partial, resume_orphans, partial_name,
}

abbrev pub is_resume : Option OverwritePolicy → Bool
is_resume (some OverwritePolicy.resume) = true
is_resume _ = false

any-mark {ℓ} :
    {A : Type ℓ} (p q : A → Bool) (f : A → A) (xs : List A)
    → ((x : A) → p x ≡ true → q x ≡ true → q (f x) ≡ true)
    → any q xs ≡ true
    → any q (update_first p f xs) ≡ true
unfolding any update_first
any-mark p q f [] h e = e
any-mark p q f (x ∷ xs) h e = ground (arith, h x, any-mark p q f xs h)

any-marked {ℓ} :
    {A : Type ℓ} (p q : A → Bool) (f : A → A) (xs : List A)
    → ((x : A) → p x ≡ true → q (f x) ≡ true)
    → any p xs ≡ true
    → any q (update_first p f xs) ≡ true
unfolding any update_first
any-marked p q f [] h e = cc
any-marked p q f (x ∷ xs) h e = ground (arith, h x, any-marked p q f xs h)

any-snoc {ℓ} :
    {A : Type ℓ} (p : A → Bool) (xs : List A) (x : A)
    → (p x ≡ true) ⊎ (any p xs ≡ true)
    → any p (xs ++ x ∷ []) ≡ true
unfolding any
any-snoc p xs x (inl e) = any-append p xs (x ∷ []) ∙ ground (arith, e)
any-snoc p xs x (inr e) = any-append p xs (x ∷ []) ∙ ground (arith, e)

module _ {F : Type 0} where
  -- The job waits, resumes, and its local path ends with the name.
  abbrev pub resumes : Text → Job F → Bool
  resumes name j =
      ends_with j.local_path name && (is_waiting j.state && is_resume j.overwrite_policy)

  resume_partial-resumes :
      (zero_rate : F) (host name : Text) (q : Queue F)
      → any (resumes name) (resume_partial zero_rate host name q).jobs ≡ true
  unfolding resume_partial mark_resume is_resumable
  resume_partial-resumes zero_rate host name q =
      elim (Bool-cases (any (is_resumable name) q.jobs)) [
        | inl e ↦
            rw (e, resume_partial)
              (any-marked (is_resumable name) (resumes name) mark_resume q.jobs
                (λ x p. ground arith) e)
        | inr e ↦
            rw (e, resume_partial)
              (any-snoc (resumes name) q.jobs _
                (inl (ground (arith, ends_with-append (codes "/Downloads/") name))))
      ]

  resume_partial-keeps :
      (zero_rate : F) (host name other : Text) (q : Queue F)
      → any (resumes other) q.jobs ≡ true
      → any (resumes other) (resume_partial zero_rate host name q).jobs ≡ true
  unfolding resume_partial mark_resume is_resumable
  resume_partial-keeps zero_rate host name other q h =
      elim (Bool-cases (any (is_resumable name) q.jobs)) [
        | inl e ↦
            rw (e, resume_partial)
              (any-mark (is_resumable name) (resumes other) mark_resume q.jobs
                (λ x p k. ground arith) h)
        | inr e ↦ rw (e, resume_partial) (any-snoc (resumes other) q.jobs _ (inr h))
      ]

  resume_orphans-keeps :
      (zero_rate : F) (file_stem : Text → Option Text) (host other : Text) (paths : List Text)
      (q : Queue F)
      → any (resumes other) q.jobs ≡ true
      → any (resumes other) (resume_orphans zero_rate file_stem host paths q).jobs ≡ true
  unfolding resume_orphans
  resume_orphans-keeps zero_rate file_stem host other [] q h = h
  resume_orphans-keeps zero_rate file_stem host other (p ∷ ps) q h =
      resume_orphans-keeps zero_rate file_stem host other ps
        (resume_partial zero_rate host (partial_name (file_stem p)) q)
        (resume_partial-keeps zero_rate host (partial_name (file_stem p)) other q h)

  -- After the partials of a list of paths were resumed, each of them has a job in the queue that
  -- waits, whose policy is to resume, and whose local path ends with the partial's name.
  pub resume_orphans-All :
      (zero_rate : F) (file_stem : Text → Option Text) (host : Text) (paths : List Text)
      (q : Queue F)
      → All
          (λ p.
            any
              (resumes (partial_name (file_stem p)))
              (resume_orphans zero_rate file_stem host paths q).jobs
            ≡ true)
          paths
  unfolding resume_orphans
  resume_orphans-All zero_rate file_stem host [] q = tt
  resume_orphans-All zero_rate file_stem host (p ∷ ps) q =
      let next = resume_partial zero_rate host (partial_name (file_stem p)) q in
      (
        resume_orphans-keeps zero_rate file_stem host (partial_name (file_stem p)) ps next
            (resume_partial-resumes zero_rate host (partial_name (file_stem p)) q),
        resume_orphans-All zero_rate file_stem host ps next,
      )
