-- ===== src/Core/Persistence/Strip.antt =====
-- crates/mk-core/src/persistence.rs: what a restored store holds after `sanitize_jobs` and
-- `strip_fixtures`.
use m_kestrel.Prelude.{
  true, false, List, [], ◌∷◌, map, ◌≡◌, refl, ap, ap₂, ◌∙◌, ◌⊎◌, inl, inr, Text, arith, Bool-cases,
  All, filter, filter-All, filter_self, filter-filter, any, text_beq_refl, text_beq,
}
use m_kestrel.Core.Host.{Host}
use m_kestrel.Core.Job.{Job, is_running}
use m_kestrel.Core.Persistence.{
  StoredState, sanitize_job, sanitize_jobs, real_ids, among, first_or, select_first, strip_fixtures,
  drop_fixtures,
}

real_ids-filter : (hs : List Host) → real_ids (filter (λ h. h.is_real) hs) ≡ real_ids hs
unfolding real_ids
real_ids-filter hs = ap (map (λ h. h.id)) (filter-filter (λ h. h.is_real) hs)

module _ {F : Type 0} where
  sanitize_job-stops : (j : Job F) → is_running (sanitize_job j).state ≡ false
  unfolding sanitize_job
  sanitize_job-stops j = ground arith

  sanitize_job-kept : (j : Job F) → is_running j.state ≡ false → sanitize_job j ≡ j
  unfolding sanitize_job
  sanitize_job-kept j h = ground arith

  map-sanitize-stops :
      (js : List (Job F)) → All (λ j. is_running j.state ≡ false) (map sanitize_job js)
  map-sanitize-stops [] = tt
  map-sanitize-stops (j ∷ js) = (sanitize_job-stops j, map-sanitize-stops js)

  map-sanitize-kept :
      (js : List (Job F)) → All (λ j. is_running j.state ≡ false) js → map sanitize_job js ≡ js
  map-sanitize-kept [] h = refl
  map-sanitize-kept (j ∷ js) h = ap₂ ◌∷◌ (sanitize_job-kept j h.0) (map-sanitize-kept js h.1)

  -- A restored queue has no running job.
  pub sanitize_jobs-stops :
      (s : StoredState F) → All (λ j. is_running j.state ≡ false) (sanitize_jobs s).jobs
  unfolding sanitize_jobs
  sanitize_jobs-stops s = map-sanitize-stops s.jobs

abbrev pub HasSelection : {F : Type 0} → StoredState F → Type 0
HasSelection s =
    (any (λ h. text_beq h.id s.selected_host_id) s.hosts ≡ true)
    ⊎ ((s.hosts ≡ []) × (s.selected_host_id ≡ []) × (s.cwd ≡ []))

-- The hosts are real, and what names a host names one of them.
pub record IsReal {F : Type 0} (s : StoredState F) : Type 0 where
  pub hosts : All (λ h. h.is_real ≡ true) s.hosts
  pub jobs : All (λ j. among (real_ids s.hosts) j.host_id ≡ true) s.jobs
  pub recents : All (λ r. among (real_ids s.hosts) r.host_id ≡ true) s.recents
  pub bookmarks : All (λ b. among (real_ids s.hosts) b.host_id ≡ true) s.bookmarks

-- What `strip_fixtures` promises of the store that it leaves.
pub record IsStripped {F : Type 0} (s : StoredState F) : Type 0 where
  pub real : IsReal s
  pub stopped : All (λ j. is_running j.state ≡ false) s.jobs
  pub selected : HasSelection s

drop_fixtures-IsReal : {F : Type 0} (s : StoredState F) → IsReal (drop_fixtures s)
unfolding drop_fixtures
drop_fixtures-IsReal s = record {
  hosts = filter-All (λ h. h.is_real) s.hosts;
  jobs = rw (real_ids-filter s.hosts) (filter-All _ s.jobs);
  recents = rw (real_ids-filter s.hosts) (filter-All _ s.recents);
  bookmarks = rw (real_ids-filter s.hosts) (filter-All _ s.bookmarks);
}

-- The first host becomes the selected one, or nothing changes.
select_first_cases {ℓ} :
    {F : Type 0} (P : StoredState F → Type ℓ) (s : StoredState F)
    → (any (λ h. text_beq h.id s.selected_host_id) s.hosts ≡ true → P s)
    → P (record s {
      selected_host_id = first_or (λ h. h.id) s.hosts;
      cwd = first_or (λ h. h.initial_path) s.hosts;
    })
    → P (select_first s)
unfolding select_first
select_first_cases P s kept moved =
    elim (Bool-cases (any (λ h. text_beq h.id s.selected_host_id) s.hosts)) [
      | inl e ↦ rw (e, select_first) (kept e)
      | inr e ↦ rw (e, select_first) moved
    ]

select_first-IsReal : {F : Type 0} (s : StoredState F) → IsReal s → IsReal (select_first s)
select_first-IsReal s r =
    select_first_cases IsReal s (λ _. r)
      (record { hosts = r.hosts; jobs = r.jobs; recents = r.recents; bookmarks = r.bookmarks })

first_selected :
    {F : Type 0} (s : StoredState F) (hs : List Host)
    → HasSelection (record s {
      hosts = hs;
      selected_host_id = first_or (λ h. h.id) hs;
      cwd = first_or (λ h. h.initial_path) hs;
    })
unfolding any
first_selected s [] = inr (refl, refl, refl)
first_selected s (h ∷ hs) = inl (rw (text_beq_refl h.id))

select_first-HasSelection : {F : Type 0} (s : StoredState F) → HasSelection (select_first s)
select_first-HasSelection s = select_first_cases HasSelection s inl (first_selected s s.hosts)

map-sanitize-among :
    {F : Type 0} (ids : List Text) (js : List (Job F))
    → All (λ j. among ids j.host_id ≡ true) js
    → All (λ j. among ids j.host_id ≡ true) (map sanitize_job js)
unfolding sanitize_job
map-sanitize-among ids [] h = tt
map-sanitize-among ids (j ∷ js) h = (ground arith, map-sanitize-among ids js h.1)

sanitize_jobs-IsStripped :
    {F : Type 0} (s : StoredState F) → IsReal s → HasSelection s → IsStripped (sanitize_jobs s)
unfolding sanitize_jobs
sanitize_jobs-IsStripped s r sel = record {
  real = record {
    hosts = r.hosts;
    jobs = map-sanitize-among (real_ids s.hosts) s.jobs r.jobs;
    recents = r.recents;
    bookmarks = r.bookmarks;
  };
  stopped = map-sanitize-stops s.jobs;
  selected = sel;
}

-- Stripping leaves real hosts only, only jobs, recents and bookmarks of those, no running job, and a
-- selected host that is there, unless no host is left.
pub strip_fixtures-IsStripped : {F : Type 0} (s : StoredState F) → IsStripped (strip_fixtures s)
unfolding strip_fixtures
strip_fixtures-IsStripped s =
    sanitize_jobs-IsStripped _ (select_first-IsReal _ (drop_fixtures-IsReal s))
      (select_first-HasSelection (drop_fixtures s))

drop_fixtures_fixed : {F : Type 0} (s : StoredState F) → IsReal s → drop_fixtures s ≡ s
unfolding drop_fixtures
drop_fixtures_fixed s r = ground (
  arith,
  filter_self (λ h. h.is_real) s.hosts r.hosts,
  filter_self (λ j. among (real_ids s.hosts) j.host_id) s.jobs r.jobs,
  filter_self (λ x. among (real_ids s.hosts) x.host_id) s.recents r.recents,
  filter_self (λ b. among (real_ids s.hosts) b.host_id) s.bookmarks r.bookmarks,
)

select_first_fixed : {F : Type 0} (s : StoredState F) → HasSelection s → select_first s ≡ s
unfolding select_first any
select_first_fixed s (inl e) = rw (e, select_first)
select_first_fixed s (inr (none_left, id, cwd)) = ground arith

sanitize_jobs_fixed :
    {F : Type 0} (s : StoredState F)
    → All (λ j. is_running j.state ≡ false) s.jobs
    → sanitize_jobs s ≡ s
unfolding sanitize_jobs
sanitize_jobs_fixed s h = ground (arith, map-sanitize-kept s.jobs h)

strip_fixtures_fixed : {F : Type 0} (t : StoredState F) → IsStripped t → strip_fixtures t ≡ t
unfolding strip_fixtures
strip_fixtures_fixed t v =
    ap (λ u. sanitize_jobs (select_first u)) (drop_fixtures_fixed t v.real)
    ∙ ap sanitize_jobs (select_first_fixed t v.selected)
    ∙ sanitize_jobs_fixed t v.stopped

-- Stripping a second time changes nothing.
pub strip_fixtures_idem :
    {F : Type 0} (s : StoredState F) → strip_fixtures (strip_fixtures s) ≡ strip_fixtures s
strip_fixtures_idem s = strip_fixtures_fixed (strip_fixtures s) (strip_fixtures-IsStripped s)
