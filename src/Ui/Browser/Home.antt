-- ===== src/Ui/Browser/Home.antt =====
-- crates/mk-ui/src/store.rs: the hosts that the browser names, through the parts of its operations.
use m_kestrel.Prelude.{
  ℕ, ℤ, Bool, true, List, [], ◌∷◌, map, Text, ◌==◌, text_eq, any, update_first, ◌≡◌, refl, sym, ap,
  subst, inl, inr, Bool-cases, Option-cases, All, All-append, arith,
}
use m_kestrel.Core.Host.{Host, HostStatus, Entry}
use m_kestrel.Core.Recent.{normalize_path}
use m_kestrel.Ui.Browser.{
  Browser, Task, commit, load, size, show_entries, apply_pending_select, mark_host_status,
  mark_host, set_host_free, selected_host, commit_cwd_if_readable, start_task,
}
use m_kestrel.Ui.Browser.Places.{}

abbrev pub ids : List Host → List Text
ids = map (λ h. h.id)

abbrev pub IsIn : List Text → Text → Type 0
IsIn known id = any (λ i. i == id) known ≡ true

-- The host to whose directory a task leads back.
abbrev pub TaskIn : List Text → Task → Type 0
TaskIn known (commit host path from_host from_cwd) = IsIn known from_host
TaskIn known (load select host path) = Unit {0}
TaskIn known (size select host path entries) = Unit {0}

pub record Names (known : List Text) (selected : Text) (history : List (Text × Text))
    (in_flight : List Task) : Type 0 where
  pub selected_in : IsIn known selected
  pub history_in : All (λ place. IsIn known place.0) history
  pub tasks_in : All (TaskIn known) in_flight

-- The selected host is one of the hosts, and so is every host that the history leads back to.
abbrev pub IsHome : Browser → Type 0
IsHome s = Names (ids s.hosts) s.selected_host_id s.history s.in_flight

pub select-IsHome : (s : Browser) → IsHome s → IsHome (apply_pending_select s)
unfolding apply_pending_select
select-IsHome s h = elim (Option-cases s.pending_select) [ inl e ↦ rw e h | inr (name, e) ↦ rw e h ]

pub start-IsHome :
    (t : Task) (s : Browser) → TaskIn (ids s.hosts) t → IsHome s → IsHome (start_task t s)
start-IsHome t s k h = record {
  selected_in = h.selected_in;
  history_in = h.history_in;
  tasks_in = All-append _ s.in_flight (t ∷ []) h.tasks_in (k, tt);
}

pub commit-IsHome : (path : Text) (s : Browser) → IsHome s → IsHome (commit_cwd_if_readable path s)
unfolding commit_cwd_if_readable
commit-IsHome path s h = elim (Bool-cases (normalize_path path == normalize_path s.cwd)) [
  | inl e ↦ rw e (select-IsHome s h)
  | inr e ↦ elim (Option-cases (selected_host s)) [
    | inl n ↦ rw (e, n) h
    | inr (host, o) ↦
        rw (e, o) (start-IsHome (commit host path s.selected_host_id s.cwd) s h.selected_in h)
  ]
]

-- A host that keeps its id.
ids-update_first :
    (p : Host → Bool) (f : Host → Host) (hosts : List Host)
    → ((h : Host) → (f h).id ≡ h.id)
    → ids (update_first p f hosts) ≡ ids hosts
unfolding update_first
ids-update_first p f [] same = refl
ids-update_first p f (h ∷ hosts) same = elim (Bool-cases (p h)) [
  | inl e ↦ rw e (ap (λ i. i ∷ ids hosts) (same h))
  | inr e ↦ rw e (ap (◌∷◌ h.id) (ids-update_first p f hosts same))
]

mark_host-id : (now : ℤ) (status : HostStatus) (h : Host) → (mark_host now status h).id ≡ h.id
unfolding mark_host
mark_host-id now status h = ground arith

pub mark-IsHome :
    (now : ℤ) (id : Text) (status : HostStatus) (s : Browser)
    → IsHome s
    → IsHome (mark_host_status now id status s)
unfolding mark_host_status
mark-IsHome now id status s h =
    subst (λ known. Names known s.selected_host_id s.history s.in_flight)
      (sym (
        ids-update_first (λ x. x.id == id) (mark_host now status) s.hosts
          (mark_host-id now status)))
      h

pub free-IsHome : (id : Text) (free : ℕ) (s : Browser) → IsHome s → IsHome (set_host_free id free s)
unfolding set_host_free
free-IsHome id free s h =
    subst (λ known. Names known s.selected_host_id s.history s.in_flight)
      (sym (ids-update_first (λ x. x.id == id) _ s.hosts (λ x. refl))) h

pub show-IsHome :
    (select : Bool) (path : Text) (entries : List Entry) (s : Browser)
    → IsHome s
    → IsHome (show_entries select path entries s)
unfolding show_entries
show-IsHome select path entries s h = elim (Bool-cases (s.cwd == path)) [
  | inl e ↦ elim (Bool-cases select) [ inl y ↦ rw (e, y) (select-IsHome _ h) | inr n ↦ rw (e, n) h ]
  | inr e ↦ rw e h
]
