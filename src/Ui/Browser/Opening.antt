-- ===== src/Ui/Browser/Opening.antt =====
-- crates/mk-ui/src/store.rs: every operation of navigation leaves the browser at a host that is there.
use m_kestrel.Prelude.{
  ◌⊎◌, is_empty, codes, ℤ, true, false, not, ◌||◌, List, [], ◌∷◌, reverse, reverse-cons, some, Text,
  ◌==◌, text_eq, any, find, ◌≡◌, refl, subst, inl, inr, Bool-cases, Option-cases, All, All-append,
  arith,
}
use m_kestrel.Core.Host.{Host, HostStatus, EntryKind}
use m_kestrel.Ui.Enqueue.{is_dir}
use m_kestrel.Ui.Browser.{
  child_path, Browser, Place, load, set_cwd, moved_to, back, reload, selected_host, navigate_to,
  go_up, open_dir, remember_cwd, open_dialog, under_mount, parent_of, at_mount_root,
}
use m_kestrel.Core.Recent.{folder_name}
use m_kestrel.Ui.Hosts.{Dialog}
use m_kestrel.Ui.Browser.Places.{
  select_host, select_again, select_other, enter_host, is_listing, open_recent, open_bookmark,
  go_to_host, needs_password,
}
use m_kestrel.Ui.Browser.Home.{ids, IsIn, IsHome, start-IsHome, commit-IsHome}

pub reload-IsHome : (s : Browser) → IsHome s → IsHome (reload s)
unfolding reload
reload-IsHome s h = elim (Option-cases (selected_host s)) [
  | inl e ↦ rw (reload, e) h
  | inr (host, e) ↦ rw (reload, e) (start-IsHome (load false host s.cwd) s tt h)
]

pub set_cwd-IsHome : (now : ℤ) (path : Text) (s : Browser) → IsHome s → IsHome (set_cwd now path s)
unfolding set_cwd
set_cwd-IsHome now path s h = elim (Option-cases (selected_host (moved_to now path s))) [
  | inl e ↦ rw (e, set_cwd) h
  | inr (host, e) ↦ rw (e, set_cwd) (start-IsHome (load true host path) (moved_to now path s) tt h)
]

pub navigate_to-IsHome : (path : Text) (s : Browser) → IsHome s → IsHome (navigate_to path s)
unfolding navigate_to
navigate_to-IsHome path s h = elim (Option-cases (selected_host s)) [
  | inl e ↦ rw (navigate_to, e) h
  | inr (host, e) ↦ elim (Bool-cases (under_mount path host.initial_path)) [
    | inl u ↦ rw (navigate_to, e, u) (commit-IsHome path s h)
    | inr u ↦ rw (navigate_to, e, u) h
  ]
]

pub go_up-IsHome : (s : Browser) → IsHome s → IsHome (go_up s)
unfolding go_up
go_up-IsHome s h = elim (Option-cases (selected_host s)) [
  | inl e ↦ rw (go_up, e) h
  | inr (host, e) ↦
      elim (Bool-cases (
        at_mount_root host s
        || parent_of s.cwd == s.cwd
        || not (under_mount (parent_of s.cwd) host.initial_path))) [
          | inl u ↦ rw (go_up, e, u) h
          | inr u ↦ rw (go_up, e, u) (commit-IsHome (parent_of s.cwd) s h)
        ]
]

pub open_dir-IsHome : (name : Text) (s : Browser) → IsHome s → IsHome (open_dir name s)
unfolding open_dir
open_dir-IsHome name s h = elim (Bool-cases (name == codes "..")) [
  | inl up ↦ rw up (go_up-IsHome s h)
  | inr down ↦ elim (Bool-cases (name == codes "." || is_empty name)) [
    | inl stay ↦ rw (down, stay) h
    | inr go ↦ rw (down, go) (commit-IsHome (child_path s.cwd name) s h)
  ]
]

All-reverse : (P : Text × Text → Type 0) (l : List (Text × Text)) → All P l → All P (reverse l)
All-reverse P [] h = tt
All-reverse P (x ∷ l) h =
    rw (reverse-cons x l) (All-append P (reverse l) (x ∷ []) (All-reverse P l h.1) (h.0, tt))

reversed_cases :
    (l : List (Text × Text))
    → (l ≡ []) ⊎ ((x : Text × Text) × (rest : List (Text × Text)) × (l ≡ x ∷ rest))
reversed_cases [] = inl refl
reversed_cases (x ∷ l) = inr (x, l, refl)

pub back-IsHome : (now : ℤ) (s : Browser) → IsHome s → IsHome (back now s)
unfolding back
back-IsHome now s h = elim (reversed_cases (reverse s.history)) [
  | inl e ↦ rw (e, back) h
  | inr (place, front, e) ↦
      let kept =
        subst (All (λ p. IsIn (ids s.hosts) p.0)) e (All-reverse _ s.history h.history_in) in
      rw (e, back, e)
        (set_cwd-IsHome now place.1
          (record s { history = reverse front; selected_host_id = place.0 })
          (record {
            selected_in = kept.0;
            history_in = All-reverse _ front kept.1;
            tasks_in = h.tasks_in;
          }))
]

-- The host that `find` finds by an id.
find-IsIn :
    (id : Text) (hosts : List Host) (host : Host)
    → find (λ h. h.id == id) hosts ≡ some host
    → IsIn (ids hosts) id
unfolding find any
find-IsIn id [] host e = absurd (ground arith)
find-IsIn id (h ∷ hosts) host e = ground (arith, find-IsIn id hosts host)

enter_host-IsHome :
    (now : ℤ) (host : Host) (s : Browser) → IsHome s → IsHome (enter_host now host s)
unfolding enter_host remember_cwd
enter_host-IsHome now host s h =
    reload-IsHome (remember_cwd now (record s { cwd = host.initial_path })) h

asked-IsHome :
    (now : ℤ) (host : Host) (s : Browser)
    → IsHome s
    → (status : HostStatus)
    → IsHome (elim status [
      | HostStatus.mounted ↦ open_dialog (Dialog.disconnect host.id host.name) s
      | HostStatus.unreachable ↦ open_dialog (Dialog.disconnect host.id host.name) s
      | HostStatus.idle ↦ enter_host now host s
      | HostStatus.stale ↦ open_dialog (Dialog.remount host.id) s
    ])
unfolding open_dialog
asked-IsHome now host s h HostStatus.mounted = h
asked-IsHome now host s h HostStatus.unreachable = h
asked-IsHome now host s h HostStatus.idle = enter_host-IsHome now host s h
asked-IsHome now host s h HostStatus.stale = h

select_again-IsHome :
    (now : ℤ) (host : Host) (s : Browser) → IsHome s → IsHome (select_again now host s)
unfolding select_again
select_again-IsHome now host s h = elim (Bool-cases (is_listing s.place)) [
  | inr away ↦ rw (select_again, away) h
  | inl at ↦
      rw (select_again, at)
        (asked-IsHome now host (record s { place = Place.listing }) h host.status)
]

select_other-IsHome :
    (now : ℤ) (id : Text) (host : Host) (s : Browser)
    → IsIn (ids s.hosts) id
    → IsHome s
    → IsHome (select_other now id host s)
unfolding select_other open_dialog
select_other-IsHome now id host s k h = elim (Bool-cases (needs_password id host s)) [
  | inl e ↦ rw e h
  | inr e ↦ rw e (
      enter_host-IsHome now host
        (record s { place = Place.listing; selected_host_id = id; selection = [] })
        (record { selected_in = k; history_in = h.history_in; tasks_in = h.tasks_in }))
]

pub select_host-IsHome :
    (now : ℤ) (id : Text) (s : Browser) → IsHome s → IsHome (select_host now id s)
unfolding select_host
select_host-IsHome now id s h = elim (Option-cases (find (λ x. x.id == id) s.hosts)) [
  | inl e ↦ rw (select_host, e) h
  | inr (host, e) ↦ elim (Bool-cases (s.selected_host_id == id)) [
    | inl same ↦ rw (select_host, e, same) (select_again-IsHome now host s h)
    | inr other ↦
        rw (select_host, e, other)
          (select_other-IsHome now id host s (find-IsIn id s.hosts host e) h)
  ]
]

go_to_host-IsHome : (host_id : Text) (s : Browser) → IsHome s → IsHome (go_to_host host_id s).1
unfolding go_to_host open_dialog
go_to_host-IsHome host_id s h = elim (Bool-cases (s.selected_host_id == host_id)) [
  | inl same ↦ rw (go_to_host, same) h
  | inr other ↦ elim (Option-cases (find (λ x. x.id == host_id) s.hosts)) [
    | inl e ↦ rw (go_to_host, other, e) h
    | inr (host, e) ↦ elim (Bool-cases (needs_password host_id host s)) [
      | inl asks ↦ rw (go_to_host, other, e, asks) h
      | inr free ↦
          rw (go_to_host, other, e, free)
            (record {
              selected_in = find-IsIn host_id s.hosts host e;
              history_in = h.history_in;
              tasks_in = h.tasks_in;
            })
    ]
  ]
]

pub open_recent-IsHome :
    (now : ℤ) (host_id path : Text) (s : Browser)
    → IsHome s
    → IsHome (open_recent now host_id path s)
unfolding open_recent
open_recent-IsHome now host_id path s h =
    let there = go_to_host-IsHome host_id s h in
    elim (Bool-cases (go_to_host host_id s).0) [
      | inl e ↦ rw (open_recent, e) (set_cwd-IsHome now path (go_to_host host_id s).1 there)
      | inr e ↦ rw (open_recent, e) there
    ]

pub open_bookmark-IsHome :
    (host_id path : Text) (kind : EntryKind) (s : Browser)
    → IsHome s
    → IsHome (open_bookmark host_id path kind s)
unfolding open_bookmark
open_bookmark-IsHome host_id path kind s h =
    let gone = (go_to_host host_id s).1 in
    let there = go_to_host-IsHome host_id s h in
    elim (Bool-cases (go_to_host host_id s).0) [
      | inr e ↦ rw (open_bookmark, e) there
      | inl e ↦ elim (Bool-cases (is_dir kind)) [
        | inl d ↦ rw (open_bookmark, e, d) (commit-IsHome path gone there)
        | inr d ↦
            rw (open_bookmark, e, d)
              (commit-IsHome (parent_of path)
                (record gone { pending_select = some (folder_name path) }) there)
      ]
    ]
