-- ===== src/Ui/Browser/Stale.antt =====
-- crates/mk-ui/src/store.rs: answers that come late.
use m_kestrel.Prelude.{
  ne_text, ℤ, Bool, List, [], ◌∷◌, ◌++◌, reverse, reverse-append, reverse-reverse, Option, Text,
  text_eq, Result, ok, err, ◌≡◌, ◌≢◌, refl, sym, ap, ◌∙◌, inl, inr, Option-cases,
}
use m_kestrel.Core.Host.{Host, Entry}
use m_kestrel.Ui.Listing.{without_dot_dirs}
use m_kestrel.Ui.Browser.{
  Browser, HostKeyPrompt, loaded, commit_answered, load_answered, set_cwd, moved_to, back,
  apply_pending_select, mark_host_status, remember_cwd, selected_host, tail,
}

select_keeps :
    (s : Browser)
    → ((apply_pending_select s).cwd ≡ s.cwd)
      × ((apply_pending_select s).listing ≡ s.listing)
      × ((apply_pending_select s).selected_host_id ≡ s.selected_host_id)
      × ((apply_pending_select s).history ≡ s.history)
unfolding apply_pending_select
select_keeps s = elim (Option-cases s.pending_select) [
  | inl e ↦ rw e (refl, refl, refl, refl)
  | inr (name, e) ↦ rw e (refl, refl, refl, refl)
]

-- The answer to the listing of a directory of one host moves the browser there, whichever host is
-- selected by then: the directory and its entries are shown under the selected host.
pub commit_answered_other_host :
    (now : ℤ) (host : Host) (path from_host from_cwd : Text) (entries : List Entry) (s : Browser)
    → s.selected_host_id ≢ host.id
    → let after = commit_answered now host path from_host from_cwd (ok entries) s in
      (after.cwd ≡ path)
      × (after.listing ≡ loaded (without_dot_dirs entries))
      × (after.selected_host_id ≢ host.id)
unfolding commit_answered mark_host_status remember_cwd
commit_answered_other_host now host path from_host from_cwd entries s other =
    let kept = select_keeps _ in (kept.0, kept.1, λ e. other (sym kept.2 ∙ e))

-- An answer for a directory that is not the current one any more changes nothing, and neither does
-- the answer that a directory cannot be entered.
pub late_answers :
    (parse : Text → Option HostKeyPrompt) (now : ℤ) (select : Bool) (host : Host)
    (path from_host from_cwd message : Text) (answer : Result (List Entry) Text) (s : Browser)
    → s.cwd ≢ path
    → (load_answered parse now select host path answer s ≡ s)
      × (commit_answered now host path from_host from_cwd (err message) s ≡ s)
unfolding load_answered commit_answered
late_answers parse now select host path from_host from_cwd message (ok entries) s h =
    (rw (ne_text s.cwd path h) refl, refl)
late_answers parse now select host path from_host from_cwd message (err e) s h =
    (rw (ne_text s.cwd path h) refl, refl)

set_cwd_keeps :
    (now : ℤ) (path : Text) (s : Browser)
    → ((set_cwd now path s).cwd ≡ path)
      × ((set_cwd now path s).selected_host_id ≡ s.selected_host_id)
      × ((set_cwd now path s).history ≡ s.history)
unfolding set_cwd
set_cwd_keeps now path s = elim (Option-cases (selected_host (moved_to now path s))) [
  | inl e ↦ rw (e, set_cwd) (refl, refl, refl)
  | inr (host, e) ↦ rw (e, set_cwd) (refl, refl, refl)
]

last-snoc :
    (front : List (Text × Text)) (x : Text × Text) → reverse (front ++ x ∷ []) ≡ x ∷ reverse front
last-snoc front x = reverse-append front (x ∷ [])

back_last :
    (now : ℤ) (s : Browser) (front : List (Text × Text)) (host path : Text)
    → s.history ≡ front ++ (host, path) ∷ []
    → ((back now s).selected_host_id ≡ host)
      × ((back now s).cwd ≡ path)
      × ((back now s).history ≡ front)
unfolding back
back_last now s front host path e =
    let turned : reverse s.history ≡ (host, path) ∷ reverse front =
      ap reverse e ∙ last-snoc front (host, path) in
    let start = λ (h : List (Text × Text)). record s { history = h; selected_host_id = host } in
    let opened : back now s ≡ set_cwd now path (start (reverse (reverse front))) =
      rw (turned, back) (ap (λ h. set_cwd now path (start (reverse (tail h)))) turned) in
    let same = opened ∙ ap (λ h. set_cwd now path (start h)) (reverse-reverse front) in
    let kept = set_cwd_keeps now path (start front) in
    (
      ap (λ x. x.selected_host_id) same ∙ kept.1,
      ap (λ x. x.cwd) same ∙ kept.0,
      ap (λ x. x.history) same ∙ kept.2,
    )

-- Going back after a directory was entered selects the host and the directory from where it was
-- entered, and leaves the history as it was before.
pub back-commit_answered :
    (now now' : ℤ) (host : Host) (path from_host from_cwd : Text) (entries : List Entry)
    (s : Browser)
    → let after = back now' (commit_answered now host path from_host from_cwd (ok entries) s) in
      (after.selected_host_id ≡ from_host) × (after.cwd ≡ from_cwd) × (after.history ≡ s.history)
unfolding commit_answered mark_host_status remember_cwd
back-commit_answered now now' host path from_host from_cwd entries s =
    back_last now' (commit_answered now host path from_host from_cwd (ok entries) s) s.history
      from_host from_cwd ((select_keeps _).3)
