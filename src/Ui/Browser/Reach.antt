-- ===== src/Ui/Browser/Reach.antt =====
-- crates/mk-ui/src/store.rs: navigation as a step relation, where the answers of the backend come in any
-- order.
use m_kestrel.Prelude.{ℕ, ℤ, List, ◌∷◌, ◌++◌, Option, Text, text_eq, Result, ◌≡◌}
use m_kestrel.Core.Host.{Host, Entry, EntryKind}
use m_kestrel.Ui.Browser.{
  Browser, Task, HostKeyPrompt, commit, load, size, commit_answered, load_answered, size_answered,
  back, reload, navigate_to, go_up, open_dir,
}
use m_kestrel.Ui.Browser.Places.{select_host, open_recent, open_bookmark}

module _ (parse : Text → Option HostKeyPrompt) where
  -- What the backend answers to a task: a listing or its error, or the size of the file system.
  abbrev answered : ℤ → Task → Result (List Entry) Text → Option ℕ → Browser → Browser
  answered now (commit host path from_host from_cwd) answer free =
      commit_answered now host path from_host from_cwd answer
  answered now (load select host path) answer free = load_answered parse now select host path answer
  answered now (size select host path entries) answer free =
      size_answered select host path entries free

  -- A call of an operation, or the answer to one of the tasks in flight.
  pub data NavStep (s : Browser) : Browser → Type 0 where
    navigated : (path : Text) → NavStep s (navigate_to path s)
    opened : (name : Text) → NavStep s (open_dir name s)
    went_up : NavStep s (go_up s)
    went_back : (now : ℤ) → NavStep s (back now s)
    reloaded : NavStep s (reload s)
    host_selected : (now : ℤ) (id : Text) → NavStep s (select_host now id s)
    recent_opened : (now : ℤ) (host_id path : Text) → NavStep s (open_recent now host_id path s)
    bookmark_opened :
        (host_id path : Text) (kind : EntryKind) → NavStep s (open_bookmark host_id path kind s)
    answer_came :
        (now : ℤ) (before after : List Task) (t : Task) (answer : Result (List Entry) Text)
        (free : Option ℕ)
        → s.in_flight ≡ before ++ t ∷ after
        → NavStep s (answered now t answer free (record s { in_flight = before ++ after }))

  pub data NavReach (start : Browser) : Browser → Type 0 where
    here : NavReach start start
    next : {s t : Browser} → NavReach start s → NavStep s t → NavReach start t
