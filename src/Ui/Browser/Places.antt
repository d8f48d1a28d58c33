-- ===== src/Ui/Browser/Places.antt =====
-- crates/mk-ui/src/store.rs: the choice of a host, of a recent folder or of a bookmark, and the bookmark
-- of an entry. The clock is an argument.
use m_kestrel.Prelude.{
  ℤ, Bool, true, false, ◌&&◌, List, [], none, some, Text, if◌then◌else◌, ◌==◌, text_eq, find,
  lookup,
}
use m_kestrel.Core.Host.{Host, HostStatus, Entry, EntryKind}
use m_kestrel.Core.Recent.{folder_name}
use m_kestrel.Core.Bookmark.{contains, add, remove}
use m_kestrel.Ui.Enqueue.{child_path, is_dir, is_none}
use m_kestrel.Ui.Hosts.{Dialog, is_password}
use m_kestrel.Ui.Browser.{
  Browser, Listing, Place, loading, loaded, open_dialog, reload, remember_cwd, set_cwd,
  commit_cwd_if_readable, parent_of,
}

-- A host for which a password must be asked first.
unfoldable pub needs_password : Text → Host → Browser → Bool
needs_password id host s = host.is_real && is_password host.auth && is_none (lookup id s.vault)

abbrev pub is_listing : Place → Bool
is_listing Place.listing = true
is_listing _ = false

-- The directory where a host starts.
unfoldable pub enter_host : ℤ → Host → Browser → Browser
unfolding remember_cwd reload
enter_host now host s = reload (remember_cwd now (record s { cwd = host.initial_path }))

-- The host that is selected already: from another place its listing is shown again.
unfoldable pub select_again : ℤ → Host → Browser → Browser
unfolding enter_host open_dialog
select_again now host s =
    let there = record s { place = Place.listing } in
    if is_listing s.place
    then (elim host.status [
      | HostStatus.mounted ↦ open_dialog (Dialog.disconnect host.id host.name) there
      | HostStatus.unreachable ↦ open_dialog (Dialog.disconnect host.id host.name) there
      | HostStatus.idle ↦ enter_host now host there
      | HostStatus.stale ↦ open_dialog (Dialog.remount host.id) there
    ])
    else there

unfoldable pub select_other : ℤ → Text → Host → Browser → Browser
unfolding needs_password open_dialog enter_host
select_other now id host s =
    if needs_password id host s
    then open_dialog (Dialog.host_password id []) s
    else enter_host now host
        (record s { place = Place.listing; selected_host_id = id; selection = [] })

unfoldable pub select_host : ℤ → Text → Browser → Browser
unfolding select_again select_other
select_host now id s = elim (find (λ h. h.id == id) s.hosts) [
  | none ↦ s
  | some host ↦
      if s.selected_host_id == id then select_again now host s else select_other now id host s
]

-- The common start of `open_recent` and `open_bookmark`: the host is selected, `true`, or it is unknown
-- or waits for its password.
unfoldable pub go_to_host : Text → Browser → Bool × Browser
unfolding needs_password open_dialog
go_to_host host_id s =
    let there = record s { place = Place.listing; hosts_sheet = false } in
    if s.selected_host_id == host_id
    then (true, there)
    else elim (find (λ h. h.id == host_id) s.hosts) [
      | none ↦ (false, there)
      | some host ↦
          if needs_password host_id host s
          then (false, open_dialog (Dialog.host_password host_id []) there)
          else (true, record there { selected_host_id = host_id })
    ]

unfoldable pub open_recent : ℤ → Text → Text → Browser → Browser
unfolding go_to_host set_cwd
open_recent now host_id path s =
    let gone = go_to_host host_id s in if gone.0 then set_cwd now path gone.1 else gone.1

-- A file is shown in its directory, selected.
unfoldable pub open_bookmark : Text → Text → EntryKind → Browser → Browser
unfolding go_to_host commit_cwd_if_readable parent_of
open_bookmark host_id path kind s =
    let gone = go_to_host host_id s in
    if gone.0
    then (if is_dir kind
        then commit_cwd_if_readable path gone.1
        else commit_cwd_if_readable (parent_of path)
            (record gone.1 { pending_select = some (folder_name path) }))
    else gone.1

abbrev current_listing : Listing → List Entry
current_listing loading = []
current_listing (loaded entries) = entries

unfoldable pub toggle_bookmark : ℤ → Text → Browser → Browser
unfolding child_path contains add remove
toggle_bookmark now name s = elim (find (λ e. e.name == name) (current_listing s.listing)) [
  | none ↦ s
  | some entry ↦
      let path = child_path s.cwd name in
      let pinned =
        if contains s.bookmarks s.selected_host_id path
        then (remove s.bookmarks s.selected_host_id path).0
        else (add s.bookmarks s.selected_host_id path entry.kind now).0 in
      record s { bookmarks = pinned; dialog = none }
]
