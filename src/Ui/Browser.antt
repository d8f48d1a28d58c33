-- ===== src/Ui/Browser.antt =====
-- crates/mk-ui/src/store.rs: navigation, with the listings that are in flight. An operation starts a
-- task in place of a spawned future; `commit_answered`, `load_answered` and `size_answered` are what
-- the future does when its backend has answered, in whatever order. `none` of `selected_host` is the panic of an empty list
-- of hosts, after which nothing happens. The clock and `parse_host_key_error` are arguments.
pub mod Stale
pub mod Places
pub mod Home
pub mod Opening
pub mod Reach
use m_kestrel.Prelude.{
  Table, ℕ, ℤ, Bool, true, false, not, ◌&&◌, ◌||◌, List, [], ◌∷◌, ◌++◌, map, reverse, Option, none,
  some, Text, codes, if◌then◌else◌, ◌==◌, text_eq, eqb, ltb, leb, find, head?, update_first,
  is_empty, starts_with, contains_text, trim_end_matches, split_tail, Result, ok, err,
}
use m_kestrel.Core.Host.{Host, HostStatus, Entry}
use m_kestrel.Core.Recent.{RecentPath, normalize_path, touch}
use m_kestrel.Ui.Enqueue.{child_path, is_none}
use m_kestrel.Ui.Engine.{is_some}
use m_kestrel.Ui.Listing.{without_dot_dirs}
use m_kestrel.Core.Bookmark.{Bookmark}
use m_kestrel.Ui.Hosts.{Dialog}
use m_kestrel.App.Verify.{to_ascii_lowercase}

pub data Listing : Type 0 where
  loading : Listing
  loaded : List Entry → Listing

-- What the main pane shows.
pub data Place : Type 0 where
  listing recent bookmarks : Place

pub record HostKeyPrompt : Type 0 where
  pub changed : Bool
  pub host : Text
  pub port : ℕ
  pub key_type : Text
  pub fingerprint : Text
  pub old : Option Text

-- What a spawned future waits for: the listing of `commit_cwd_if_readable`, with the place it came
-- from; that of `set_cwd` and `reload`, which differ in what they do with a pending selection; or the
-- `statfs` behind it.
pub data Task : Type 0 where
  commit : Host → Text → Text → Text → Task
  load : Bool → Host → Text → Task
  size : Bool → Host → Text → List Entry → Task

pub record Browser : Type 0 where
  pub hosts : List Host
  pub selected_host_id : Text
  pub cwd : Text
  pub history : List (Text × Text)
  pub listing : Listing
  pub listing_error : Option Text
  pub selection : List Text
  pub pending_select : Option Text
  pub recents : List RecentPath
  pub bookmarks : List Bookmark
  pub place : Place
  pub hosts_sheet : Bool
  pub vault : Table Text
  pub dialog : Option Dialog
  pub dialog_error : Option Text
  pub in_flight : List Task

unfoldable pub parent_of : Text → Text
parent_of cwd =
    let t = trim_end_matches (eqb b'/') cwd in
    elim (split_tail b'/' (reverse t)) [
      | none ↦ codes "/"
      | some front ↦ if is_empty front then codes "/" else reverse front
    ]

unfoldable pub under_mount : Text → Text → Bool
under_mount path root =
    let p = normalize_path path in
    let r = normalize_path root in
    if is_empty r || r == codes "/" then true else p == r || starts_with p (r ++ codes "/")

unfoldable pub is_permission_denied : Text → Bool
unfolding to_ascii_lowercase
is_permission_denied message =
    let m = to_ascii_lowercase message in
    contains_text m (codes "permission denied")
    || contains_text m (codes "eacces")
    || contains_text m (codes "13 ·")

unfoldable pub selected_host : Browser → Option Host
selected_host s = elim (find (λ h. h.id == s.selected_host_id) s.hosts) [
  | none ↦ head? s.hosts
  | some h ↦ some h
]

abbrev is_mounted : HostStatus → Bool
is_mounted HostStatus.mounted = true
is_mounted _ = false

-- Any other status only replaces `mounted`.
unfoldable pub mark_host : ℤ → HostStatus → Host → Host
mark_host now status h =
    if is_mounted status
    then record h { status = HostStatus.mounted; mounted_at = some now }
    else (if is_mounted h.status then record h { status = status } else h)

unfoldable pub mark_host_status : ℤ → Text → HostStatus → Browser → Browser
unfolding mark_host
mark_host_status now id status s = record s {
  hosts = update_first (λ h. h.id == id) (mark_host now status) s.hosts;
}

unfoldable pub set_host_free : Text → ℕ → Browser → Browser
set_host_free id free s = record s {
  hosts = update_first (λ h. h.id == id) (λ h. record h { free_bytes = some free }) s.hosts;
}

unfoldable pub remember_cwd : ℤ → Browser → Browser
remember_cwd now s = record s { recents = touch s.recents s.selected_host_id s.cwd now }

unfoldable pub apply_pending_select : Browser → Browser
apply_pending_select s = elim s.pending_select [
  | none ↦ s
  | some name ↦ record s { pending_select = none; selection = name ∷ [] }
]

abbrev pub start_task : Task → Browser → Browser
start_task t s = record s { in_flight = s.in_flight ++ t ∷ [] }

unfoldable pub commit_cwd_if_readable : Text → Browser → Browser
unfolding selected_host apply_pending_select
commit_cwd_if_readable path s =
    if normalize_path path == normalize_path s.cwd
    then apply_pending_select s
    else elim (selected_host s) [
      | none ↦ s
      | some host ↦ start_task (commit host path s.selected_host_id s.cwd) s
    ]

-- The answer to a `commit`.
unfoldable pub commit_answered :
    ℤ → Host → Text → Text → Text → Result (List Entry) Text → Browser → Browser
unfolding remember_cwd apply_pending_select mark_host_status
commit_answered now host path from_host from_cwd (err message) s = s
commit_answered now host path from_host from_cwd (ok entries) s =
    let moved = record s {
      history = s.history ++ (from_host, from_cwd) ∷ [];
      selection = [];
      listing_error = none;
      cwd = path;
    } in
    let shown = record (remember_cwd now moved) { listing = loaded (without_dot_dirs entries) } in
    mark_host_status now host.id HostStatus.mounted (apply_pending_select shown)

unfoldable pub navigate_to : Text → Browser → Browser
unfolding selected_host under_mount commit_cwd_if_readable
navigate_to path s = elim (selected_host s) [
  | none ↦ s
  | some host ↦ if under_mount path host.initial_path then commit_cwd_if_readable path s else s
]

unfoldable pub at_mount_root : Host → Browser → Bool
at_mount_root host s = normalize_path s.cwd == normalize_path host.initial_path

unfoldable pub go_up : Browser → Browser
unfolding selected_host at_mount_root parent_of under_mount commit_cwd_if_readable
go_up s = elim (selected_host s) [
  | none ↦ s
  | some host ↦
      if at_mount_root host s
        || parent_of s.cwd == s.cwd
        || not (under_mount (parent_of s.cwd) host.initial_path)
      then s
      else commit_cwd_if_readable (parent_of s.cwd) s
]

unfoldable pub open_dir : Text → Browser → Browser
unfolding go_up child_path commit_cwd_if_readable
open_dir name s =
    if name == codes ".."
    then go_up s
    else (if name == codes "." || is_empty name
        then s
        else commit_cwd_if_readable (child_path s.cwd name) s)

unfoldable pub moved_to : ℤ → Text → Browser → Browser
unfolding remember_cwd
moved_to now cwd s =
    remember_cwd now
      (record s { selection = []; listing = loading; listing_error = none; cwd = cwd })

unfoldable pub set_cwd : ℤ → Text → Browser → Browser
unfolding moved_to selected_host
set_cwd now cwd s =
    let moved = moved_to now cwd s in
    elim (selected_host moved) [ none ↦ moved | some host ↦ start_task (load true host cwd) moved ]

unfoldable pub reload : Browser → Browser
unfolding selected_host
reload s = elim (selected_host s) [ none ↦ s | some host ↦ start_task (load false host s.cwd) s ]

-- The last entry of the history.
abbrev pub last_of : List (Text × Text) → Option (Text × Text)
last_of h = head? (reverse h)

abbrev pub tail {ℓ} : {A : Type ℓ} → List A → List A
tail [] = []
tail (x ∷ xs) = xs

unfoldable pub back : ℤ → Browser → Browser
unfolding set_cwd
back now s = elim (last_of s.history) [
  | none ↦ s
  | some (host, path) ↦
      set_cwd now path
        (record s { history = reverse (tail (reverse s.history)); selected_host_id = host })
]

-- The end of the futures of `set_cwd`, which applies a pending selection, and of `reload`.
unfoldable pub show_entries : Bool → Text → List Entry → Browser → Browser
unfolding apply_pending_select
show_entries select path entries s =
    if s.cwd == path
    then (let shown = record s { listing = loaded entries } in
        if select then apply_pending_select shown else shown)
    else s

abbrev named_prompt : Host → HostKeyPrompt → HostKeyPrompt
named_prompt host p = if is_empty p.host then record p { host = host.address } else p

unfoldable pub open_dialog : Dialog → Browser → Browser
open_dialog d s = record s { dialog = some d; dialog_error = none }

-- The trust sheet of a message about a host key, which lists the directory again.
unfoldable pub prompted : Host → Option HostKeyPrompt → Browser → Browser
unfolding open_dialog
prompted host none s = s
prompted host (some p) s =
    let named = named_prompt host p in
    open_dialog
      (Dialog.trust_host named.host named.port named.key_type named.fingerprint named.old true) s

-- The answer to a `load`: `list_dir` up to its second await, or to its end.
unfoldable pub load_answered :
    (Text → Option HostKeyPrompt)
    → ℤ
    → Bool
    → Host
    → Text
    → Result (List Entry) Text
    → Browser
    → Browser
unfolding show_entries prompted mark_host_status is_permission_denied
load_answered parse now select host path (ok entries) s =
    let listed = without_dot_dirs entries in
    if s.cwd == path
    then (let there =
          mark_host_status now host.id HostStatus.mounted (record s { listing_error = none }) in
        if host.is_real && is_none host.free_bytes
        then start_task (size select host path listed) there
        else show_entries select path listed there)
    else s
load_answered parse now select host path (err message) s =
    if s.cwd == path
    then (let failed = record (prompted host (parse message) s) { listing_error = some message } in
        show_entries select path [] (
          if is_permission_denied message
          then failed
          else mark_host_status now host.id HostStatus.unreachable failed))
    else s

-- The answer of `statfs`.
unfoldable pub size_answered : Bool → Host → Text → List Entry → Option ℕ → Browser → Browser
unfolding set_host_free show_entries
size_answered select host path entries none s = show_entries select path entries s
size_answered select host path entries (some free) s =
    show_entries select path entries (set_host_free host.id free s)
