-- ===== src/Core/Config.antt =====
-- crates/mk-core/src/config.rs: the portable bundle, and merging one into the live lists. The JSON
-- parser is a parameter.
pub mod Merge
pub mod Reimport
use m_kestrel.Prelude.{
  ℕ, ◌+◌, ℤ, Bool, true, false, ◌&&◌, ◌||◌, not, List, [], ◌∷◌, ◌++◌, map, none, Text,
  if◌then◌else◌, ◌==◌, eqb, text_eq, any, update_first,
}
use m_kestrel.Core.Host.{Host, Protocol, HostStatus, protocol_eq}
use m_kestrel.Core.Settings.{Settings}
use m_kestrel.Core.Credentials.{KnownHost}
use m_kestrel.Core.Bookmark.{Bookmark}
use m_kestrel.Core.Bookmark

-- `CONFIG_VERSION`.
abbrev pub config_version : ℕ
config_version = 1

pub record ConfigBundle : Type 0 where
  pub version : ℕ
  pub exported_at : ℤ
  pub hosts : List Host
  pub settings : Settings
  pub known_hosts : List KnownHost
  pub bookmarks : List Bookmark

pub record ImportResult : Type 0 where
  pub hosts_added : ℕ
  pub hosts_updated : ℕ
  pub known_hosts_added : ℕ
  pub bookmarks_added : ℕ

pub data ConfigError : Type 0 where
  invalid_json : Text → ConfigError
  unsupported_version : ℕ → ConfigError

pub data Result (A : Type 0) : Type 0 where
  ok : A → Result A
  err : ConfigError → Result A

-- Runtime and local-only fields are reset.
unfoldable pub portable_host : Host → Host
portable_host h = record h {
  status = HostStatus.idle;
  free_bytes = none;
  rtt_ms = none;
  mounted_at = none;
  retrans = 0;
  is_real = true;
}

unfoldable pub from_parts : List Host → Settings → List KnownHost → List Bookmark → ℤ → ConfigBundle
from_parts hosts settings known_hosts bookmarks now = record {
  version = config_version;
  exported_at = now;
  hosts = map portable_host hosts;
  settings = settings;
  known_hosts = known_hosts;
  bookmarks = bookmarks;
}

-- `parse` is `serde_json::from_str` with its error as text.
unfoldable pub from_json : (Text → Result ConfigBundle) → Text → Result ConfigBundle
from_json parse raw = elim (parse raw) [
  | err e ↦ err e
  | ok bundle ↦
      if not (eqb bundle.version config_version)
      then err (unsupported_version bundle.version)
      else ok bundle
]

unfoldable pub same_endpoint : Host → Host → Bool
same_endpoint a b =
    if a.protocol == Protocol.file && b.protocol == Protocol.file
    then a.initial_path == b.initial_path
    else a.protocol == b.protocol && a.address == b.address && eqb a.port b.port && a.user == b.user

abbrev pub is_same_host : Host → Host → Bool
is_same_host incoming h = h.id == incoming.id || same_endpoint h incoming

-- The identity fields of the match are overwritten.
abbrev pub overwrite : Host → Host → Host
overwrite incoming existing = record existing {
  name = incoming.name;
  group = incoming.group;
  protocol = incoming.protocol;
  address = incoming.address;
  port = incoming.port;
  user = incoming.user;
  auth = incoming.auth;
  key_id = incoming.key_id;
  initial_path = incoming.initial_path;
  options = incoming.options;
  is_real = true;
}

-- The loop over `bundle.hosts`: the hosts, `hosts_added` and `hosts_updated`.
pub record MergedHosts : Type 0 where
  pub hosts : List Host
  pub added : ℕ
  pub updated : ℕ

unfoldable pub merge_host : MergedHosts → Host → MergedHosts
merge_host m incoming =
    if any (is_same_host incoming) m.hosts
    then record m {
      hosts = update_first (is_same_host incoming) (overwrite incoming) m.hosts;
      updated = m.updated + 1;
    }
    else record m { hosts = m.hosts ++ incoming ∷ []; added = m.added + 1 }

unfoldable pub merge_hosts : MergedHosts → List Host → MergedHosts
unfolding merge_host
merge_hosts m [] = m
merge_hosts m (h ∷ hs) = merge_hosts (merge_host m (portable_host h)) hs

abbrev pub is_same_key : KnownHost → KnownHost → Bool
is_same_key kh k = k.host == kh.host && k.fingerprint == kh.fingerprint

unfoldable pub merge_known_host : List KnownHost × ℕ → KnownHost → List KnownHost × ℕ
merge_known_host (known, added) kh =
    if not (any (is_same_key kh) known) then (known ++ kh ∷ [], added + 1) else (known, added)

unfoldable pub merge_known_hosts : List KnownHost × ℕ → List KnownHost → List KnownHost × ℕ
unfolding merge_known_host
merge_known_hosts m [] = m
merge_known_hosts m (kh ∷ khs) = merge_known_hosts (merge_known_host m kh) khs

unfoldable pub merge_bookmark : List Bookmark × ℕ → Bookmark → List Bookmark × ℕ
merge_bookmark (list, added) b =
    let r = Bookmark.add list b.host_id b.path b.kind b.added_at in
    (r.0, if r.1 then added + 1 else added)

unfoldable pub merge_bookmarks : List Bookmark × ℕ → List Bookmark → List Bookmark × ℕ
unfolding merge_bookmark
merge_bookmarks m [] = m
merge_bookmarks m (b ∷ bs) = merge_bookmarks (merge_bookmark m b) bs

-- The four lists that `merge_import` is given `&mut`, and its result.
pub record Live : Type 0 where
  pub hosts : List Host
  pub settings : Settings
  pub known_hosts : List KnownHost
  pub bookmarks : List Bookmark

unfoldable pub merge_import : Live → ConfigBundle → Live × ImportResult
unfolding merge_hosts merge_known_hosts merge_bookmarks
merge_import live bundle =
    let hosts = merge_hosts (record { hosts = live.hosts; added = 0; updated = 0 }) bundle.hosts in
    let known = merge_known_hosts (live.known_hosts, 0) bundle.known_hosts in
    let marks = merge_bookmarks (live.bookmarks, 0) bundle.bookmarks in
    (
      record {
        hosts = hosts.hosts;
        settings = bundle.settings;
        known_hosts = known.0;
        bookmarks = marks.0;
      },
      record {
        hosts_added = hosts.added;
        hosts_updated = hosts.updated;
        known_hosts_added = known.1;
        bookmarks_added = marks.1;
      },
    )
