-- ===== src/Ui/Hosts.antt =====
-- crates/mk-ui/src/store.rs: the form of a host, the dialogs, and what saving the form changes. The
-- dialogs are those of the enum `Dialog`. `str::to_lowercase` and the clock are arguments; the call of
-- the backend in `accept_host_key`, whose result is dropped, is left out.
pub mod Editing
pub mod Saving
use m_kestrel.Prelude.{
  ◌^◌, ℕ, ◌+◌, ◌*◌, ℤ, Bool, true, false, not, ◌&&◌, ◌||◌, List, [], ◌∷◌, ◌++◌, map, Option, none,
  some, Text, codes, if◌then◌else◌, ◌==◌, text_eq, any, is_empty, contains_text, eqb, ltb, leb,
  trim, parse_u64, decimal, Table, enter, update_first,
}
use m_kestrel.Core.Host.{Host, HostOptions, HostStatus, Protocol, AuthMethod, default_options}
use m_kestrel.Core.Credentials.{KnownHost, KeyType}
use m_kestrel.Core.Job.{Direction}
use m_kestrel.Core.Settings.{OverwritePolicy}
use m_kestrel.Ui.Enqueue.{is_none}

pub data ProbeLine : Type 0 where
  info warn error accent : Text → ProbeLine

pub data ProbeState : Type 0 where
  idle testing success failed : ProbeState

pub record HostDraft : Type 0 where
  pub editing_id : Option Text
  pub name : Text
  pub group : Text
  pub protocol : Protocol
  pub address : Text
  pub port : Text
  pub user : Text
  pub auth : AuthMethod
  pub password : Text
  pub key_id : Text
  pub initial_path : Text
  pub keepalive : Text
  pub options : HostOptions
  pub probe_log : List ProbeLine
  pub probe_state : ProbeState
  pub key_trusted : Bool
  pub pending_fingerprint : Option Text
  pub pending_key_type : Option Text
  pub pending_old_fingerprint : Option Text
  pub error : Option Text

pub data Dialog : Type 0 where
  mkdir : (name : Text) → Dialog
  rename : (from to : Text) → Dialog
  chmod : (path octal : Text) → Dialog
  remove : (name : Text) → Dialog
  bandwidth_limit : (mbps : Text) → Dialog
  new_host : HostDraft → Dialog
  wipe_credentials : Dialog
  remount : (id : Text) → Dialog
  host_password : (host_id password : Text) → Dialog
  conflict :
      (direction : Direction) (name dest remote_path local_path : Text) (bytes_total : ℕ)
      (is_tree apply_all : Bool) (choice : OverwritePolicy)
      → Dialog
  trust_host :
      (host : Text) (port : ℕ) (key_type fingerprint : Text) (old : Option Text) (retry_list : Bool)
      → Dialog
  orphan_partials : (paths : List Text) → Dialog
  disconnect : (id name : Text) → Dialog
  config_notice : (title body : Text) → Dialog
  import_config : (text : Text) → Dialog
  item_actions : (name : Text) → Dialog

abbrev default_key : Text
default_key = codes "key-ed25519"

-- `HostDraft::new`.
abbrev pub new_draft : HostDraft
new_draft = record {
  editing_id = none;
  name = codes "edge-02";
  group = codes "prod";
  protocol = Protocol.sftp;
  address = codes "edge-02.fsn1.internal";
  port = codes "22";
  user = codes "deploy";
  auth = AuthMethod.key;
  password = [];
  key_id = default_key;
  initial_path = codes "/srv/www";
  keepalive = codes "30";
  options = default_options;
  probe_log = [];
  probe_state = ProbeState.idle;
  key_trusted = false;
  pending_fingerprint = none;
  pending_key_type = none;
  pending_old_fingerprint = none;
  error = none;
}

unfoldable pub or_else : Option Text → Text → Text
or_else none d = d
or_else (some x) d = x

-- `HostDraft::from_host`.
unfoldable pub from_host : Host → HostDraft
unfolding or_else
from_host host = record {
  editing_id = some host.id;
  name = host.name;
  group = host.group;
  protocol = host.protocol;
  address = host.address;
  port = if eqb host.port 0 then [] else decimal host.port;
  user = host.user;
  auth = host.auth;
  password = [];
  key_id = or_else host.key_id default_key;
  initial_path = host.initial_path;
  keepalive = codes "30";
  options = host.options;
  probe_log = [];
  probe_state = ProbeState.idle;
  key_trusted = false;
  pending_fingerprint = none;
  pending_key_type = none;
  pending_old_fingerprint = none;
  error = none;
}

-- `str::parse::<u16>`: it fails where the number does not fit.
unfoldable pub parse_u16 : Text → Option ℕ
parse_u16 s = elim (parse_u64 s) [ none ↦ none | some n ↦ if ltb n (2 ^ 16) then some n else none ]

abbrev pub is_file : Protocol → Bool
is_file Protocol.file = true
is_file _ = false

abbrev is_key : AuthMethod → Bool
is_key AuthMethod.key = true
is_key _ = false

abbrev pub is_password : AuthMethod → Bool
is_password AuthMethod.password = true
is_password _ = false

-- The port of a form, 22 where it cannot be read.
unfoldable pub port_of : Text → ℕ
unfolding parse_u16
port_of s = elim (parse_u16 (trim s)) [ none ↦ 22 | some n ↦ n ]

unfoldable pub default_port : Protocol → ℕ
default_port Protocol.sftp = 22
default_port Protocol.nfs4 = 2049
default_port Protocol.nfs3 = 2049
default_port Protocol.smb3 = 445
default_port Protocol.file = 0

pub record Connections : Type 0 where
  pub hosts : List Host
  pub vault : Table Text
  pub known_hosts : List KnownHost
  pub dialog : Option Dialog

-- The key is accepted for the first record with the plain name or the name with its port.
unfoldable pub is_known_as : Text → ℕ → KnownHost → Bool
is_known_as host port k =
    k.host == host || k.host == codes "[" ++ host ++ codes "]:" ++ decimal port

abbrev accepted : ℤ → Text → KnownHost → KnownHost
accepted now fingerprint k = record k {
  fingerprint = fingerprint;
  pending_fingerprint = none;
  changed_since = none;
  verified_at_secs = now;
}

unfoldable pub key_type_of : Text → KeyType
key_type_of t =
    if contains_text t (codes "ecdsa")
    then KeyType.ecdsa_p256
    else (if contains_text t (codes "rsa") then KeyType.rsa4096 else KeyType.ed25519)

unfoldable pub accept_host_key : ℤ → Text → ℕ → Text → Text → List KnownHost → List KnownHost
unfolding is_known_as key_type_of
accept_host_key now host port key_type fingerprint list =
    let record_of : KnownHost = record {
      id = codes "kh-" ++ host ++ codes "-" ++ decimal port;
      host = if eqb port 22 then host else codes "[" ++ host ++ codes "]:" ++ decimal port;
      key_type = key_type_of key_type;
      fingerprint = fingerprint;
      verified_at_secs = now;
      changed_since = none;
      pending_fingerprint = none;
    } in
    if any (is_known_as host port) list
    then update_first (is_known_as host port) (accepted now fingerprint) list
    else list ++ record_of ∷ []

-- The host of a form takes the place of the first with its id, or comes last.
unfoldable pub store_host : Host → List Host → List Host
store_host host hosts =
    if any (λ h. h.id == host.id) hosts
    then update_first (λ h. h.id == host.id) (λ h. host) hosts
    else hosts ++ host ∷ []

module _ (to_lowercase : Text → Text) where
  unfoldable pub id_of : Option Text → Text → Text
  id_of (some id) name = id
  id_of none name = codes "host-" ++ map (λ c. if eqb c b' ' then b'-' else c) (to_lowercase name)

  unfoldable pub host_from_draft : HostDraft → Host
  unfolding id_of port_of
  host_from_draft draft = record {
    id = id_of draft.editing_id (trim draft.name);
    name = trim draft.name;
    group = trim draft.group;
    protocol = draft.protocol;
    address = trim draft.address;
    port = if is_file draft.protocol then 0 else port_of draft.port;
    user = trim draft.user;
    auth = draft.auth;
    key_id = if is_key draft.auth then some draft.key_id else none;
    initial_path = trim draft.initial_path;
    options = draft.options;
    status = HostStatus.idle;
    free_bytes = none;
    rtt_ms = none;
    mounted_at = none;
    retrans = 0;
    is_real = true;
  }

  -- The error of a form that is not accepted.
  unfoldable pub draft_error : HostDraft → Option Text
  unfolding parse_u16
  draft_error draft =
      if is_empty (trim draft.name) || is_empty (trim draft.address)
      then some (codes "name and host are required")
      else (if not (is_file draft.protocol) && is_none (parse_u16 (trim draft.port))
          then some (codes "EINVAL · " ++ draft.port ++ codes " is not a valid port")
          else none)

  abbrev kept_password : HostDraft → Table Text → Table Text
  kept_password draft vault =
      if is_password draft.auth && not (is_empty draft.password)
      then enter (host_from_draft draft).id draft.password vault
      else vault

  abbrev kept_key : ℤ → HostDraft → List KnownHost → List KnownHost
  kept_key now draft list = elim draft.pending_fingerprint [
    | none ↦ list
    | some fingerprint ↦
        if draft.key_trusted
        then accept_host_key now (trim draft.address) (port_of draft.port)
            (or_else draft.pending_key_type (codes "ssh-ed25519")) fingerprint list
        else list
  ]

  -- The error, or `none`, and the store after the call.
  unfoldable pub save_host_draft : ℤ → HostDraft → Connections → Option Text × Connections
  unfolding draft_error host_from_draft store_host
  save_host_draft now draft s = elim (draft_error draft) [
    | some e ↦ (some e, s)
    | none ↦ (
      none,
      record {
        hosts = store_host (host_from_draft draft) s.hosts;
        vault = kept_password draft s.vault;
        known_hosts = kept_key now draft s.known_hosts;
        dialog = none;
      },
    )
  ]
