-- ===== src/Vfs/KnownHosts.antt =====
-- crates/mk-vfs/src/known_hosts.rs: the store of host keys. The clock (`now_secs` and `today_label`)
-- is an argument, and so is how a save ends; the file holds the list of entries that was
-- written last, `none` where it cannot be read as one.
pub mod Check
pub mod Changes
pub mod Openssh
pub mod Trust
pub mod Accept
pub mod Review
pub mod Import
pub mod SharedIds
use m_kestrel.Prelude.{
  ℕ, suc, ltb, ◌+◌, Bool, true, false, not, ◌&&◌, ◌||◌, List, [], ◌∷◌, ◌++◌, map, Option, none,
  some, Text, codes, if◌then◌else◌, ◌==◌, text_eq, text_option_eq, eqb, PartialEq, any, filter,
  is_empty, update_first, ℤ, decimal_ℤ, decimal, contains_text, starts_with, strip_prefix, trim,
  trim_end_matches, lines, split_whitespace,
}
use m_kestrel.Core.Credentials.{KnownHost, KeyType, ed25519, rsa4096, ecdsa_p256, as_str}
use m_kestrel.Vfs.HostPatterns.{Crypto, host_pattern, host_is_hashed, host_matches}

pub data KnownHostResult : Type 0 where
  trusted : KnownHostResult
  new_host : (fingerprint key_type : Text) → KnownHostResult
  changed : (old new key_type : Text) → KnownHostResult
  revoked : (fingerprint : Text) → KnownHostResult

pub data HostMarker : Type 0 where
  normal cert_authority revoked_key : HostMarker

abbrev pub marker_index : HostMarker → ℕ
marker_index normal = 0
marker_index cert_authority = 1
marker_index revoked_key = 2

-- `e.marker == marker`.
abbrev pub is_marked : HostMarker → HostMarker → Bool
is_marked a b = eqb (marker_index a) (marker_index b)

pub record KhEntry : Type 0 where
  pub host : Text
  pub key_type : Text
  pub fingerprint : Text
  pub marker : HostMarker
  pub hashed : Bool
  pub verified_at_secs : ℤ
  pub changed_since : Option Text
  pub pending_fingerprint : Option Text
  pub id : Text

pub record KnownHostsStore : Type 0 where
  pub path : Text
  pub entries : List KhEntry
  pub file : Option (List KhEntry)

unfoldable pub parse_key_type : Text → KeyType
parse_key_type s =
    if s == codes "ssh-ed25519"
      || s == codes "ed25519"
      || s == codes "ssh-ed25519-cert-v01@openssh.com"
    then ed25519
    else if s == codes "ecdsa-sha2-nistp256"
        || s == codes "ecdsa p256"
        || s == codes "ecdsa-sha2-nistp256-cert-v01@openssh.com"
    then ecdsa_p256
    else if s == codes "ssh-rsa"
        || s == codes "rsa-sha2-512"
        || s == codes "rsa-sha2-256"
        || s == codes "rsa 4096"
    then rsa4096
    else if contains_text s (codes "ed25519")
    then ed25519
    else if contains_text s (codes "ecdsa")
    then ecdsa_p256
    else ed25519

unfoldable pub to_known_host : KhEntry → KnownHost
unfolding parse_key_type
to_known_host e = record {
  id = if is_empty e.id then codes "known-" ++ e.host else e.id;
  host = e.host;
  key_type = parse_key_type e.key_type;
  fingerprint = e.fingerprint;
  verified_at_secs = e.verified_at_secs;
  changed_since = e.changed_since;
  pending_fingerprint = e.pending_fingerprint;
}

-- An entry for a host of the credentials list.
unfoldable pub from_known_host : KnownHost → KhEntry
from_known_host h = record {
  host = h.host;
  key_type = as_str h.key_type;
  fingerprint = h.fingerprint;
  marker = normal;
  hashed = host_is_hashed h.host;
  verified_at_secs = h.verified_at_secs;
  changed_since = h.changed_since;
  pending_fingerprint = h.pending_fingerprint;
  id = h.id;
}

unfoldable pub new_store : Text → KnownHostsStore
new_store path = record { path = path; entries = []; file = none }

-- The two forms of the file; `none` is an error.
unfoldable pub load :
    (Text → Option (List KhEntry))
    → (Text → Option (List KnownHost))
    → Text
    → Text
    → Option KnownHostsStore
unfolding from_known_host
load decode_entries decode_hosts path content = elim (decode_entries content) [
  | some entries ↦ some (record { path = path; entries = entries; file = some entries })
  | none ↦ elim (decode_hosts content) [
    | none ↦ none
    | some hosts ↦ some (record { path = path; entries = map from_known_host hosts; file = none })
  ]
]

-- How a save ends: the file was written, the write failed and left something that is no list, or it
-- was not reached.
pub data Saving : Type 0 where
  saved spoiled unreached : Saving

unfoldable pub save : Saving → KnownHostsStore → KnownHostsStore
save saved s = record s { file = some s.entries }
save spoiled s = record s { file = none }
save unreached s = s

unfoldable pub snapshot : KnownHostsStore → List KnownHost
unfolding to_known_host
snapshot s = map to_known_host s.entries

-- An entry of the same host with the same fingerprint.
abbrev pub is_same : Text → Text → KhEntry → Bool
is_same host fingerprint e = e.host == host && e.fingerprint == fingerprint

unfoldable pub merge_known_host : KnownHostsStore → KnownHost → KnownHostsStore
unfolding from_known_host
merge_known_host s h =
    if any (is_same h.host h.fingerprint) s.entries
    then s
    else record s { entries = s.entries ++ from_known_host h ∷ [] }

unfoldable pub merge_known_hosts : KnownHostsStore → List KnownHost → KnownHostsStore
unfolding merge_known_host
merge_known_hosts s [] = s
merge_known_hosts s (h ∷ hs) = merge_known_hosts (merge_known_host s h) hs

unfoldable pub marked_entry : HostMarker → Text → ℤ → Text → Text → Text → KhEntry
marked_entry marker prefix now host key_type fingerprint = record {
  host = host;
  key_type = key_type;
  fingerprint = fingerprint;
  marker = marker;
  hashed = host_is_hashed host;
  verified_at_secs = now;
  changed_since = none;
  pending_fingerprint = none;
  id = prefix ++ decimal_ℤ now;
}
