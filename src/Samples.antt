-- ===== src/Samples.antt =====
-- Concrete values on which the modules below try the definitions and the theorems.
pub mod Recents
pub mod Stored
pub mod Shared
pub mod Planner
pub mod Sessions
pub mod Keys
pub mod Streams
pub mod Vault
pub mod Queues
pub mod Rounds
pub mod Copies
pub mod Browsing
pub mod Forms
use m_kestrel.Prelude.{ℕ, ◌+◌, ◌/◌, ℤ, pos, true, false, [], ◌∷◌, none, Text, codes, ltb}
use m_kestrel.Core.Bookmark.{Bookmark}
use m_kestrel.Core.Credentials.{Credentials, KnownHost, ed25519}
use m_kestrel.Core.Host.{Host, sftp, password, HostStatus, default_options, EntryKind}
use m_kestrel.Core.Settings.{default_settings}
use m_kestrel.Core.Persistence.{StoredState}
use m_kestrel.Core.Config.{Live}
use m_kestrel.Core.Job.{Job, default_job}
use m_kestrel.Transfer.Scheduler.{Floats}

abbrev pub host_called : Text → Host
host_called id = record {
  id = id;
  name = id;
  group = [];
  protocol = sftp;
  address = id;
  port = 22;
  user = codes "me";
  auth = password;
  key_id = none;
  initial_path = codes "/";
  options = default_options;
  status = HostStatus.idle;
  free_bytes = none;
  rtt_ms = none;
  mounted_at = none;
  retrans = 0;
  is_real = true;
}

abbrev pub nas : Host
nas = host_called (codes "nas")

abbrev pub edge : Host
edge = host_called (codes "edge")

abbrev pub films : Bookmark
films = record {
  host_id = codes "nas";
  path = codes "/films";
  kind = EntryKind.dir;
  added_at = pos 1;
}

abbrev pub nas_key : KnownHost
nas_key = record {
  id = codes "known-1";
  host = codes "nas";
  key_type = ed25519;
  fingerprint = codes "SHA256:a";
  verified_at_secs = pos 1;
  changed_since = none;
  pending_fingerprint = none;
}

abbrev pub live : Live
live = record {
  hosts = nas ∷ edge ∷ [];
  settings = default_settings;
  known_hosts = nas_key ∷ [];
  bookmarks = films ∷ [];
}

-- Natural numbers in place of floats.
abbrev pub whole_numbers : Floats
whole_numbers = record {
  F = ℕ;
  zero = 0;
  one = 1;
  add = λ a b. a + b;
  div = λ a b. a / b;
  gt = λ a b. ltb b a;
}

abbrev pub no_credentials : Credentials
no_credentials = record { keys = []; passwords = []; known_hosts = [] }

-- A store with a fixture among its hosts.
abbrev pub stored : StoredState ℕ
stored = record {
  hosts = record nas { is_real = false } ∷ edge ∷ [];
  settings = default_settings;
  credentials = no_credentials;
  jobs =
      record (default_job 0) { host_id = codes "nas" }
      ∷ record (default_job 0) { host_id = codes "edge" }
      ∷ [];
  selected_host_id = codes "nas";
  cwd = codes "/";
  recents = [];
  bookmarks = films ∷ [];
}
