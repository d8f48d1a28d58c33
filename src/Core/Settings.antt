-- ===== src/Core/Settings.antt =====
-- crates/mk-core/src/settings.rs: the settings records and the overwrite policy.
use m_kestrel.Prelude.{ℕ, ◌*◌, Bool, true, false}

pub data SortKey : Type 0 where
  name size mtime mode owner : SortKey

pub data SortDir : Type 0 where
  asc desc : SortDir

pub record SortSpec : Type 0 where
  pub key : SortKey
  pub dir : SortDir

pub data OverwritePolicy : Type 0 where
  ask overwrite skip resume rename newer_only : OverwritePolicy

-- `OverwritePolicy::next`: the order in which the settings row cycles.
unfoldable pub next : OverwritePolicy → OverwritePolicy
next ask = overwrite
next overwrite = skip
next skip = resume
next resume = rename
next rename = newer_only
next newer_only = ask

pub record TransferSettings : Type 0 where
  pub on_cellular : Bool
  pub parallel : ℕ
  pub bandwidth_limit_bytes : ℕ
  pub chunk_bytes : ℕ
  pub resume_interrupted : Bool
  pub verify_sha256 : Bool
  pub overwrite_policy : OverwritePolicy

pub record BrowsingSettings : Type 0 where
  pub show_hidden_files : Bool
  pub thumbnails_over_remote : Bool
  pub default_sort : SortSpec
  pub cache_used_bytes : ℕ
  pub cache_cap_bytes : ℕ

pub record SecuritySettings : Type 0 where
  pub unlock_with_biometrics : Bool
  pub strict_host_key_checking : Bool
  pub passphrase_cache_secs : ℕ

pub record Settings : Type 0 where
  pub transfers : TransferSettings
  pub browsing : BrowsingSettings
  pub security : SecuritySettings

-- The `Default` values of the three groups.
abbrev pub default_transfers : TransferSettings
default_transfers = record {
  on_cellular = false;
  parallel = 3;
  bandwidth_limit_bytes = 20 * 1024 * 1024;
  chunk_bytes = 1024 * 1024;
  resume_interrupted = true;
  verify_sha256 = false;
  overwrite_policy = ask;
}

abbrev pub default_browsing : BrowsingSettings
default_browsing = record {
  show_hidden_files = true;
  thumbnails_over_remote = false;
  default_sort = record { key = name; dir = asc };
  cache_used_bytes = 1800 * 1024 * 1024;
  cache_cap_bytes = 4000 * 1024 * 1024;
}

abbrev pub default_security : SecuritySettings
default_security = record {
  unlock_with_biometrics = true;
  strict_host_key_checking = true;
  passphrase_cache_secs = 300;
}

abbrev pub default_settings : Settings
default_settings = record {
  transfers = default_transfers;
  browsing = default_browsing;
  security = default_security;
}
