-- ===== src/Core/Credentials.antt =====
-- crates/mk-core/src/credentials.rs: metadata of keys, passwords and known hosts.
use m_kestrel.Prelude.{ℕ, ℤ, Bool, Option, List, Text, codes}
use m_kestrel.Core.Host.{Protocol}

pub data KeyType : Type 0 where
  ed25519 rsa4096 ecdsa_p256 : KeyType

unfoldable pub as_str : KeyType → Text
as_str ed25519 = codes "ed25519"
as_str rsa4096 = codes "rsa 4096"
as_str ecdsa_p256 = codes "ecdsa p256"

pub data SecretStorage : Type 0 where
  keystore secure_enclave passphrase_only : SecretStorage

pub record SshKey : Type 0 where
  pub id : Text
  pub key_type : KeyType
  pub name : Text
  pub fingerprint : Text
  pub storage : SecretStorage
  pub biometric : Bool
  pub host_count : ℕ
  pub last_used_secs_ago : ℕ

pub record SavedPassword : Type 0 where
  pub id : Text
  pub protocol : Protocol
  pub account : Text
  pub storage : SecretStorage
  pub last_used_secs_ago : ℕ

pub record KnownHost : Type 0 where
  pub id : Text
  pub host : Text
  pub key_type : KeyType
  pub fingerprint : Text
  pub verified_at_secs : ℤ
  pub changed_since : Option Text
  pub pending_fingerprint : Option Text

pub record Credentials : Type 0 where
  pub keys : List SshKey
  pub passwords : List SavedPassword
  pub known_hosts : List KnownHost
