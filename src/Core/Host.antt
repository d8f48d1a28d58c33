-- ===== src/Core/Host.antt =====
-- crates/mk-core/src/host.rs: hosts and directory entries.
use m_kestrel.Prelude.{ℕ, ℤ, ◌≡◌, ◌↔◌, Bool, true, false, Option, Text, eqb, PartialEq, arith}

pub data Protocol : Type 0 where
  sftp nfs4 nfs3 smb3 file : Protocol

pub data AuthMethod : Type 0 where
  key password agent kbd_int : AuthMethod

pub data HostStatus : Type 0 where
  mounted idle stale unreachable : HostStatus

pub record HostOptions : Type 0 where
  pub compression : Bool
  pub follow_symlinks : Bool
  pub read_only : Bool
  pub show_hidden : Bool

-- `HostOptions::default`.
abbrev pub default_options : HostOptions
default_options = record {
  compression = true;
  follow_symlinks = false;
  read_only = false;
  show_hidden = true;
}

-- `port` is a u16, `free_bytes` a u64, `rtt_ms` and `retrans` are u32.
pub record Host : Type 0 where
  pub id : Text
  pub name : Text
  pub group : Text
  pub protocol : Protocol
  pub address : Text
  pub port : ℕ
  pub user : Text
  pub auth : AuthMethod
  pub key_id : Option Text
  pub initial_path : Text
  pub options : HostOptions
  pub status : HostStatus
  pub free_bytes : Option ℕ
  pub rtt_ms : Option ℕ
  pub mounted_at : Option ℤ
  pub retrans : ℕ
  pub is_real : Bool

pub data EntryKind : Type 0 where
  dir file symlink : EntryKind

unfoldable pub type_char : EntryKind → ℕ
type_char EntryKind.dir = b'd'
type_char EntryKind.file = b'-'
type_char EntryKind.symlink = b'l'

pub record Entry : Type 0 where
  pub name : Text
  pub kind : EntryKind
  pub target : Option Text
  pub size_bytes : ℕ
  pub mode : ℕ
  pub uid : ℕ
  pub gid : ℕ
  pub owner_label : Text
  pub mtime : ℤ
  pub is_hidden : Bool
  pub inode : ℕ
  pub items : Option ℕ

-- The equality tests that `#[derive(PartialEq)]` writes compare the variants' numbers.
abbrev protocol_index : Protocol → ℕ
protocol_index sftp = 0
protocol_index nfs4 = 1
protocol_index nfs3 = 2
protocol_index smb3 = 3
protocol_index Protocol.file = 4

abbrev pub protocol_beq : Protocol → Protocol → Bool
protocol_beq a b = eqb (protocol_index a) (protocol_index b)

pub protocol_beq_iff : (a b : Protocol) → (protocol_beq a b ≡ true) ↔ (a ≡ b)
protocol_beq_iff a b = ground arith

instance abbrev pub protocol_eq : PartialEq Protocol
protocol_eq = record { eq = protocol_beq; eq_law = protocol_beq_iff }

abbrev auth_index : AuthMethod → ℕ
auth_index key = 0
auth_index password = 1
auth_index agent = 2
auth_index kbd_int = 3

abbrev pub auth_beq : AuthMethod → AuthMethod → Bool
auth_beq a b = eqb (auth_index a) (auth_index b)

pub auth_beq_iff : (a b : AuthMethod) → (auth_beq a b ≡ true) ↔ (a ≡ b)
auth_beq_iff a b = ground arith

instance abbrev pub auth_eq : PartialEq AuthMethod
auth_eq = record { eq = auth_beq; eq_law = auth_beq_iff }
