-- ===== src/Vfs/Error.antt =====
-- crates/mk-vfs/src/error.rs: the errors of the backends and how they are shown.
use m_kestrel.Prelude.{Option, none, some, Text, codes, decimal_ℤ, ◌++◌, ◌∷◌, ℤ}

pub data VfsErrorKind : Type 0 where
  not_found : VfsErrorKind
  permission_denied : VfsErrorKind
  io : VfsErrorKind
  timeout : VfsErrorKind
  unreachable : VfsErrorKind
  protocol : VfsErrorKind
  read_only : VfsErrorKind
  host_key_unknown : VfsErrorKind
  host_key_changed : VfsErrorKind
  cancelled : VfsErrorKind
  other : VfsErrorKind

pub record VfsError : Type 0 where
  pub kind : VfsErrorKind
  pub errno : Option ℤ
  pub path : Option Text
  pub message : Text

unfoldable pub new : VfsErrorKind → Text → VfsError
new kind message = record { kind = kind; errno = none; path = none; message = message }

unfoldable pub with_errno : VfsError → ℤ → VfsError
with_errno e errno = record e { errno = some errno }

unfoldable pub with_path : VfsError → Text → VfsError
with_path e path = record e { path = some path }

-- The separator of the parts, a middle dot between spaces.
abbrev dot : Text
dot = codes " " ++ 0xB7 ∷ codes " "

unfoldable pub fmt_parts : Option ℤ → Option Text → Text → Text
fmt_parts (some e) (some p) message = decimal_ℤ e ++ dot ++ p ++ dot ++ message
fmt_parts (some e) none message = decimal_ℤ e ++ dot ++ message
fmt_parts none (some p) message = p ++ dot ++ message
fmt_parts none none message = message

unfoldable pub fmt : VfsError → Text
unfolding fmt_parts
fmt e = fmt_parts e.errno e.path e.message
