-- ===== src/App/Paths/Available.antt =====
-- app/src/transfer.rs: the search for a free name ends, with a name that is free.
use m_kestrel.Prelude.{ℕ, ◌≤◌, ◌<◌, Option, none, some, Text, text_eq, lookup, Table, ◌≡◌}
use m_kestrel.App.Paths.{PathParts, candidate}

-- A free name with a number from one to another.
abbrev pub IsFree : {V : Type 0} → PathParts → Table V → ℕ → ℕ → Option Text → Type 0
IsFree p disk count limit found =
    (n : ℕ) × (count ≤ n)
    × (n < limit)
    × (found ≡ some (candidate p n))
    × (lookup (candidate p n) disk ≡ none)
