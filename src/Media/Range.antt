-- ===== src/Media/Range.antt =====
-- crates/mk-media/src/lib.rs: `parse_range`. Sizes and positions are u64. `size - 1` is written with
-- the wrap-around that a release build has at 0; a build with overflow checks panics there.
pub mod Satisfiable
pub mod Forms
use m_kestrel.Prelude.{
  ℕ, ◌+◌, ◌-◌, ◌%◌, min, Bool, true, false, List, [], ◌∷◌, Option, none, some, Text, codes,
  if◌then◌else◌, eqb, leb, is_empty, trim, strip_prefix, split_head, split_once, parse_u64,
  u64_bound,
}

pub data RangeResult : Type 0 where
  whole : RangeResult
  part : ℕ → ℕ → RangeResult
  range_error : RangeResult

-- Subtraction on u64.
abbrev pub sub_u64 : ℕ → ℕ → ℕ
sub_u64 a b = (a + u64_bound - b) % u64_bound

-- The tests behind the `match`.
unfoldable pub check_range : ℕ → ℕ → ℕ → RangeResult
check_range size start end =
    if leb size start then range_error else part start (min end (sub_u64 size 1))

-- The `match` on which of the two numbers is missing.
unfoldable pub range_of : ℕ → Text → Text → RangeResult
unfolding check_range
range_of size [] [] = range_error
range_of size [] (c ∷ b) = elim (parse_u64 (c ∷ b)) [
  | none ↦ range_error
  | some n ↦ if eqb n 0 then range_error else check_range size (size - n) (sub_u64 size 1)
]
range_of size (c ∷ a) [] = elim (parse_u64 (c ∷ a)) [
  | none ↦ range_error
  | some s ↦ check_range size s (sub_u64 size 1)
]
range_of size (c ∷ a) (d ∷ b) = elim (parse_u64 (c ∷ a)) [
  | none ↦ range_error
  | some s ↦ elim (parse_u64 (d ∷ b)) [
    | none ↦ range_error
    | some e ↦ check_range size s (min e (sub_u64 size 1))
  ]
]

unfoldable pub parse_range : Option Text → ℕ → RangeResult
unfolding range_of
parse_range none size = whole
parse_range (some h) size = elim (strip_prefix (trim h) (codes "bytes=")) [
  | none ↦ range_error
  | some specs ↦ elim (split_once b'-' (split_head b',' specs)) [
    | none ↦ range_error
    | some (a, b) ↦ range_of size a b
  ]
]
