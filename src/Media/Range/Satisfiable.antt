-- ===== src/Media/Range/Satisfiable.antt =====
-- crates/mk-media/src/lib.rs: every range that `parse_range` returns lies in the file.
use m_kestrel.Prelude.{
  ℕ, ◌-◌, ◌<◌, [], ◌∷◌, Option, none, some, Text, codes, arith, inl, inr, Option-cases, u64_bound,
  parse_u64, min, strip_prefix, trim, split_once, split_head, eqb, leb, Bool-cases,
}
use m_kestrel.Media.Range.{
  RangeResult, whole, part, range_error, sub_u64, check_range, range_of, parse_range,
}

-- Both ends lie in a file of that size.
abbrev pub IsWithin : ℕ → RangeResult → Type 0
IsWithin size whole = Unit {0}
IsWithin size (part s e) = (s < size) × (e < size)
IsWithin size range_error = Unit {0}

check_range-IsWithin : (size s e : ℕ) → size < u64_bound → IsWithin size (check_range size s e)
unfolding check_range
check_range-IsWithin size s e h = elim (Bool-cases (leb size s)) [
  | inl past ↦ rw past tt
  | inr inside ↦ rw inside (ground arith, ground arith)
]

range_of-IsWithin : (size : ℕ) (a b : Text) → size < u64_bound → IsWithin size (range_of size a b)
unfolding range_of
range_of-IsWithin size [] [] h = tt
range_of-IsWithin size [] (c ∷ b) h = elim (Option-cases (parse_u64 (c ∷ b))) [
  | inl e ↦ rw (e, range_of) tt
  | inr (n, e) ↦ elim (Bool-cases (eqb n 0)) [
    | inl z ↦ rw (e, range_of, z) tt
    | inr nz ↦ rw (e, range_of, nz) (check_range-IsWithin size (size - n) (sub_u64 size 1) h)
  ]
]
range_of-IsWithin size (c ∷ a) [] h = elim (Option-cases (parse_u64 (c ∷ a))) [
  | inl e ↦ rw (e, range_of) tt
  | inr (n, e) ↦ rw (e, range_of) (check_range-IsWithin size n (sub_u64 size 1) h)
]
range_of-IsWithin size (c ∷ a) (d ∷ b) h = elim (Option-cases (parse_u64 (c ∷ a))) [
  | inl e ↦ rw (e, range_of) tt
  | inr (n, e) ↦ elim (Option-cases (parse_u64 (d ∷ b))) [
    | inl f ↦ rw (e, range_of, f) tt
    | inr (m, f) ↦ rw (e, range_of, f) (check_range-IsWithin size n (min m (sub_u64 size 1)) h)
  ]
]

-- Whatever the header says, a range is returned only with both ends inside the file, so none for an
-- empty file.
pub parse_range-IsWithin :
    (header : Option Text) (size : ℕ) → size < u64_bound → IsWithin size (parse_range header size)
unfolding parse_range
parse_range-IsWithin none size h = tt
parse_range-IsWithin (some t) size h =
    elim (Option-cases (strip_prefix (trim t) (codes "bytes="))) [
      | inl e ↦ rw (e, parse_range) tt
      | inr (specs, e) ↦ elim (Option-cases (split_once b'-' (split_head b',' specs))) [
        | inl f ↦ rw (e, parse_range, f) tt
        | inr ((a, b), f) ↦ rw (e, parse_range, f) (range_of-IsWithin size a b h)
      ]
    ]
