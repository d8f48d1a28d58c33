-- ===== src/Media/Server/Inverted.antt =====
-- crates/mk-media/src/lib.rs: a range whose end is before its start by two or more.
use m_kestrel.Prelude.{ℕ, ◌+◌, ◌-◌, ◌<◌, ◌≡◌, ◌∙◌, ap, arith, decimal, u64_bound}
use m_kestrel.Media.Range.{part, parse_range}
use m_kestrel.Media.Range.Forms.{header, parse_range-closed}
use m_kestrel.Media.Server.{range_length}

-- A range with its start in the file and its end two or more before it is not refused: `parse_range`
-- returns it as it stands, and the length that the handler computes for it wraps around, to more
-- bytes than a u64 counts from the start of the range.
pub parse_range_inverted :
    (size s e : ℕ)
    → size < u64_bound
    → s < size
    → e + 1 < s
    → (parse_range (header (decimal s) (decimal e)) size ≡ part s e)
      × (u64_bound - s < range_length s e)
parse_range_inverted size s e fits inside inverted =
    (parse_range-closed size fits s e inside (omega arith) ∙ ap (part s) (omega arith), omega arith)
