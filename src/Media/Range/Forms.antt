-- ===== src/Media/Range/Forms.antt =====
-- crates/mk-media/src/lib.rs: what `parse_range` makes of the three forms of a byte range.
use m_kestrel.Prelude.{
  ℕ, ◌+◌, ◌-◌, ◌%◌, ◌≤◌, ◌<◌, min, false, [], ◌∷◌, ◌++◌, append_assoc, Option, some, Text, codes,
  ◌≡◌, ◌≢◌, refl, ap, ◌∙◌, arith, subst, u64_bound, parse_u64, parse_u64-decimal, decimal,
  decimal-IsDigit, decimal-ne-nil, decimal-last, digits-Lacks, IsDigit, All, strip_prefix-append,
  trim_none, split_once-Lacks, split_head_all, Lacks, Lacks-append, is_whitespace, LastFails,
  LastFails-last,
}
use m_kestrel.Media.Range.{part, range_error, sub_u64, check_range, range_of, parse_range}

-- A header for the ranges that these texts spell.
abbrev pub header : Text → Text → Option Text
header a b = some (codes "bytes=" ++ a ++ b'-' ∷ b)

digit_no_space : (n : ℕ) → is_whitespace (b'0' + n % 10) ≡ false
unfolding is_whitespace
digit_no_space n = ground arith

dash_no_space : is_whitespace b'-' ≡ false
unfolding is_whitespace
dash_no_space = refl

letter_no_space : is_whitespace b'b' ≡ false
unfolding is_whitespace
letter_no_space = refl

-- A well-spelled header reaches the `match` with the two texts.
spelled :
    (size : ℕ) (a b : Text)
    → Lacks b'-' a
    → Lacks b',' (a ++ b'-' ∷ b)
    → LastFails is_whitespace (codes "bytes=" ++ a ++ b'-' ∷ b)
    → parse_range (header a b) size ≡ range_of size a b
unfolding parse_range
spelled size a b no_dash no_comma ends = rw (
  trim_none (codes "bytes=" ++ a ++ b'-' ∷ b) letter_no_space ends,
  strip_prefix-append (codes "bytes=") (a ++ b'-' ∷ b),
  parse_range,
  split_head_all b',' (a ++ b'-' ∷ b) no_comma,
  split_once-Lacks b'-' a b no_dash,
)

no_commas : (a b : Text) → All IsDigit a → All IsDigit b → Lacks b',' (a ++ b'-' ∷ b)
no_commas a b ha hb =
    Lacks-append b',' a (b'-' ∷ b) (digits-Lacks b',' a ha (λ d. omega arith))
      (omega arith, digits-Lacks b',' b hb (λ d. omega arith))

no_dash : (n : ℕ) → Lacks b'-' (decimal n)
no_dash n = digits-Lacks b'-' (decimal n) (decimal-IsDigit n) (λ d. omega arith)

ends_in_digit : (front : Text) (n : ℕ) → LastFails is_whitespace (front ++ decimal n)
ends_in_digit front n =
    let (a, e) = decimal-last n in
    rw (e, ← append_assoc front a ((b'0' + n % 10) ∷ []))
      (LastFails-last is_whitespace (front ++ a) (b'0' + n % 10) (digit_no_space n))

header_ends_in_digit :
    (a : Text) (n : ℕ) → LastFails is_whitespace (codes "bytes=" ++ a ++ b'-' ∷ decimal n)
header_ends_in_digit a n =
    subst (LastFails is_whitespace)
      (append_assoc (codes "bytes=") (a ++ b'-' ∷ []) (decimal n)
        ∙ ap (◌++◌ (codes "bytes=")) (append_assoc a (b'-' ∷ []) (decimal n)))
      (ends_in_digit (codes "bytes=" ++ a ++ b'-' ∷ []) n)

header_ends_in_dash : (a : Text) → LastFails is_whitespace (codes "bytes=" ++ a ++ b'-' ∷ [])
header_ends_in_dash a =
    subst (LastFails is_whitespace) (append_assoc (codes "bytes=") a (b'-' ∷ []))
      (LastFails-last is_whitespace (codes "bytes=" ++ a) b'-' dash_no_space)

range_of-closed :
    (size s e : ℕ) (a b : Text)
    → a ≢ []
    → b ≢ []
    → parse_u64 a ≡ some s
    → parse_u64 b ≡ some e
    → range_of size a b ≡ check_range size s (min e (sub_u64 size 1))
unfolding range_of
range_of-closed size s e [] b ha hb pa pb = absurd (ha refl)
range_of-closed size s e (c ∷ a) [] ha hb pa pb = absurd (hb refl)
range_of-closed size s e (c ∷ a) (d ∷ b) ha hb pa pb = rw (pa, range_of, pb)

range_of-open :
    (size s : ℕ) (a : Text)
    → a ≢ []
    → parse_u64 a ≡ some s
    → range_of size a [] ≡ check_range size s (sub_u64 size 1)
unfolding range_of
range_of-open size s [] ha pa = absurd (ha refl)
range_of-open size s (c ∷ a) ha pa = rw (pa, range_of)

range_of-suffix :
    (size n : ℕ) (b : Text)
    → b ≢ []
    → parse_u64 b ≡ some n
    → 0 < n
    → range_of size [] b ≡ check_range size (size - n) (sub_u64 size 1)
unfolding range_of
range_of-suffix size n [] hb pb pos = absurd (hb refl)
range_of-suffix size n (c ∷ b) hb pb pos = rw (pb, range_of) (ground arith)

-- What a header with one or both numbers comes to, whatever the numbers.
closed :
    (size s e : ℕ)
    → s < u64_bound
    → e < u64_bound
    → parse_range (header (decimal s) (decimal e)) size
      ≡ check_range size s (min e (sub_u64 size 1))
closed size s e hs he =
    spelled size (decimal s) (decimal e) (no_dash s)
      (no_commas (decimal s) (decimal e) (decimal-IsDigit s) (decimal-IsDigit e))
      (header_ends_in_digit (decimal s) e)
    ∙ range_of-closed size s e (decimal s) (decimal e) (decimal-ne-nil s) (decimal-ne-nil e)
        (parse_u64-decimal s hs) (parse_u64-decimal e he)

open_ended :
    (size s : ℕ)
    → s < u64_bound
    → parse_range (header (decimal s) []) size ≡ check_range size s (sub_u64 size 1)
open_ended size s hs =
    spelled size (decimal s) [] (no_dash s) (no_commas (decimal s) [] (decimal-IsDigit s) tt)
      (header_ends_in_dash (decimal s))
    ∙ range_of-open size s (decimal s) (decimal-ne-nil s) (parse_u64-decimal s hs)

suffix :
    (size n : ℕ)
    → 0 < n
    → n < u64_bound
    → parse_range (header [] (decimal n)) size ≡ check_range size (size - n) (sub_u64 size 1)
suffix size n some_bytes hn =
    spelled size [] (decimal n) tt (no_commas [] (decimal n) tt (decimal-IsDigit n))
      (header_ends_in_digit [] n)
    ∙ range_of-suffix size n (decimal n) (decimal-ne-nil n) (parse_u64-decimal n hn) some_bytes

check_range_inside :
    (size s e : ℕ) → size < u64_bound → s < size → check_range size s e ≡ part s (min e (size - 1))
unfolding check_range
check_range_inside size s e fits h = ground arith

check_range_past : (size s e : ℕ) → size ≤ s → check_range size s e ≡ range_error
unfolding check_range
check_range_past size s e h = ground arith

last_of : (size : ℕ) → size < u64_bound → 0 < size → sub_u64 size 1 ≡ size - 1
last_of size fits pos = ground arith

module _ (size : ℕ) (fits : size < u64_bound) where
  -- `bytes=s-e` with `s` in the file: from `s` to `e`, cut to the last byte.
  pub parse_range-closed :
      (s e : ℕ)
      → s < size
      → e < u64_bound
      → parse_range (header (decimal s) (decimal e)) size ≡ part s (min e (size - 1))
  parse_range-closed s e inside small =
      closed size s e (omega arith) small
      ∙ check_range_inside size s (min e (sub_u64 size 1)) fits inside
      ∙ ap (part s) (omega arith)

  -- `bytes=s-` with `s` in the file: from `s` to the last byte.
  pub parse_range-open :
      (s : ℕ) → s < size → parse_range (header (decimal s) []) size ≡ part s (size - 1)
  parse_range-open s inside =
      open_ended size s (omega arith)
      ∙ check_range_inside size s (sub_u64 size 1) fits inside
      ∙ ap (part s) (omega arith)

  -- `bytes=-n` of a file that is not empty: its last `n` bytes, or all of them.
  pub parse_range-suffix :
      (n : ℕ)
      → 0 < n
      → n < u64_bound
      → 0 < size
      → parse_range (header [] (decimal n)) size ≡ part (size - n) (size - 1)
  parse_range-suffix n pos small some_bytes =
      suffix size n pos small
      ∙ check_range_inside size (size - n) (sub_u64 size 1) fits (omega arith)
      ∙ ap (part (size - n)) (omega arith)

-- A start at or behind the end of the file cannot be satisfied, in either form.
pub parse_range_past :
    (size s e : ℕ)
    → size ≤ s
    → s < u64_bound
    → e < u64_bound
    → (parse_range (header (decimal s) (decimal e)) size ≡ range_error)
      × (parse_range (header (decimal s) []) size ≡ range_error)
parse_range_past size s e past hs he = (
  closed size s e hs he ∙ check_range_past size s (min e (sub_u64 size 1)) past,
  open_ended size s hs ∙ check_range_past size s (sub_u64 size 1) past,
)
