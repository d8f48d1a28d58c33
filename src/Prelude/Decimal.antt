-- ===== src/Prelude/Decimal.antt =====
-- Decimal text: `u64::from_str` and the `{}` format of unsigned integers.
use Prim.Native.Nat.{ℕ, zero, suc, ◌+◌, ◌-◌, ◌*◌, ◌/◌, ◌%◌, ◌^◌, ◌≤◌, ◌<◌}
use mathlib.Core.Path.{◌≡◌, refl, subst, sym, ◌∙◌}
use mathlib.Core.Logic.{◌≢◌, inl, inr}
use mathlib.Core.Bool.{◌||◌}
use mathlib.Core.List.{[], ◌∷◌, ◌++◌, append_assoc}
use mathlib.Core.Option.{Option, none, some}
use native.Mathlib.Omega.{arith}
use m_kestrel.Prelude.Tests.{if◌then◌else◌, ltb, eqb, Bool-cases}
use m_kestrel.Prelude.Int.{ℤ, pos, negsuc}
use m_kestrel.Prelude.Lists.{All}
use m_kestrel.Prelude.Str.{Text, Lacks}

abbrev pub u64_bound : ℕ
u64_bound = 2 ^ 64

-- The digits behind a number read so far; `none` on another character and on overflow.
unfoldable pub scan : Text → ℕ → Option ℕ
scan [] n = some n
scan (c ∷ s) n =
    let next = n * 10 + (c - b'0') in
    if ltb c b'0' || ltb b'9' c then none else if ltb next u64_bound then scan s next else none

-- A leading `+` is accepted, alone it is not.
unfoldable pub parse_u64 : Text → Option ℕ
unfolding scan
parse_u64 [] = none
parse_u64 (c ∷ []) = scan (c ∷ []) 0
parse_u64 (c ∷ d ∷ s) = if eqb c b'+' then scan (d ∷ s) 0 else scan (c ∷ d ∷ s) 0

-- One digit a round, in front of those written; a number has at most as many rounds as its value.
unfoldable pub emit : ℕ → ℕ → Text → Text
emit zero n out = out
emit (suc fuel) n out =
    let digit = b'0' + n % 10 in
    let more = emit fuel (n / 10) (digit ∷ out) in if ltb n 10 then digit ∷ out else more

unfoldable pub decimal : ℕ → Text
unfolding emit
decimal n = emit (suc n) n []

-- The `{}` format of a signed integer.
unfoldable pub decimal_ℤ : ℤ → Text
decimal_ℤ (pos n) = decimal n
decimal_ℤ (negsuc n) = b'-' ∷ decimal (suc n)

abbrev pub IsDigit : ℕ → Type 0
IsDigit c = (b'0' ≤ c) × (c ≤ b'9')

emit-IsDigit : (fuel n : ℕ) (out : Text) → All IsDigit out → All IsDigit (emit fuel n out)
unfolding emit
emit-IsDigit zero n out h = h
emit-IsDigit (suc fuel) n out h = elim (Bool-cases (ltb n 10)) [
  | inl e ↦ rw e (omega arith, h)
  | inr e ↦ rw e (emit-IsDigit fuel (n / 10) ((b'0' + n % 10) ∷ out) (omega arith, h))
]

pub decimal-IsDigit : (n : ℕ) → All IsDigit (decimal n)
unfolding decimal
decimal-IsDigit n = emit-IsDigit (suc n) n [] tt

pub digits-Lacks : (c : ℕ) (s : Text) → All IsDigit s → (¬ IsDigit c) → Lacks c s
digits-Lacks c [] h n = tt
digits-Lacks c (d ∷ s) h n = (λ e. n (omega (arith, h.0, e)), digits-Lacks c s h.1 n)

scan-emit :
    (fuel n : ℕ) (out : Text) → n < fuel → n < u64_bound → scan (emit fuel n out) 0 ≡ scan out n
unfolding emit scan
scan-emit zero n out h b = absurd (omega arith)
scan-emit (suc fuel) n out h b = ground (arith, scan-emit fuel (n / 10) ((b'0' + n % 10) ∷ out))

emit-cons : (fuel n : ℕ) (out : Text) → (c : ℕ) × (s : Text) × (emit (suc fuel) n out ≡ c ∷ s)
unfolding emit
emit-cons zero n out = elim (Bool-cases (ltb n 10)) [
  | inl e ↦ (b'0' + n % 10, out, rw e refl)
  | inr e ↦ (b'0' + n % 10, out, rw e refl)
]
emit-cons (suc fuel) n out = elim (Bool-cases (ltb n 10)) [
  | inl e ↦ (b'0' + n % 10, out, rw e refl)
  | inr e ↦ let (c, s, h) = emit-cons fuel (n / 10) ((b'0' + n % 10) ∷ out) in (c, s, rw e h)
]

parse_digits : (c : ℕ) (s : Text) → IsDigit c → parse_u64 (c ∷ s) ≡ scan (c ∷ s) 0
unfolding parse_u64
parse_digits c [] h = refl
parse_digits c (d ∷ s) h = ground arith

parse_by : (c : ℕ) (s t : Text) → t ≡ c ∷ s → All IsDigit t → parse_u64 t ≡ scan t 0
parse_by c s t e h = let digits = subst (All IsDigit) e h in rw e (parse_digits c s digits.0)

-- A number that fits in 64 bits is read back from its decimal text.
pub parse_u64-decimal : (n : ℕ) → n < u64_bound → parse_u64 (decimal n) ≡ some n
unfolding decimal scan
parse_u64-decimal n h =
    let (c, s, e) = emit-cons n n [] in
    parse_by c s (decimal n) e (decimal-IsDigit n) ∙ scan-emit (suc n) n [] (omega arith) h

pub decimal-ne-nil : (n : ℕ) → decimal n ≢ []
unfolding decimal
decimal-ne-nil n h = let (c, s, e) = emit-cons n n [] in cc

emit-last :
    (fuel n : ℕ) (out : Text) → (a : Text) × (emit (suc fuel) n out ≡ a ++ (b'0' + n % 10) ∷ out)
unfolding emit
emit-last zero n out = elim (Bool-cases (ltb n 10)) [
  | inl e ↦ ([], rw e refl)
  | inr e ↦ ([], rw e refl)
]
emit-last (suc fuel) n out = elim (Bool-cases (ltb n 10)) [
  | inl e ↦ ([], rw e refl)
  | inr e ↦
      let digit = b'0' + n % 10 in
      let (a, h) = emit-last fuel (n / 10) (digit ∷ out) in
      (
        a ++ (b'0' + n / 10 % 10) ∷ [],
        rw e (h ∙ sym (append_assoc a ((b'0' + n / 10 % 10) ∷ []) (digit ∷ out))),
      )
]

-- The last character of a decimal is a digit.
pub decimal-last : (n : ℕ) → (a : Text) × (decimal n ≡ a ++ (b'0' + n % 10) ∷ [])
unfolding decimal
decimal-last n = emit-last n n []
