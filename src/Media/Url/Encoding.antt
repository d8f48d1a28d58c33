-- ===== src/Media/Url/Encoding.antt =====
-- crates/mk-media/src/lib.rs: percent-encoding loses nothing, and its text is safe in a query.
use m_kestrel.Prelude.{
  ℕ, ◌+◌, ◌-◌, ◌*◌, ◌/◌, ◌%◌, ◌⊎◌, ◌∙◌, ◌<◌, true, false, [], ◌∷◌, ◌≡◌, refl, arith, inl, inr, ap,
  Bool-cases, All, if◌then◌else◌, eqb, ltb, Text,
}
use m_kestrel.Core.Persistence.{Bytes}
use m_kestrel.Media.Url.{is_kept, hex_digit, percent_encode}

-- The value of a hexadecimal digit, `A` to `F` in capitals.
abbrev pub hex_value : ℕ → ℕ
hex_value c = if ltb c b'A' then c - b'0' else c - b'A' + 10

-- Percent-decoding as RFC 3986 has it, of a text with no stray `%`.
unfoldable pub percent_decode : Text → Bytes
percent_decode [] = []
percent_decode (c ∷ []) = c ∷ []
percent_decode (c ∷ d ∷ []) = c ∷ d ∷ []
percent_decode (c ∷ d ∷ e ∷ s) =
    let short = percent_decode (d ∷ e ∷ s) in
    let long = percent_decode s in
    if eqb c b'%' then (hex_value d * 16 + hex_value e) ∷ long else c ∷ short

-- No character of it ends the query or has a meaning there: `&`, `#`, `+`, `?`, `=` and blanks.
abbrev pub IsSafe : ℕ → Type 0
IsSafe c = (is_kept c ≡ true) ⊎ (c ≡ b'%')

kept-ne-percent : (c : ℕ) → is_kept c ≡ true → eqb c b'%' ≡ false
unfolding is_kept
kept-ne-percent c h = ground arith

hex_digit-kept : (n : ℕ) → n < 16 → is_kept (hex_digit n) ≡ true
unfolding is_kept hex_digit
hex_digit-kept n h = ground arith

hex_value-digit : (n : ℕ) → n < 16 → hex_value (hex_digit n) ≡ n
unfolding hex_digit
hex_value-digit n h = ground arith

decode_other :
    (c : ℕ) (s : Text) → eqb c b'%' ≡ false → percent_decode (c ∷ s) ≡ c ∷ percent_decode s
unfolding percent_decode
decode_other c [] h = refl
decode_other c (d ∷ []) h = refl
decode_other c (d ∷ e ∷ s) h = rw (h, percent_decode)

decode_escape :
    (b : ℕ) (s : Text)
    → b < 256
    → percent_decode (b'%' ∷ hex_digit (b / 16) ∷ hex_digit (b % 16) ∷ s) ≡ b ∷ percent_decode s
unfolding percent_decode
decode_escape b s h =
    rw (hex_value-digit (b / 16) (omega arith), hex_value-digit (b % 16) (omega arith))
      (ap (λ c. c ∷ percent_decode s) (omega arith))

-- Decoding the text that stands for some bytes gives these bytes back, so no two paths share a URL.
pub percent_decode-encode :
    (s : Bytes) → All (λ b. b < 256) s → percent_decode (percent_encode s) ≡ s
unfolding percent_encode percent_decode
percent_decode-encode [] h = refl
percent_decode-encode (b ∷ s) h = elim (Bool-cases (is_kept b)) [
  | inl kept ↦
      rw (kept, percent_encode)
        (decode_other b (percent_encode s) (kept-ne-percent b kept)
          ∙ ap (◌∷◌ b) (percent_decode-encode s h.1))
  | inr escaped ↦
      rw (escaped, percent_encode)
        (decode_escape b (percent_encode s) h.0 ∙ ap (◌∷◌ b) (percent_decode-encode s h.1))
]

-- The text for some bytes has only characters that a query may hold.
pub percent_encode-IsSafe : (s : Bytes) → All (λ b. b < 256) s → All IsSafe (percent_encode s)
unfolding percent_encode
percent_encode-IsSafe [] h = tt
percent_encode-IsSafe (b ∷ s) h = elim (Bool-cases (is_kept b)) [
  | inl kept ↦ rw (kept, percent_encode) (inl kept, percent_encode-IsSafe s h.1)
  | inr escaped ↦
      rw (escaped, percent_encode)
        (
          inr refl,
          (
            inl (hex_digit-kept (b / 16) (omega (arith, h.0))),
            (inl (hex_digit-kept (b % 16) (omega arith)), percent_encode-IsSafe s h.1),
          ),
        )
]
