-- ===== src/Prelude/Trim.antt =====
-- What `trim` and `trim_end_matches` leave at the ends of a text.
use Prim.Native.Nat.{ℕ}
use mathlib.Core.Path.{◌≡◌, refl, ap, sym, subst, ◌∙◌}
use mathlib.Core.Logic.{inl, inr}
use mathlib.Core.Bool.{Bool, false}
use mathlib.Core.List.{[], ◌∷◌, ◌++◌, reverse, reverse-reverse, reverse-append}
use native.Mathlib.Omega.{arith}
use m_kestrel.Prelude.Tests.{Bool-cases}
use m_kestrel.Prelude.Str.{Text, drop_while, is_whitespace, trim, trim_end_matches}

-- `drop_while` leaves nothing, or a text whose first character fails the test.
abbrev pub HeadFails : (ℕ → Bool) → Text → Type 0
HeadFails p [] = Unit {0}
HeadFails p (c ∷ s) = p c ≡ false

pub drop_while-HeadFails : (p : ℕ → Bool) (s : Text) → HeadFails p (drop_while p s)
unfolding drop_while
drop_while-HeadFails p [] = tt
drop_while-HeadFails p (c ∷ s) = elim (Bool-cases (p c)) [
  | inl e ↦ rw (e, drop_while) (drop_while-HeadFails p s)
  | inr e ↦ rw (e, drop_while) e
]

pub drop_while_none : (p : ℕ → Bool) (s : Text) → HeadFails p s → drop_while p s ≡ s
unfolding drop_while
drop_while_none p [] h = refl
drop_while_none p (c ∷ s) h = ground arith

abbrev pub LastFails : (ℕ → Bool) → Text → Type 0
LastFails p s = HeadFails p (reverse s)

pub trim_end_matches-LastFails : (p : ℕ → Bool) (s : Text) → LastFails p (trim_end_matches p s)
unfolding trim_end_matches
trim_end_matches-LastFails p s =
    rw (reverse-reverse (drop_while p (reverse s))) (drop_while-HeadFails p (reverse s))

pub trim_end_matches_none : (p : ℕ → Bool) (s : Text) → LastFails p s → trim_end_matches p s ≡ s
unfolding trim_end_matches
trim_end_matches_none p s h = rw (drop_while_none p (reverse s) h, reverse-reverse s)

pub trim_none : (s : Text) → HeadFails is_whitespace s → LastFails is_whitespace s → trim s ≡ s
unfolding trim
trim_none s h l = rw (drop_while_none is_whitespace s h) (trim_end_matches_none is_whitespace s l)

-- `drop_while` cuts a prefix off, and so `trim_end_matches` a suffix.
drop_while-suffix : (p : ℕ → Bool) (s : Text) → (r : Text) × (s ≡ r ++ drop_while p s)
unfolding drop_while
drop_while-suffix p [] = ([], refl)
drop_while-suffix p (c ∷ s) = elim (Bool-cases (p c)) [
  | inl e ↦ let rest = drop_while-suffix p s in (c ∷ rest.0, rw (e, drop_while) (ap (◌∷◌ c) rest.1))
  | inr e ↦ ([], rw (e, drop_while))
]

pub trim_end_matches-prefix :
    (p : ℕ → Bool) (s : Text) → (r : Text) × (s ≡ trim_end_matches p s ++ r)
unfolding trim_end_matches
trim_end_matches-prefix p s =
    let cut = drop_while-suffix p (reverse s) in
    (
      reverse cut.0,
      sym (reverse-reverse s) ∙ ap reverse cut.1 ∙ reverse-append cut.0 (drop_while p (reverse s)),
    )

HeadFails-prefix : (p : ℕ → Bool) (a r s : Text) → s ≡ a ++ r → HeadFails p s → HeadFails p a
HeadFails-prefix p [] r s e h = tt
HeadFails-prefix p (c ∷ a) r s e h = subst (HeadFails p) e h

pub trim_end_matches-HeadFails :
    (p q : ℕ → Bool) (s : Text) → HeadFails p s → HeadFails p (trim_end_matches q s)
trim_end_matches-HeadFails p q s h =
    let cut = trim_end_matches-prefix q s in
    HeadFails-prefix p (trim_end_matches q s) cut.0 s cut.1 h

pub trim-HeadFails : (s : Text) → HeadFails is_whitespace (trim s)
unfolding trim
trim-HeadFails s =
    trim_end_matches-HeadFails is_whitespace is_whitespace (drop_while is_whitespace s)
      (drop_while-HeadFails is_whitespace s)

pub trim-LastFails : (s : Text) → LastFails is_whitespace (trim s)
unfolding trim
trim-LastFails s = trim_end_matches-LastFails is_whitespace (drop_while is_whitespace s)

pub trim_idem : (s : Text) → trim (trim s) ≡ trim s
trim_idem s = trim_none (trim s) (trim-HeadFails s) (trim-LastFails s)

pub LastFails-last : (p : ℕ → Bool) (a : Text) (c : ℕ) → p c ≡ false → LastFails p (a ++ c ∷ [])
LastFails-last p a c h = rw (reverse-append a (c ∷ [])) h
