-- ===== src/Prelude/Classes.antt =====
-- Equality tests as an interface, with one operator for every type that has an instance.
use Prim.Native.Nat.{ℕ}
use mathlib.Core.Path.{◌≡◌, refl}
use mathlib.Core.Logic.{◌↔◌, ◌≢◌}
use mathlib.Core.Bool.{Bool, true, false, ◌&&◌}
use mathlib.Core.List.{List, [], ◌∷◌}
use mathlib.Core.Option.{Option, none, some}
use native.Mathlib.Omega.{arith}
use m_kestrel.Prelude.Tests.{eqb}

unfoldable pub text_beq : List ℕ → List ℕ → Bool
text_beq [] [] = true
text_beq [] (y ∷ ys) = false
text_beq (x ∷ xs) [] = false
text_beq (x ∷ xs) (y ∷ ys) = eqb x y && text_beq xs ys

text_beq_sound : (a b : List ℕ) → text_beq a b ≡ true → a ≡ b
unfolding text_beq
text_beq_sound [] [] h = refl
text_beq_sound [] (y ∷ ys) h = cc
text_beq_sound (x ∷ xs) [] h = cc
text_beq_sound (x ∷ xs) (y ∷ ys) h = ground (arith, text_beq_sound xs ys)

pub text_beq_refl : (a : List ℕ) → text_beq a a ≡ true
unfolding text_beq
text_beq_refl [] = refl
text_beq_refl (x ∷ xs) = ground (arith, text_beq_refl xs)

pub text_beq_iff : (a b : List ℕ) → (text_beq a b ≡ true) ↔ (a ≡ b)
text_beq_iff a b = (text_beq_sound a b, λ e. rw e (text_beq_refl b))

pub text_ne : (a b : List ℕ) → text_beq a b ≡ false → a ≢ b
text_ne a b h e = ground (arith, h, (text_beq_iff a b).1 e)

pub ne_text : (a b : List ℕ) → a ≢ b → text_beq a b ≡ false
ne_text a b h = ground (arith, h, text_beq_iff a b)

-- `PartialEq`, for types where it is equality.
pub record PartialEq {ℓ} (A : Type ℓ) : Type ℓ where
  pub eq : A → A → Bool
  pub eq_law : (a b : A) → (eq a b ≡ true) ↔ (a ≡ b)

infix 50 ◌==◌
abbrev pub ◌==◌ {ℓ} : {A : Type ℓ} ⦃test : PartialEq A⦄ → A → A → Bool
◌==◌ ⦃test⦄ a b = test.eq a b

instance abbrev pub text_eq : PartialEq (List ℕ)
text_eq = record { eq_law = text_beq_iff; eq = text_beq }

-- `Option<T>: PartialEq`.
unfoldable pub option_beq {ℓ} : {A : Type ℓ} (e : A → A → Bool) → Option A → Option A → Bool
option_beq e none none = true
option_beq e none (some b) = false
option_beq e (some a) none = false
option_beq e (some a) (some b) = e a b

pub option_beq_iff {ℓ} :
    {A : Type ℓ} (e : A → A → Bool) (h : (a b : A) → (e a b ≡ true) ↔ (a ≡ b)) (a b : Option A)
    → (option_beq e a b ≡ true) ↔ (a ≡ b)
unfolding option_beq
option_beq_iff e h none none = ground arith
option_beq_iff e h none (some b) = ground arith
option_beq_iff e h (some a) none = ground arith
option_beq_iff e h (some a) (some b) = ground (arith, h a b)

instance abbrev pub text_option_eq : PartialEq (Option (List ℕ))
text_option_eq = record { eq = option_beq text_beq; eq_law = option_beq_iff text_beq text_beq_iff }
