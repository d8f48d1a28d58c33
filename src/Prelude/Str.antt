-- ===== src/Prelude/Str.antt =====
-- Rust's `str` as the list of its characters' code points, with the methods the program calls.
use Prim.Native.Char.{code}
use Prim.Native.String.{String}
use Prim.Native.Nat.{ℕ}
use mathlib.Core.Path.{◌≡◌, refl, ap, ◌∙◌}
use mathlib.Core.Logic.{◌≢◌}
use mathlib.Core.Bool.{Bool, true, false, ◌&&◌, ◌||◌}
use mathlib.Core.List.{
  List, [], ◌∷◌, ◌++◌, reverse, reverse-reverse, reverse-append, reverse-cons, append_assoc,
}
use mathlib.Core.Option.{Option, none, some}
use native.Mathlib.Omega.{arith}
use m_kestrel.Prelude.Tests.{if◌then◌else◌, eqb, leb}

abbrev pub Text : Type 0
Text = List ℕ

-- The characters of a literal.
abbrev pub codes : String → Text
codes String.[] = []
codes (String.◌∷◌ c s) = code c ∷ codes s

-- `char::is_whitespace`: the Unicode property White_Space.
unfoldable pub is_whitespace : ℕ → Bool
is_whitespace c =
    (leb 9 c && leb c 13)
    || eqb c 0x20
    || eqb c 0x85
    || eqb c 0xA0
    || eqb c 0x1680
    || (leb 0x2000 c && leb c 0x200A)
    || eqb c 0x2028
    || eqb c 0x2029
    || eqb c 0x202F
    || eqb c 0x205F
    || eqb c 0x3000

unfoldable pub drop_while : (ℕ → Bool) → Text → Text
drop_while p [] = []
drop_while p (c ∷ s) = if p c then drop_while p s else c ∷ s

-- `trim_end_matches(p)` and `trim`.
unfoldable pub trim_end_matches : (ℕ → Bool) → Text → Text
trim_end_matches p s = reverse (drop_while p (reverse s))

unfoldable pub trim : Text → Text
unfolding trim_end_matches is_whitespace drop_while
trim s = trim_end_matches is_whitespace (drop_while is_whitespace s)

unfoldable pub starts_with : Text → Text → Bool
starts_with s [] = true
starts_with [] (p ∷ ps) = false
starts_with (c ∷ s) (p ∷ ps) = eqb c p && starts_with s ps

unfoldable pub strip_prefix : Text → Text → Option Text
strip_prefix s [] = some s
strip_prefix [] (p ∷ ps) = none
strip_prefix (c ∷ s) (p ∷ ps) = if eqb c p then strip_prefix s ps else none

unfoldable pub ends_with : Text → Text → Bool
unfolding starts_with
ends_with s p = starts_with (reverse s) (reverse p)

-- `contains` of one text in another.
unfoldable pub contains_text : Text → Text → Bool
unfolding starts_with
contains_text [] p = starts_with [] p
contains_text (c ∷ s) p = starts_with (c ∷ s) p || contains_text s p

-- `split(c)`: there is always a first part.
unfoldable pub split_head : ℕ → Text → Text
split_head sep [] = []
split_head sep (c ∷ s) = if eqb c sep then [] else c ∷ split_head sep s

-- What stands behind the first `sep`, if there is one.
unfoldable pub split_tail : ℕ → Text → Option Text
split_tail sep [] = none
split_tail sep (c ∷ s) = if eqb c sep then some s else split_tail sep s

-- `split_once(c)`.
unfoldable pub split_once : ℕ → Text → Option (Text × Text)
unfolding split_head split_tail
split_once sep s = elim (split_tail sep s) [ none ↦ none | some b ↦ some (split_head sep s, b) ]

-- `split(c)` as the list of its parts.
unfoldable pub split : ℕ → Text → List Text
split sep [] = [] ∷ []
split sep (c ∷ s) =
    let rest = split sep s in
    if eqb c sep then [] ∷ rest else elim rest [ [] ↦ (c ∷ []) ∷ [] | p ∷ ps ↦ (c ∷ p) ∷ ps ]

-- A character test that fails everywhere.
abbrev pub Lacks : ℕ → Text → Type 0
Lacks sep [] = Unit {0}
Lacks sep (c ∷ s) = (c ≢ sep) × Lacks sep s

pub split_head-Lacks :
    (sep : ℕ) (s rest : Text) → Lacks sep s → split_head sep (s ++ sep ∷ rest) ≡ s
unfolding split_head
split_head-Lacks sep [] rest h = ground arith
split_head-Lacks sep (c ∷ s) rest h = ground (arith, split_head-Lacks sep s rest h.1)

pub split_tail-Lacks :
    (sep : ℕ) (s rest : Text) → Lacks sep s → split_tail sep (s ++ sep ∷ rest) ≡ some rest
unfolding split_tail
split_tail-Lacks sep [] rest h = ground arith
split_tail-Lacks sep (c ∷ s) rest h = ground (arith, split_tail-Lacks sep s rest h.1)

pub split_head_all : (sep : ℕ) (s : Text) → Lacks sep s → split_head sep s ≡ s
unfolding split_head
split_head_all sep [] h = refl
split_head_all sep (c ∷ s) h = ground (arith, split_head_all sep s h.1)

pub split_once-Lacks :
    (sep : ℕ) (s rest : Text) → Lacks sep s → split_once sep (s ++ sep ∷ rest) ≡ some (s, rest)
unfolding split_once
split_once-Lacks sep s rest h =
    rw (split_tail-Lacks sep s rest h, split_once, split_head-Lacks sep s rest h)

pub strip_prefix-append : (p s : Text) → strip_prefix (p ++ s) p ≡ some s
unfolding strip_prefix
strip_prefix-append [] s = refl
strip_prefix-append (c ∷ p) s = ground (arith, strip_prefix-append p s)

pub starts_with-append : (p s : Text) → starts_with (p ++ s) p ≡ true
unfolding starts_with
starts_with-append [] s = refl
starts_with-append (c ∷ p) s = ground (arith, starts_with-append p s)

pub starts_with_self : (p : Text) → starts_with p p ≡ true
unfolding starts_with
starts_with_self [] = refl
starts_with_self (c ∷ p) = ground (arith, starts_with_self p)

pub ends_with-append : (s p : Text) → ends_with (s ++ p) p ≡ true
unfolding ends_with
ends_with-append s p = rw (reverse-append s p) (starts_with-append (reverse p) (reverse s))

pub Lacks-append : (c : ℕ) (s t : Text) → Lacks c s → Lacks c t → Lacks c (s ++ t)
Lacks-append c [] t h k = k
Lacks-append c (d ∷ s) t h k = (h.0, Lacks-append c s t h.1 k)

pub Lacks-reverse : (c : ℕ) (s : Text) → Lacks c s → Lacks c (reverse s)
Lacks-reverse c [] h = tt
Lacks-reverse c (d ∷ s) h =
    rw (reverse-cons d s) (Lacks-append c (reverse s) (d ∷ []) (Lacks-reverse c s h.1) (h.0, tt))

-- The part of `s` behind its last `sep`: `rsplit(sep).next()`.
unfoldable pub last_part : ℕ → Text → Text
unfolding split_head
last_part sep s = reverse (split_head sep (reverse s))

pub last_part-append :
    (sep : ℕ) (a name : Text) → Lacks sep name → last_part sep (a ++ sep ∷ name) ≡ name
unfolding last_part
last_part-append sep a name h =
    let turned : reverse (a ++ sep ∷ name) ≡ reverse name ++ sep ∷ reverse a =
      reverse-append a (sep ∷ name)
      ∙ ap (λ t. t ++ reverse a) (reverse-cons sep name)
      ∙ append_assoc (reverse name) (sep ∷ []) (reverse a) in
    rw (turned, split_head-Lacks sep (reverse name) (reverse a) (Lacks-reverse sep name h))
      (reverse-reverse name)
