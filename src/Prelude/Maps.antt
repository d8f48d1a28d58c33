-- ===== src/Prelude/Maps.antt =====
-- `HashMap<String, V>` as the list of its entries, one for each key.
use mathlib.Core.Path.{◌≡◌, refl}
use mathlib.Core.Logic.{inl, inr}
use mathlib.Core.Bool.{false, not}
use mathlib.Core.List.{List, [], ◌∷◌}
use mathlib.Core.Option.{Option, none, some}
use native.Mathlib.Omega.{arith}
use m_kestrel.Prelude.Tests.{if◌then◌else◌, Bool-cases}
use m_kestrel.Prelude.Classes.{◌==◌, text_eq, text_beq_iff}
use m_kestrel.Prelude.Lists.{filter}
use m_kestrel.Prelude.Str.{Text}

abbrev pub Table : Type 0 → Type 0
Table V = List (Text × V)

unfoldable pub lookup : {V : Type 0} → Text → Table V → Option V
lookup k [] = none
lookup k ((j, v) ∷ t) = if j == k then some v else lookup k t

unfoldable pub erase : {V : Type 0} → Text → Table V → Table V
erase k t = filter (λ e. not (e.0 == k)) t

unfoldable pub enter : {V : Type 0} → Text → V → Table V → Table V
unfolding erase
enter k v t = (k, v) ∷ erase k t

pub lookup-erase : {V : Type 0} (k : Text) (t : Table V) → lookup k (erase k t) ≡ none
unfolding lookup erase filter
lookup-erase k [] = refl
lookup-erase k ((j, v) ∷ t) = elim (Bool-cases (j == k)) [
  | inl same ↦ rw (same, filter) (lookup-erase k t)
  | inr other ↦ rw (other, filter, lookup, other) (lookup-erase k t)
]

pub lookup-erase_other :
    {V : Type 0} (k j : Text) (t : Table V) → (k == j) ≡ false → lookup j (erase k t) ≡ lookup j t
unfolding lookup erase filter
lookup-erase_other k j [] h = refl
lookup-erase_other k j ((i, v) ∷ t) h =
    ground (arith, text_beq_iff k j, text_beq_iff i k, text_beq_iff i j, lookup-erase_other k j t h)

pub lookup-enter :
    {V : Type 0} (k j : Text) (v : V) (t : Table V)
    → lookup j (enter k v t) ≡ (if k == j then some v else lookup j t)
unfolding enter lookup
lookup-enter k j v t = elim (Bool-cases (k == j)) [
  | inl same ↦ rw (enter, lookup, same) refl
  | inr other ↦ rw (enter, lookup, other) (lookup-erase_other k j t other)
]

pub lookup-enter_other :
    {V : Type 0} (k j : Text) (v : V) (t : Table V)
    → (k == j) ≡ false
    → lookup j (enter k v t) ≡ lookup j t
lookup-enter_other k j v t h = rw (lookup-enter k j v t, h) refl
