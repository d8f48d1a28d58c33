-- ===== src/Prelude/Lines.antt =====
-- Texts taken apart: `lines` and `split_whitespace`.
use Prim.Native.Nat.{ℕ}
use mathlib.Core.Bool.{◌&&◌}
use mathlib.Core.List.{List, [], ◌∷◌}
use m_kestrel.Prelude.Tests.{if◌then◌else◌, eqb}
use m_kestrel.Prelude.Str.{Text, is_whitespace, starts_with}

-- A character in front of the first line.
unfoldable pub onto_first : ℕ → List Text → List Text
onto_first c [] = (c ∷ []) ∷ []
onto_first c (l ∷ ls) = (c ∷ l) ∷ ls

-- A line ends with `\n` or `\r\n`; behind the last one there is no line.
unfoldable pub lines : Text → List Text
unfolding onto_first starts_with
lines [] = []
lines (c ∷ s) =
    let rest = lines s in
    if eqb c 10
    then [] ∷ rest
    else if eqb c 13 && starts_with s (10 ∷ [])
    then rest
    else onto_first c rest

-- The parts between single blanks.
unfoldable pub split_words : Text → List Text
unfolding onto_first is_whitespace
split_words [] = [] ∷ []
split_words (c ∷ s) =
    let rest = split_words s in if is_whitespace c then [] ∷ rest else onto_first c rest

unfoldable pub non_empty : List Text → List Text
non_empty [] = []
non_empty ([] ∷ ws) = non_empty ws
non_empty ((c ∷ w) ∷ ws) = (c ∷ w) ∷ non_empty ws

unfoldable pub split_whitespace : Text → List Text
unfolding split_words non_empty
split_whitespace s = non_empty (split_words s)
