-- ===== src/Prelude/Sorting.antt =====
-- `Ordering`, the comparisons of the standard library, and `slice::sort_by`: a stable sort.
use Prim.Native.Nat.{compare, Ordering}
use mathlib.Core.Path.{◌≡◌}
use mathlib.Core.Logic.{inl, inr}
use mathlib.Core.Bool.{Bool, true, false}
use mathlib.Core.List.{List, [], ◌∷◌}
use mathlib.Core.List.{Perm}
use mathlib.Core.List.Perm
use m_kestrel.Prelude.Tests.{if◌then◌else◌, Bool-cases}
use m_kestrel.Prelude.Lists.{All, All-mono}
use m_kestrel.Prelude.Int.{ℤ, pos, negsuc}
use m_kestrel.Prelude.Str.{Text}

-- `Ordering::reverse`.
unfoldable pub reverse_order : Ordering → Ordering
reverse_order Ordering.lt = Ordering.gt
reverse_order Ordering.eq = Ordering.eq
reverse_order Ordering.gt = Ordering.lt

-- `str::cmp`, which compares bytes: for UTF-8 this is the order of the characters' code points.
unfoldable pub compare_text : Text → Text → Ordering
compare_text [] [] = Ordering.eq
compare_text [] (y ∷ ys) = Ordering.lt
compare_text (x ∷ xs) [] = Ordering.gt
compare_text (x ∷ xs) (y ∷ ys) = elim (compare x y) [
  | Ordering.lt ↦ Ordering.lt
  | Ordering.gt ↦ Ordering.gt
  | Ordering.eq ↦ compare_text xs ys
]

unfoldable pub compare_ℤ : ℤ → ℤ → Ordering
compare_ℤ (pos m) (pos n) = compare m n
compare_ℤ (negsuc m) (negsuc n) = compare n m
compare_ℤ (pos m) (negsuc n) = Ordering.gt
compare_ℤ (negsuc m) (pos n) = Ordering.lt

-- Not greater.
abbrev pub at_most : Ordering → Bool
at_most Ordering.gt = false
at_most _ = true

module _ {ℓ} {A : Type ℓ} (order : A → A → Ordering) where
  -- Before the first element that is not less: what comes first in the list stays before its equals.
  unfoldable pub insert_sorted : A → List A → List A
  insert_sorted x [] = x ∷ []
  insert_sorted x (y ∷ ys) = if at_most (order x y) then x ∷ y ∷ ys else y ∷ insert_sorted x ys

  unfoldable pub sort_by : List A → List A
  unfolding insert_sorted
  sort_by [] = []
  sort_by (x ∷ xs) = insert_sorted x (sort_by xs)

  -- Every element is at most those behind it.
  abbrev pub Sorted : List A → Type ℓ
  Sorted [] = Unit
  Sorted (x ∷ xs) = All (λ y. at_most (order x y) ≡ true) xs × Sorted xs

  -- A total preorder, as `sort_by` asks for.
  pub record IsTotalOrder : Type ℓ where
    pub total : (x y : A) → at_most (order x y) ≡ false → at_most (order y x) ≡ true
    pub trans :
        (x y z : A)
        → at_most (order x y) ≡ true
        → at_most (order y z) ≡ true
        → at_most (order x z) ≡ true

  module _ (o : IsTotalOrder) where
    All-insert :
        (z x : A) (xs : List A)
        → at_most (order z x) ≡ true
        → All (λ y. at_most (order z y) ≡ true) xs
        → All (λ y. at_most (order z y) ≡ true) (insert_sorted x xs)
    unfolding insert_sorted
    All-insert z x [] h k = (h, tt)
    All-insert z x (y ∷ ys) h k = elim (Bool-cases (at_most (order x y))) [
      | inl e ↦ rw (e, insert_sorted) (h, k)
      | inr e ↦ rw (e, insert_sorted) (k.0, All-insert z x ys h k.1)
    ]

    insert-Sorted : (x : A) (xs : List A) → Sorted xs → Sorted (insert_sorted x xs)
    unfolding insert_sorted
    insert-Sorted x [] s = (tt, tt)
    insert-Sorted x (y ∷ ys) s = elim (Bool-cases (at_most (order x y))) [
      | inl e ↦ rw (e, insert_sorted) ((e, All-mono ys (λ z h. o.trans x y z e h) s.0), s)
      | inr e ↦
          rw (e, insert_sorted) (All-insert y x ys (o.total x y e) s.0, insert-Sorted x ys s.1)
    ]

    pub sort_by-Sorted : (xs : List A) → Sorted (sort_by xs)
    unfolding sort_by
    sort_by-Sorted [] = tt
    sort_by-Sorted (x ∷ xs) = insert-Sorted x (sort_by xs) (sort_by-Sorted xs)

  insert-Perm : (x : A) (xs : List A) → Perm (insert_sorted x xs) (x ∷ xs)
  unfolding insert_sorted
  insert-Perm x [] = Perm.refl (x ∷ [])
  insert-Perm x (y ∷ ys) = elim (Bool-cases (at_most (order x y))) [
    | inl e ↦ rw (e, insert_sorted) (Perm.refl (x ∷ y ∷ ys))
    | inr e ↦ rw (e, insert_sorted) (Perm.trans (Perm.cons y (insert-Perm x ys)) (Perm.swap x y ys))
  ]

  pub sort_by-Perm : (xs : List A) → Perm (sort_by xs) xs
  unfolding sort_by
  sort_by-Perm [] = Perm.refl []
  sort_by-Perm (x ∷ xs) = Perm.trans (insert-Perm x (sort_by xs)) (Perm.cons x (sort_by-Perm xs))
