-- ===== src/Ui/Listing/Shown.antt =====
-- crates/mk-ui/src/store.rs: the order of the table, described without the comparison of the code.
use mathlib.Core.List.{Perm}
use m_kestrel.Prelude.{
  eqb, ltb, Bool-cases, ◌↔◌, ℕ, ◌≤◌, ◌<◌, ℤ, pos, negsuc, Bool, true, List, [], ◌∷◌, Text, filter,
  ◌≡◌, ◌≢◌, ◌⊎◌, refl, inl, inr, arith, ap, ◌∙◌, All, All-mono, compare_text, compare_ℤ, at_most,
  Sorted,
}
use m_kestrel.Core.Host.{Entry, EntryKind}
use m_kestrel.Core.Settings.{SortKey, SortDir, SortSpec}
use m_kestrel.Ui.Enqueue.{is_dir}
use m_kestrel.Ui.Listing.{
  compare_kinds, compare_key, compare_entries, is_shown, visible_listing, directed,
}
use m_kestrel.Ui.Listing.Order.{visible_listing-Sorted, key_swap}

-- The order of a dictionary: a text stands before those that it begins.
abbrev pub TextLe : Text → Text → Type 0
TextLe [] t = Unit {0}
TextLe (c ∷ s) [] = ⊥
TextLe (c ∷ s) (d ∷ t) = (c < d) ⊎ ((c ≡ d) × TextLe s t)

abbrev pub IntLe : ℤ → ℤ → Type 0
IntLe (pos m) (pos n) = m ≤ n
IntLe (pos m) (negsuc n) = ⊥
IntLe (negsuc m) (pos n) = Unit {0}
IntLe (negsuc m) (negsuc n) = n ≤ m

module _ (to_lowercase : Text → Text) where
  abbrev pub KeyLe : SortKey → Entry → Entry → Type 0
  KeyLe SortKey.name a b = TextLe (to_lowercase a.name) (to_lowercase b.name)
  KeyLe SortKey.size a b = a.size_bytes ≤ b.size_bytes
  KeyLe SortKey.mtime a b = IntLe a.mtime b.mtime
  KeyLe SortKey.mode a b = a.mode ≤ b.mode
  KeyLe SortKey.owner a b = TextLe a.owner_label b.owner_label

  abbrev pub InDirection : SortDir → SortKey → Entry → Entry → Type 0
  InDirection SortDir.asc k a b = KeyLe k a b
  InDirection SortDir.desc k a b = KeyLe k b a

  -- A directory stands before what is none; else the key decides, in the direction of the sort.
  abbrev pub MayPrecede : SortSpec → Entry → Entry → Type 0
  MayPrecede spec a b =
      ((a.kind ≡ EntryKind.dir) × (b.kind ≢ EntryKind.dir))
      ⊎ (((a.kind ≡ EntryKind.dir) ↔ (b.kind ≡ EntryKind.dir)) × InDirection spec.dir spec.key a b)

  -- Each entry may precede all that stand behind it.
  abbrev pub InOrder : SortSpec → List Entry → Type 0
  InOrder spec [] = Unit {0}
  InOrder spec (e ∷ es) = All (MayPrecede spec e) es × InOrder spec es

dec_order : (m n : ℕ) → (m < n) ⊎ ((m ≡ n) ⊎ (n < m))
dec_order m n = elim (Bool-cases (ltb m n)) [
  | inl e ↦ inl (ground arith)
  | inr e ↦ elim (Bool-cases (eqb m n)) [
    | inl f ↦ inr (inl (ground arith))
    | inr f ↦ inr (inr (ground arith))
  ]
]

text_le : (a b : Text) → at_most (compare_text a b) ≡ true → TextLe a b
unfolding compare_text
text_le [] b h = tt
text_le (x ∷ a) [] h = cc
text_le (x ∷ a) (y ∷ b) h = elim (dec_order x y) [
  | inl l ↦ inl l
  | inr (inl e) ↦ inr (e, text_le a b (ground (arith, h, e)))
  | inr (inr g) ↦ absurd (ground (arith, h, g))
]

int_le : (a b : ℤ) → at_most (compare_ℤ a b) ≡ true → IntLe a b
unfolding compare_ℤ
int_le (pos m) (pos n) h = ground arith
int_le (pos m) (negsuc n) h = cc
int_le (negsuc m) (pos n) h = tt
int_le (negsuc m) (negsuc n) h = ground arith

is_dir_iff : (k : EntryKind) → (is_dir k ≡ true) ↔ (k ≡ EntryKind.dir)
is_dir_iff EntryKind.dir = ((λ e. refl), (λ e. refl))
is_dir_iff EntryKind.file = ((λ e. cc), (λ e. cc))
is_dir_iff EntryKind.symlink = ((λ e. cc), (λ e. cc))

module _ (to_lowercase : Text → Text) where
  key_le :
      (k : SortKey) (a b : Entry)
      → at_most (compare_key to_lowercase k a b) ≡ true
      → KeyLe to_lowercase k a b
  unfolding compare_key
  key_le SortKey.name a b h = text_le (to_lowercase a.name) (to_lowercase b.name) h
  key_le SortKey.size a b h = ground arith
  key_le SortKey.mtime a b h = int_le a.mtime b.mtime h
  key_le SortKey.mode a b h = ground arith
  key_le SortKey.owner a b h = text_le a.owner_label b.owner_label h

  in_direction :
      (d : SortDir) (k : SortKey) (a b : Entry)
      → at_most (directed d (compare_key to_lowercase k a b)) ≡ true
      → InDirection to_lowercase d k a b
  in_direction SortDir.asc k a b h = key_le k a b h
  in_direction SortDir.desc k a b h = key_le k b a (ap at_most (key_swap to_lowercase k a b) ∙ h)

  may_precede :
      (spec : SortSpec) (a b : Entry)
      → at_most (compare_entries to_lowercase spec a b) ≡ true
      → MayPrecede to_lowercase spec a b
  unfolding compare_entries compare_kinds
  may_precede spec a b h =
      let left = is_dir_iff a.kind in
      let right = is_dir_iff b.kind in
      elim (Bool-cases (is_dir a.kind)) [
        | inl x ↦ elim (Bool-cases (is_dir b.kind)) [
          | inl y ↦ inr (
            ((λ _. right.0 y), (λ _. left.0 x)),
            in_direction spec.dir spec.key a b (rw (x, y) at h),
          )
          | inr y ↦ inl (left.0 x, λ e. absurd (ground (arith, y, right.1 e)))
        ]
        | inr x ↦ elim (Bool-cases (is_dir b.kind)) [
          | inl y ↦ absurd (ground (arith, rw (x, y) at h))
          | inr y ↦ inr (
            (
              (λ e. absurd (ground (arith, x, left.1 e))),
              (λ e. absurd (ground (arith, y, right.1 e))),
            ),
            in_direction spec.dir spec.key a b (rw (x, y) at h),
          )
        ]
      ]

  Sorted-InOrder :
      (spec : SortSpec) (es : List Entry)
      → Sorted (compare_entries to_lowercase spec) es
      → InOrder to_lowercase spec es
  Sorted-InOrder spec [] s = tt
  Sorted-InOrder spec (e ∷ es) s =
      (All-mono es (λ x h. may_precede spec e x h) s.0, Sorted-InOrder spec es s.1)

  -- With the sort applied, the visible listing has the entries that are shown, each as often, with
  -- the directories in front, and among the directories and among the other entries each one's key
  -- at most that of those behind it, or at least that where the direction is descending.
  pub visible_listing-InOrder :
      (show_hidden : Bool) (typed : Text) (spec : SortSpec) (listing : List Entry)
      → InOrder to_lowercase spec (visible_listing to_lowercase show_hidden typed spec true listing)
        × Perm
            (visible_listing to_lowercase show_hidden typed spec true listing)
            (filter (is_shown to_lowercase show_hidden (to_lowercase typed)) listing)
  visible_listing-InOrder show_hidden typed spec listing =
      let sorted = visible_listing-Sorted to_lowercase show_hidden typed spec listing in
      (Sorted-InOrder spec _ sorted.0, sorted.1)
