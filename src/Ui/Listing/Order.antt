-- ===== src/Ui/Listing/Order.antt =====
-- crates/mk-ui/src/store.rs: the order of entries is total, and a listing is shown in it.
use mathlib.Core.List.{Perm}
use Prim.Native.Nat.{compare, Ordering}
use m_kestrel.Prelude.{
  ℕ, ℤ, pos, negsuc, Bool, true, false, List, [], ◌∷◌, Text, filter, ◌≡◌, refl, sym, ap, ◌∙◌, arith,
  reverse_order, compare_text, compare_ℤ, at_most, Sorted, IsTotalOrder, sort_by-Sorted,
  sort_by-Perm,
}
use m_kestrel.Core.Host.{Entry}
use m_kestrel.Core.Settings.{SortKey, SortDir, SortSpec}
use m_kestrel.Ui.Enqueue.{is_dir}
use m_kestrel.Ui.Listing.{
  compare_kinds, compare_key, compare_entries, sort_entries, is_shown, visible_listing, directed,
}

-- The other way round the comparison gives the reverse.
text_swap : (a b : Text) → compare_text b a ≡ reverse_order (compare_text a b)
unfolding compare_text reverse_order
text_swap [] [] = refl
text_swap [] (y ∷ ys) = refl
text_swap (x ∷ xs) [] = refl
text_swap (x ∷ xs) (y ∷ ys) = ground (arith, text_swap xs ys)

text_trans :
    (a b c : Text)
    → at_most (compare_text a b) ≡ true
    → at_most (compare_text b c) ≡ true
    → at_most (compare_text a c) ≡ true
unfolding compare_text
text_trans [] [] c h k = k
text_trans [] (y ∷ b) [] h k = refl
text_trans [] (y ∷ b) (z ∷ c) h k = refl
text_trans (x ∷ a) [] c h k = cc
text_trans (x ∷ a) (y ∷ b) [] h k = cc
text_trans (x ∷ a) (y ∷ b) (z ∷ c) h k = ground (arith, text_trans a b c)

int_swap : (a b : ℤ) → compare_ℤ b a ≡ reverse_order (compare_ℤ a b)
unfolding compare_ℤ reverse_order
int_swap (pos m) (pos n) = ground arith
int_swap (pos m) (negsuc n) = refl
int_swap (negsuc m) (pos n) = refl
int_swap (negsuc m) (negsuc n) = ground arith

int_trans :
    (a b c : ℤ)
    → at_most (compare_ℤ a b) ≡ true
    → at_most (compare_ℤ b c) ≡ true
    → at_most (compare_ℤ a c) ≡ true
unfolding compare_ℤ
int_trans (pos m) (pos n) (pos k) h i = ground arith
int_trans (pos m) (pos n) (negsuc k) h i = cc
int_trans (pos m) (negsuc n) c h i = cc
int_trans (negsuc m) (pos n) (pos k) h i = refl
int_trans (negsuc m) (pos n) (negsuc k) h i = cc
int_trans (negsuc m) (negsuc n) (pos k) h i = refl
int_trans (negsuc m) (negsuc n) (negsuc k) h i = ground arith

nat_swap : (m n : ℕ) → compare n m ≡ reverse_order (compare m n)
unfolding reverse_order
nat_swap m n = ground arith

nat_trans :
    (a b c : ℕ)
    → at_most (compare a b) ≡ true
    → at_most (compare b c) ≡ true
    → at_most (compare a c) ≡ true
nat_trans a b c h k = ground arith

module _ (to_lowercase : Text → Text) where
  pub key_swap :
      (k : SortKey) (a b : Entry)
      → compare_key to_lowercase k b a ≡ reverse_order (compare_key to_lowercase k a b)
  unfolding compare_key
  key_swap SortKey.name a b = text_swap (to_lowercase a.name) (to_lowercase b.name)
  key_swap SortKey.size a b = nat_swap a.size_bytes b.size_bytes
  key_swap SortKey.mtime a b = int_swap a.mtime b.mtime
  key_swap SortKey.mode a b = nat_swap a.mode b.mode
  key_swap SortKey.owner a b = text_swap a.owner_label b.owner_label

  key_trans :
      (k : SortKey) (a b c : Entry)
      → at_most (compare_key to_lowercase k a b) ≡ true
      → at_most (compare_key to_lowercase k b c) ≡ true
      → at_most (compare_key to_lowercase k a c) ≡ true
  unfolding compare_key
  key_trans SortKey.name a b c h i =
      text_trans (to_lowercase a.name) (to_lowercase b.name) (to_lowercase c.name) h i
  key_trans SortKey.size a b c h i = nat_trans a.size_bytes b.size_bytes c.size_bytes h i
  key_trans SortKey.mtime a b c h i = int_trans a.mtime b.mtime c.mtime h i
  key_trans SortKey.mode a b c h i = nat_trans a.mode b.mode c.mode h i
  key_trans SortKey.owner a b c h i = text_trans a.owner_label b.owner_label c.owner_label h i

  total_of : (o : Ordering) → at_most o ≡ false → at_most (reverse_order o) ≡ true
  unfolding reverse_order
  total_of Ordering.lt h = cc
  total_of Ordering.eq h = cc
  total_of Ordering.gt h = refl

  abbrev in_order : SortSpec → Entry → Entry → Ordering
  in_order spec a b = directed spec.dir (compare_key to_lowercase spec.key a b)

  order_total :
      (d : SortDir) (k : SortKey) (a b : Entry)
      → at_most (directed d (compare_key to_lowercase k a b)) ≡ false
      → at_most (directed d (compare_key to_lowercase k b a)) ≡ true
  order_total SortDir.asc k a b h =
      rw (key_swap k a b) (total_of (compare_key to_lowercase k a b) h)
  order_total SortDir.desc k a b h =
      rw (key_swap k a b) (total_of (reverse_order (compare_key to_lowercase k a b)) h)

  order_trans :
      (d : SortDir) (k : SortKey) (a b c : Entry)
      → at_most (directed d (compare_key to_lowercase k a b)) ≡ true
      → at_most (directed d (compare_key to_lowercase k b c)) ≡ true
      → at_most (directed d (compare_key to_lowercase k a c)) ≡ true
  order_trans SortDir.asc k a b c h i = key_trans k a b c h i
  order_trans SortDir.desc k a b c h i =
      ap at_most (sym (key_swap k a c))
      ∙ key_trans k c b a (ap at_most (key_swap k b c) ∙ i) (ap at_most (key_swap k a b) ∙ h)

  kinds_total :
      (p q : Bool) (o o' : Ordering)
      → (at_most o ≡ false → at_most o' ≡ true)
      → at_most (compare_kinds p q o) ≡ false
      → at_most (compare_kinds q p o') ≡ true
  unfolding compare_kinds
  kinds_total true true o o' t h = t h
  kinds_total true false o o' t h = cc
  kinds_total false true o o' t h = refl
  kinds_total false false o o' t h = t h

  kinds_trans :
      (p q r : Bool) (o o' o'' : Ordering)
      → (at_most o ≡ true → at_most o' ≡ true → at_most o'' ≡ true)
      → at_most (compare_kinds p q o) ≡ true
      → at_most (compare_kinds q r o') ≡ true
      → at_most (compare_kinds p r o'') ≡ true
  unfolding compare_kinds
  kinds_trans true true true o o' o'' t h i = t h i
  kinds_trans true true false o o' o'' t h i = refl
  kinds_trans true false true o o' o'' t h i = cc
  kinds_trans true false false o o' o'' t h i = refl
  kinds_trans false true true o o' o'' t h i = cc
  kinds_trans false true false o o' o'' t h i = cc
  kinds_trans false false true o o' o'' t h i = cc
  kinds_trans false false false o o' o'' t h i = t h i

  entries-IsTotalOrder : (spec : SortSpec) → IsTotalOrder (compare_entries to_lowercase spec)
  unfolding compare_entries
  entries-IsTotalOrder spec = record {
    total = λ a b.
        kinds_total (is_dir a.kind) (is_dir b.kind) (in_order spec a b) (in_order spec b a)
          (order_total spec.dir spec.key a b);
    trans = λ a b c.
        kinds_trans (is_dir a.kind) (is_dir b.kind) (is_dir c.kind) (in_order spec a b)
          (in_order spec b c) (in_order spec a c) (order_trans spec.dir spec.key a b c);
  }

  -- With the sort applied, the visible listing has the entries that are shown, each as often, and no
  -- entry stands before one that goes before it in the order of the sort: directories first, then by
  -- the key in the direction of the sort.
  pub visible_listing-Sorted :
      (show_hidden : Bool) (typed : Text) (spec : SortSpec) (listing : List Entry)
      → Sorted
          (compare_entries to_lowercase spec)
          (visible_listing to_lowercase show_hidden typed spec true listing)
        × Perm
            (visible_listing to_lowercase show_hidden typed spec true listing)
            (filter (is_shown to_lowercase show_hidden (to_lowercase typed)) listing)
  unfolding visible_listing sort_entries
  visible_listing-Sorted show_hidden typed spec listing =
      let shown = filter (is_shown to_lowercase show_hidden (to_lowercase typed)) listing in
      (
        sort_by-Sorted (compare_entries to_lowercase spec) (entries-IsTotalOrder spec) shown,
        sort_by-Perm (compare_entries to_lowercase spec) shown,
      )
