-- ===== src/Core/Bookmark/Changes.antt =====
-- crates/mk-core/src/bookmark.rs: how `add`, `contains` and `remove` fit together.
use m_kestrel.Prelude.{
  ℤ, sym, All-mono, inl, inr, eqb, Bool, true, false, not, List, [], ◌∷◌, ◌≡◌, ◌≢◌, refl, ap, Text,
  any, filter, filter_self, any-false-All, All, Bool-cases, is_empty, length, trim, arith,
  text_beq_iff, suc,
}
use m_kestrel.Core.Host.{EntryKind}
use m_kestrel.Core.Recent.{normalize_path}
use m_kestrel.Core.Bookmark.{Bookmark, is_at, contains, add, remove}

-- A path whose normal form is its own normal form.
abbrev pub IsStable : Text → Type 0
IsStable path = normalize_path (normalize_path path) ≡ normalize_path path

-- No two bookmarks are of one place.
abbrev pub Distinct : List Bookmark → Type 0
Distinct [] = Unit {0}
Distinct (b ∷ bs) = All (λ c. is_at b.host_id b.path c ≡ false) bs × Distinct bs

add_cases {ℓ} :
    (P : List Bookmark × Bool → Type ℓ) (l : List Bookmark) (host_id path : Text) (kind : EntryKind)
    (now : ℤ)
    → P (l, false)
    → (contains l (trim host_id) (normalize_path path) ≡ false
        → P (
          record { host_id = trim host_id; path = normalize_path path; kind = kind; added_at = now }
              ∷ l,
          true,
        ))
    → P (add l host_id path kind now)
unfolding add
add_cases P l host_id path kind now skipped added = elim (Bool-cases (is_empty (trim host_id))) [
  | inl e ↦ rw (e, add) skipped
  | inr e ↦ elim (Bool-cases (is_empty (normalize_path path))) [
    | inl f ↦ rw (e, f, add) skipped
    | inr f ↦ elim (Bool-cases (contains l (trim host_id) (normalize_path path))) [
      | inl g ↦ rw (e, f, g, add) skipped
      | inr g ↦ rw (e, f, g, add) (added g)
    ]
  ]
]

-- Adding a stable path never makes a second bookmark of one place.
pub add-Distinct :
    (l : List Bookmark) (host_id path : Text) (kind : EntryKind) (now : ℤ)
    → IsStable path
    → Distinct l
    → Distinct (add l host_id path kind now).0
unfolding contains
add-Distinct l host_id path kind now stable d =
    add_cases (λ r. Distinct r.0) l host_id path kind now d
      λ g. (any-false-All _ l (rw stable at g), d)

abbrev new_bookmark : Text → Text → EntryKind → ℤ → Bookmark
new_bookmark host_id path kind now = record {
  host_id = trim host_id;
  path = normalize_path path;
  kind = kind;
  added_at = now;
}

is_at_own :
    (host_id path : Text) (kind : EntryKind) (now : ℤ)
    → is_at host_id path (record { host_id = host_id; path = path; kind = kind; added_at = now })
      ≡ true
is_at_own host_id path kind now =
    ground (arith, text_beq_iff host_id host_id, text_beq_iff path path)

remove_front :
    (l : List Bookmark) (b : Bookmark) (host_id place : Text)
    → is_at host_id place b ≡ true
    → any (is_at host_id place) l ≡ false
    → filter (λ c. not (is_at host_id place c)) (b ∷ l) ≡ l
unfolding filter
remove_front l b host_id place here gone =
    rw (here, filter) (filter_self _ l (All-mono l (λ c e. ap not e) (any-false-All _ l gone)))

dropped : (l : List Bookmark) → not (eqb (length l) (suc (length l))) ≡ true
dropped l = ground arith

-- Removing what was just added gives the old list back, and says that something was dropped.
pub remove-add :
    (l : List Bookmark) (host_id path : Text) (kind : EntryKind) (now : ℤ)
    → IsStable path
    → (add l host_id path kind now).1 ≡ true
    → remove (add l host_id path kind now).0 (trim host_id) path ≡ (l, true)
unfolding contains remove
remove-add l host_id path kind now stable =
    add_cases (λ r. r.1 ≡ true → remove r.0 (trim host_id) path ≡ (l, true)) l host_id path kind now
      (λ e. absurd (ground arith))
      λ g _. rw (
        remove_front l (new_bookmark host_id path kind now) (trim host_id) (normalize_path path)
            (is_at_own (trim host_id) (normalize_path path) kind now) (rw stable at g),
        dropped l,
      )

module _ (l : List Bookmark) (host_id path : Text) (kind : EntryKind)
    (named : is_empty (trim host_id) ≡ false)
    (placed : is_empty (normalize_path path) ≡ false) where
  add_fresh :
      (now : ℤ)
      → contains l (trim host_id) (normalize_path path) ≡ false
      → add l host_id path kind now ≡ (new_bookmark host_id path kind now ∷ l, true)
  unfolding add
  add_fresh now g = rw (named, placed, g)

  add_present :
      (now : ℤ)
      → contains l (trim host_id) (normalize_path path) ≡ true
      → add l host_id path kind now ≡ (l, false)
  unfolding add
  add_present now g = rw (named, placed, g)

  -- After `add`, accepted or not, a stable place is among the bookmarks.
  pub contains-add :
      (now : ℤ)
      → IsStable path
      → contains (add l host_id path kind now).0 (trim host_id) (normalize_path path) ≡ true
  unfolding contains any
  contains-add now stable = elim (Bool-cases (contains l (trim host_id) (normalize_path path))) [
    | inl g ↦ rw (add_present now g) g
    | inr g ↦ rw (add_fresh now g, stable, is_at_own (trim host_id) (normalize_path path) kind now)
  ]

module _ (l : List Bookmark) (host_id path : Text) (kind : EntryKind) where
  elsewhere :
      (now : ℤ)
      → normalize_path (normalize_path path) ≢ normalize_path path
      → is_at
          (trim host_id)
          (normalize_path (normalize_path path))
          (new_bookmark host_id path kind now)
        ≡ false
  elsewhere now unstable = ground (
    arith,
    text_beq_iff (normalize_path path) (normalize_path (normalize_path path)),
    λ (e : normalize_path path ≡ normalize_path (normalize_path path)). unstable (sym e),
  )

  -- The path is compared in its second normal form and stored in its first: where those differ, a
  -- second `add` of the same place is accepted too, and the list holds it twice.
  pub add_twice :
      (before now : ℤ)
      → is_empty (trim host_id) ≡ false
      → is_empty (normalize_path path) ≡ false
      → normalize_path (normalize_path path) ≢ normalize_path path
      → contains l (trim host_id) (normalize_path path) ≡ false
      → let twice = add (add l host_id path kind before).0 host_id path kind now in
        (twice.1 ≡ true) × (¬ Distinct twice.0)
  unfolding contains any
  add_twice before now named placed unstable fresh =
      let again : contains (new_bookmark host_id path kind before ∷ l) (trim host_id)
            (normalize_path path)
          ≡ false =
        rw (elsewhere before unstable) fresh in
      rw
        (
          add_fresh l host_id path kind named placed before fresh,
          add_fresh (new_bookmark host_id path kind before ∷ l) host_id path kind named placed now
              again,
        )
        (refl, λ d. cc (d.0.0, is_at_own (trim host_id) (normalize_path path) kind before))
