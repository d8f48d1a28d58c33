-- ===== src/Core/Recent/Touch.antt =====
-- crates/mk-core/src/recent.rs: the list of recent folders keeps its invariant.
use m_kestrel.Prelude.{
  ℕ, zero, suc, ℤ, ◌≤◌, ◌<◌, Bool, true, false, not, List, [], ◌∷◌, ◌≡◌, refl, ap, ◌∙◌, Text, inl,
  inr, Bool-cases, arith, All, All-filter, All-take, filter, filter-All, filter_self, take,
  take-take, take_all, length, length-take, length-filter-le, is_empty, trim, text_beq_iff,
}
use m_kestrel.Core.Recent.{RecentPath, recent_limit, same_place, normalize_path, touch}

-- No two entries are of one place.
abbrev pub Distinct : List RecentPath → Type 0
Distinct [] = Unit {0}
Distinct (r ∷ rs) = All (λ s. not (same_place r.host_id r.path s) ≡ true) rs × Distinct rs

abbrev pub IsNamed : RecentPath → Type 0
IsNamed r = (is_empty r.host_id ≡ false) × (is_empty r.path ≡ false)

pub record IsRecents (l : List RecentPath) : Type 0 where
  pub bounded : length l ≤ recent_limit
  pub distinct : Distinct l
  pub named : All IsNamed l

filter-Distinct : (p : RecentPath → Bool) (l : List RecentPath) → Distinct l → Distinct (filter p l)
unfolding filter
filter-Distinct p [] d = tt
filter-Distinct p (r ∷ l) d = elim (Bool-cases (p r)) [
  | inl e ↦ rw (e, filter) (All-filter _ p l d.0, filter-Distinct p l d.1)
  | inr e ↦ rw (e, filter) (filter-Distinct p l d.1)
]

take-Distinct : (n : ℕ) (l : List RecentPath) → Distinct l → Distinct (take n l)
take-Distinct zero l d = tt
take-Distinct (suc n) [] d = tt
take-Distinct (suc n) (r ∷ l) d = (All-take _ n l d.0, take-Distinct n l d.1)

abbrev pub others : Text → Text → RecentPath → Bool
others host_id path r = not (same_place (trim host_id) (normalize_path path) r)

-- The visits that change nothing, and the shape of the list after any other.
touch_cases {ℓ} :
    (P : List RecentPath → Type ℓ) (l : List RecentPath) (host_id path : Text) (now : ℤ)
    → P l
    → (is_empty (trim host_id) ≡ false
        → is_empty (normalize_path path) ≡ false
        → P (
            record { host_id = trim host_id; path = normalize_path path; visited_at = now }
            ∷ take 29 (filter (others host_id path) l)))
    → P (touch l host_id path now)
unfolding touch
touch_cases P l host_id path now skipped visited = elim (Bool-cases (is_empty (trim host_id))) [
  | inl e ↦ rw (e, touch) skipped
  | inr e ↦ elim (Bool-cases (is_empty (normalize_path path))) [
    | inl f ↦ rw (e, f, touch) skipped
    | inr f ↦ rw (e, f, touch) (visited e f)
  ]
]

-- A visit keeps the list within its limit, without two entries of one place, and without an entry
-- that has no host or no path.
pub touch-IsRecents :
    (l : List RecentPath) (host_id path : Text) (now : ℤ)
    → IsRecents l
    → IsRecents (touch l host_id path now)
touch-IsRecents l host_id path now v =
    let kept = filter (others host_id path) l in
    touch_cases IsRecents l host_id path now v λ e f. record {
      bounded = omega (arith, length-take 29 kept);
      distinct = (
        All-take _ 29 kept (filter-All (others host_id path) l),
        take-Distinct 29 kept (filter-Distinct (others host_id path) l v.distinct),
      );
      named = ((e, f), All-take _ 29 kept (All-filter _ (others host_id path) l v.named));
    }

same_place_self :
    (host_id path : Text) (now : ℤ)
    → same_place host_id path (record { host_id = host_id; path = path; visited_at = now }) ≡ true
same_place_self host_id path now =
    ground (arith, text_beq_iff host_id host_id, text_beq_iff path path)

others_kept :
    (host_id path : Text) (l : List RecentPath)
    → filter (others host_id path) (take 29 (filter (others host_id path) l))
      ≡ take 29 (filter (others host_id path) l)
others_kept host_id path l =
    filter_self (others host_id path) _ (All-take _ 29 _ (filter-All (others host_id path) l))

module _ (host_id path : Text) (now : ℤ) (rest : List RecentPath) where
  others_drop_own :
      filter
        (others host_id path)
        (record { host_id = trim host_id; path = normalize_path path; visited_at = now } ∷ rest)
      ≡ filter (others host_id path) rest
  unfolding filter
  others_drop_own = rw (same_place_self (trim host_id) (normalize_path path) now, filter)

-- Visiting a place again only moves its time: the first of two visits in a row leaves no trace.
pub touch_again :
    (l : List RecentPath) (host_id path : Text) (before now : ℤ)
    → touch (touch l host_id path before) host_id path now ≡ touch l host_id path now
unfolding touch
touch_again l host_id path before now =
    touch_cases (λ seen. touch seen host_id path now ≡ touch l host_id path now) l host_id path
      before refl
      λ e f.
        let kept = filter (others host_id path) l in
        let front : RecentPath = record {
          host_id = trim host_id;
          path = normalize_path path;
          visited_at = now;
        } in
        rw (e, f, touch)
          (ap (λ t. front ∷ take 29 t)
              (others_drop_own host_id path before (take 29 kept) ∙ others_kept host_id path l)
            ∙ ap (◌∷◌ front) (take-take 29 kept))

-- While there is room, a visit drops no other place and keeps the others in their order.
pub touch_others :
    (l : List RecentPath) (host_id path : Text) (now : ℤ)
    → length l < recent_limit
    → filter (others host_id path) (touch l host_id path now) ≡ filter (others host_id path) l
touch_others l host_id path now room =
    touch_cases (λ t. filter (others host_id path) t ≡ filter (others host_id path) l) l host_id
      path now refl
      λ e f.
        others_drop_own host_id path now _
        ∙ others_kept host_id path l
        ∙ take_all 29 _ (omega (arith, length-filter-le (others host_id path) l))
