-- ===== src/Core/Recent/Paths.antt =====
-- crates/mk-core/src/recent.rs: what `normalize_path` and `folder_name` return.
use m_kestrel.Prelude.{
  ℕ, false, [], ◌∷◌, ◌++◌, reverse, reverse-append, reverse-cons, reverse-reverse, ◌≡◌, ◌≢◌, refl,
  ap, sym, ◌∙◌, ◌⊎◌, inl, inr, Text, codes, Bool-cases, text_beq, text_beq_iff, is_empty, trim,
  trim_none, trim-HeadFails, trim_end_matches_none, trim_end_matches-LastFails,
  trim_end_matches-HeadFails, is_whitespace, HeadFails, LastFails, Lacks, Lacks-reverse,
  last_part-append, arith,
}
use m_kestrel.Core.Recent.{is_slash, normalize_path, folder_name}

-- A normalized path: empty, the root, or free of a slash at the end; it never starts with a space.
pub record IsNormal (p : Text) : Type 0 where
  pub shape : (p ≡ []) ⊎ (p ≡ codes "/") ⊎ LastFails is_slash p
  pub start : HeadFails is_whitespace p

slash_not_space : HeadFails is_whitespace (codes "/")
unfolding is_whitespace
slash_not_space = refl

-- Whatever text comes in, `normalize_path` returns a text of that form.
pub normalize_path-IsNormal : (p : Text) → IsNormal (normalize_path p)
unfolding normalize_path
normalize_path-IsNormal p = elim (Bool-cases (is_empty (trim p))) [
  | inl none_left ↦ rw (none_left, normalize_path) (record { shape = inl refl; start = tt })
  | inr some_left ↦ elim (Bool-cases (text_beq (trim p) (codes "/"))) [
    | inl root ↦
        rw (some_left, root, normalize_path)
          (record { shape = inr (inl refl); start = slash_not_space })
    | inr other ↦
        rw (some_left, other, normalize_path)
          (record {
            shape = inr (inr (trim_end_matches-LastFails is_slash (trim p)));
            start = trim_end_matches-HeadFails is_whitespace is_slash (trim p) (trim-HeadFails p);
          })
  ]
]

normal_fixed :
    (q : Text)
    → trim q ≡ q
    → (q ≡ []) ⊎ (q ≡ codes "/") ⊎ LastFails is_slash q
    → normalize_path q ≡ q
unfolding normalize_path text_beq
normal_fixed q t (inl e) = rw (t, e)
normal_fixed q t (inr (inl e)) = rw (t, e)
normal_fixed q t (inr (inr h)) =
    rw t (ground (arith, trim_end_matches_none is_slash q h, text_beq_iff q (codes "/")))

-- A second normalization changes nothing, unless the first one uncovers a space at the end.
pub normalize_path_idem :
    (p : Text)
    → LastFails is_whitespace (normalize_path p)
    → normalize_path (normalize_path p) ≡ normalize_path p
normalize_path_idem p h =
    let form = normalize_path-IsNormal p in
    normal_fixed (normalize_path p) (trim_none (normalize_path p) form.start h) form.shape

name_ends_well :
    (a name : Text) (c : ℕ) (m : Text)
    → reverse name ≡ c ∷ m
    → c ≢ b'/'
    → LastFails is_slash (a ++ b'/' ∷ name)
name_ends_well a name c m e h =
    rw (reverse-append a (b'/' ∷ name), reverse-cons b'/' name, e) (ground arith)

is_empty_slash : (a name : Text) → is_empty (a ++ b'/' ∷ name) ≡ false
is_empty_slash [] name = refl
is_empty_slash (c ∷ a) name = refl

not_all_slash :
    (a name : Text) (c : ℕ) (m : Text)
    → reverse name ≡ c ∷ m
    → c ≢ b'/'
    → Lacks b'/' name
    → folder_name (a ++ b'/' ∷ name) ≡ name
unfolding folder_name
not_all_slash a name c m e h l =
    rw
      (
        trim_end_matches_none is_slash _ (name_ends_well a name c m e h),
        last_part-append b'/' a name l,
      )
      (ground (arith, is_empty_slash a name))

folder_name_by :
    (a name m : Text)
    → reverse name ≡ m
    → name ≢ []
    → Lacks b'/' m
    → Lacks b'/' name
    → folder_name (a ++ b'/' ∷ name) ≡ name
folder_name_by a name [] e ne l k = absurd (ne (sym (reverse-reverse name) ∙ ap reverse e))
folder_name_by a name (c ∷ m) e ne l k = not_all_slash a name c m e l.0 k

-- The folder's name is what stands behind the last slash of its path.
pub folder_name-append :
    (parent name : Text) → name ≢ [] → Lacks b'/' name → folder_name (parent ++ b'/' ∷ name) ≡ name
folder_name-append parent name ne h =
    folder_name_by parent name (reverse name) refl ne (Lacks-reverse b'/' name h) h
