-- ===== src/Vfs/KnownHosts/Import.antt =====
-- crates/mk-vfs/src/known_hosts.rs: what an import of an OpenSSH file adds.
use m_kestrel.Prelude.{
  ap₂, ℕ, ℤ, ◌+◌, Bool, true, ◌||◌, List, [], ◌∷◌, ◌++◌, append_assoc, append-nil, Option, none,
  some, Text, codes, ◌≡◌, refl, ap, ◌∙◌, sym, subst, arith, inl, inr, Bool-cases, Option-cases,
  text_eq, text_beq_refl, any, any-append, All, length, length-append, is_empty, trim, starts_with,
  lines, split_whitespace, ltb,
}
use m_kestrel.Vfs.HostPatterns.{Crypto}
use m_kestrel.Vfs.KnownHosts.{Saving, KhEntry, KnownHostsStore, HostMarker, is_same, marked_entry}
use m_kestrel.Vfs.KnownHosts.Accept.{save-entries}
use m_kestrel.Vfs.KnownHosts.Openssh.{
  entry_of_words, parse_openssh_line, split_marker, line_entry, import_line, import_lines,
  import_openssh,
}

-- Nothing to add, or an entry that is there.
abbrev known : List KhEntry → Option KhEntry → Bool
known es none = true
known es (some e) = any (is_same e.host e.fingerprint) es

known-append :
    (es more : List KhEntry) (o : Option KhEntry) → known es o ≡ true → known (es ++ more) o ≡ true
known-append es more none h = refl
known-append es more (some e) h = ground (arith, any-append (is_same e.host e.fingerprint) es more)

known_last : (es : List KhEntry) (e : KhEntry) → known (es ++ e ∷ []) (some e) ≡ true
unfolding any
known_last es e = ground (
  arith,
  any-append (is_same e.host e.fingerprint) es (e ∷ []),
  text_beq_refl e.host,
  text_beq_refl e.fingerprint,
)

nothing : (es : List KhEntry) (n : ℕ) → ◌≡◌ {A = List KhEntry × ℕ} (es, n) (es ++ [], n + 0)
nothing es n = ap₂ (λ a b. (a, b)) (sym (append-nil es)) (omega arith)

module _ (crypto : Crypto) where
  known_words :
      (m : HostMarker) (a b : ℤ) (ws : List Text) (es : List KhEntry)
      → known es (entry_of_words crypto m a ws) ≡ known es (entry_of_words crypto m b ws)
  unfolding entry_of_words marked_entry
  known_words m a b [] es = refl
  known_words m a b (h ∷ []) es = refl
  known_words m a b (h ∷ k ∷ []) es = refl
  known_words m a b (h ∷ k ∷ t ∷ ws) es = elim (Option-cases (crypto.decode t)) [
    | inl e ↦ rw (e, entry_of_words)
    | inr (raw, e) ↦ rw (e, entry_of_words)
  ]

  -- When a line is read makes no difference to what it adds.
  known_line :
      (a b : ℤ) (l : Text) (es : List KhEntry)
      → known es (line_entry crypto a l) ≡ known es (line_entry crypto b l)
  unfolding line_entry parse_openssh_line
  known_line a b l es = elim (Bool-cases (is_empty (trim l) || starts_with (trim l) (codes "#"))) [
    | inl skip ↦ rw (skip, line_entry)
    | inr read ↦
        rw (read, line_entry, parse_openssh_line)
          (known_words (split_marker (trim l)).0 a b (split_whitespace (split_marker (trim l)).1)
            es)
  ]

  import_line-known :
      (now : ℤ) (l : Text) (es : List KhEntry) (n : ℕ)
      → known es (line_entry crypto now l) ≡ true
      → import_line crypto now l (es, n) ≡ (es, n)
  unfolding import_line
  import_line-known now l es n h = elim (Option-cases (line_entry crypto now l)) [
    | inl e ↦ rw (e, import_line)
    | inr (k, e) ↦ rw (e, import_line, subst (λ o. known es o ≡ true) e h)
  ]

  -- A line adds its entry at the end when it is not there.
  import_line-cases :
      (now : ℤ) (l : Text) (es : List KhEntry) (n : ℕ)
      → (more : List KhEntry) × (import_line crypto now l (es, n) ≡ (es ++ more, n + length more))
        × (known (es ++ more) (line_entry crypto now l) ≡ true)
  unfolding import_line
  import_line-cases now l es n = elim (Option-cases (line_entry crypto now l)) [
    | inl e ↦ ([], rw (e, import_line) (nothing es n), rw e refl)
    | inr (k, e) ↦ elim (Bool-cases (any (is_same k.host k.fingerprint) es)) [
      | inl there ↦ ([], rw (e, import_line, there) (nothing es n), rw (e, append-nil es) there)
      | inr new ↦ (k ∷ [], rw (e, import_line, new), rw e (known_last es k))
    ]
  ]

  -- All lines of a file: the entries are kept, new ones follow, and every line has its entry.
  import_lines-cases :
      (now : ℤ) (ls : List Text) (es : List KhEntry) (n : ℕ)
      → (more : List KhEntry) × (import_lines crypto now ls (es, n) ≡ (es ++ more, n + length more))
        × All (λ l. known (es ++ more) (line_entry crypto now l) ≡ true) ls
  unfolding import_lines
  import_lines-cases now [] es n = ([], nothing es n, tt)
  import_lines-cases now (l ∷ ls) es n =
      let (first, one, settled) = import_line-cases now l es n in
      let (rest, all_of, covered) = import_lines-cases now ls (es ++ first) (n + length first) in
      let joint : (es ++ first) ++ rest ≡ es ++ (first ++ rest) = append_assoc es first rest in
      (
        first ++ rest,
        ap (import_lines crypto now ls) one
            ∙ all_of
            ∙ ap₂ (λ a b. (a, b)) joint (omega (arith, length-append first rest)),
        subst (λ t. All (λ k. known t (line_entry crypto now k) ≡ true) (l ∷ ls)) joint
            (known-append (es ++ first) rest (line_entry crypto now l) settled, covered),
      )

  import_lines-known :
      (a b : ℤ) (ls : List Text) (es : List KhEntry) (n : ℕ)
      → All (λ l. known es (line_entry crypto a l) ≡ true) ls
      → import_lines crypto b ls (es, n) ≡ (es, n)
  unfolding import_lines
  import_lines-known a b [] es n h = refl
  import_lines-known a b (l ∷ ls) es n h =
      ap (import_lines crypto b ls) (import_line-known b l es n (known_line b a l es ∙ h.0))
      ∙ import_lines-known a b ls es n h.1

  import_openssh_nothing :
      (works : Saving) (now : ℤ) (text : Text) (s : KnownHostsStore)
      → import_lines crypto now (lines text) (s.entries, 0) ≡ (s.entries, 0)
      → import_openssh crypto works now text s ≡ (0, s)
  unfolding import_openssh
  import_openssh_nothing works now text s h = rw h

  module _ (works : Saving) (now : ℤ) (text : Text) (s : KnownHostsStore) where
    abbrev imported : ℕ × KnownHostsStore
    imported = import_openssh crypto works now text s

    pub imported-entries :
        imported.1.entries ≡ (import_lines crypto now (lines text) (s.entries, 0)).0
    unfolding import_openssh
    imported-entries =
        elim (Bool-cases (ltb 0 (import_lines crypto now (lines text) (s.entries, 0)).1)) [
          | inl some_added ↦ rw some_added (save-entries works _)
          | inr none_added ↦ rw none_added
        ]

    imported-count : imported.0 ≡ (import_lines crypto now (lines text) (s.entries, 0)).1
    unfolding import_openssh
    imported-count = refl

    -- An import keeps the entries, puts those of the file that are new behind them, and returns how
    -- many these are; another import of the same file, whenever it is done, adds nothing and changes
    -- nothing.
    pub import_openssh_again :
        (later : ℤ)
        → let (added, after) = imported in
          ((more : List KhEntry) × (after.entries ≡ s.entries ++ more) × (added ≡ length more))
          × (import_openssh crypto works later text after ≡ (0, after))
    import_openssh_again later =
        let (more, all_of, covered) = import_lines-cases now (lines text) s.entries 0 in
        let grown : imported.1.entries ≡ s.entries ++ more =
          imported-entries ∙ ap (λ st. st.0) all_of in
        (
          (more, grown, imported-count ∙ ap (λ st. st.1) all_of ∙ omega arith),
          import_openssh_nothing works later text imported.1 (
              import_lines-known now later (lines text) imported.1.entries 0 (
                subst (λ t. All (λ l. known t (line_entry crypto now l) ≡ true) (lines text))
                  (sym grown) covered)),
        )
