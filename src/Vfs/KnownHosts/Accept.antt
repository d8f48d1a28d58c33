-- ===== src/Vfs/KnownHosts/Accept.antt =====
-- crates/mk-vfs/src/known_hosts.rs: what `add` and `note_changed` do to the keys that are trusted.
use m_kestrel.Prelude.{
  ℕ, ℤ, Bool, true, false, not, ◌||◌, List, [], ◌∷◌, ◌++◌, Text, codes, ◌≡◌, ◌≢◌, ◌↔◌, refl, ap,
  ◌∙◌, arith, inl, inr, if◌then◌else◌, Bool-cases, ◌==◌, text_eq, text_beq_refl, text_beq,
  text_beq_iff, any, any-append, update_first, contains_text, and-eq-true,
}
use m_kestrel.Vfs.HostPatterns.{Crypto, host_pattern, host_is_hashed, host_matches}
use m_kestrel.Vfs.HostPatterns.Matching.{host_matches-pattern}
use m_kestrel.Vfs.KnownHosts.{
  Saving, saved, spoiled, unreached, trusted, revoked, normal, revoked_key, cert_authority,
  HostMarker, is_marked, KhEntry, KnownHostsStore, save,
}
use m_kestrel.Vfs.KnownHosts.Check.{
  revokes, certifies, names, is_revoked, ca_trusts, check_fingerprint,
}
use m_kestrel.Vfs.KnownHosts.Changes.{
  change_or_push, add, note_changed, holds, accept_key, key_entry, note_key, noted_entry,
}
use m_kestrel.Vfs.KnownHosts.Trust.{vouches, check_fingerprint-vouched, same_trust}

module _ (p q : KhEntry → Bool) (f : KhEntry → KhEntry) where
  any-update_kept :
      (es : List KhEntry)
      → ((e : KhEntry) → p e ≡ true → q (f e) ≡ q e)
      → any q (update_first p f es) ≡ any q es
  unfolding any update_first
  any-update_kept [] keeps = refl
  any-update_kept (e ∷ es) keeps = elim (Bool-cases (p e)) [
    | inl hit ↦ rw (hit, update_first, keeps e hit)
    | inr other ↦ rw (other, update_first, any-update_kept es keeps)
  ]

  any-update_true :
      (es : List KhEntry)
      → any p es ≡ true
      → ((e : KhEntry) → p e ≡ true → q (f e) ≡ true)
      → any q (update_first p f es) ≡ true
  unfolding any update_first
  any-update_true [] there makes = absurd (ground arith)
  any-update_true (e ∷ es) there makes = elim (Bool-cases (p e)) [
    | inl hit ↦ rw (hit, update_first, makes e hit)
    | inr other ↦ rw (other, update_first) (ground (arith, any-update_true es (ground arith) makes))
  ]

  any-pushed : (es : List KhEntry) (new : KhEntry) → any q (es ++ new ∷ []) ≡ (any q es || q new)
  unfolding any
  any-pushed es new = any-append q es (new ∷ []) ∙ ground arith

  any-change_or_push :
      (new : KhEntry) (es : List KhEntry)
      → ((e : KhEntry) → p e ≡ true → q (f e) ≡ q e)
      → q new ≡ false
      → any q (change_or_push p f new es) ≡ any q es
  unfolding change_or_push
  any-change_or_push new es keeps fresh = elim (Bool-cases (any p es)) [
    | inl hit ↦ rw (hit, change_or_push) (any-update_kept es keeps)
    | inr other ↦ rw (other, change_or_push) (any-pushed es new ∙ ground arith)
  ]

  any-change_or_push-true :
      (new : KhEntry) (es : List KhEntry)
      → ((e : KhEntry) → p e ≡ true → q (f e) ≡ true)
      → q new ≡ true
      → any q (change_or_push p f new es) ≡ true
  unfolding change_or_push
  any-change_or_push-true new es makes fresh = elim (Bool-cases (any p es)) [
    | inl hit ↦ rw (hit, change_or_push) (any-update_true es hit makes)
    | inr other ↦ rw (other, change_or_push) (any-pushed es new ∙ ground arith)
  ]

-- Saving leaves the entries as they are.
pub save-entries : (works : Saving) (s : KnownHostsStore) → (save works s).entries ≡ s.entries
unfolding save
save-entries saved s = refl
save-entries spoiled s = refl
save-entries unreached s = refl

-- The marker of the entries that `add` and `note_changed` write.
normal_only :
    (m : HostMarker)
    → is_marked m normal ≡ true
    → (is_marked m revoked_key ≡ false) × (is_marked m cert_authority ≡ false)
normal_only m h = ground arith

nil_other : (f : Text) → f ≢ [] → ([] == f) ≡ false
unfolding text_beq
nil_other [] h = absurd (h refl)
nil_other (c ∷ f) h = refl

holds-names :
    (crypto : Crypto) (host : Text) (port : ℕ) (e : KhEntry)
    → host_is_hashed host ≡ false
    → holds (host_pattern host port) e ≡ true
    → names crypto host port e ≡ true
holds-names crypto host port e plain h =
    let (own, same) =
      and-eq-true (is_marked e.marker normal) (e.host == host_pattern host port) h in
    rw (
      own,
      (text_beq_iff e.host (host_pattern host port)).0 same,
      host_matches-pattern crypto host port plain,
    )

module _ (crypto : Crypto) (works : Saving) (now : ℤ) (s : KnownHostsStore) where
  module _ (host : Text) (port : ℕ) (key_type fingerprint : Text) where
    abbrev added : KnownHostsStore
    added = add works now host port key_type fingerprint s

    any-add :
        (q : KhEntry → Bool)
        → any q added.entries
          ≡ any q (
              change_or_push
                (holds (host_pattern host port))
                (accept_key now key_type fingerprint)
                (key_entry now (host_pattern host port) key_type fingerprint)
                s.entries)
    unfolding add
    any-add q = ap (any q) (save-entries works _)

    revoked-add :
        is_revoked crypto added host port fingerprint ≡ is_revoked crypto s host port fingerprint
    unfolding is_revoked
    revoked-add =
        any-add (revokes crypto host port fingerprint)
        ∙ any-change_or_push (holds (host_pattern host port)) (revokes crypto host port fingerprint)
            (accept_key now key_type fingerprint)
            (key_entry now (host_pattern host port) key_type fingerprint) s.entries
            (λ e h. ground (arith, normal_only e.marker)) refl

    vouches-add :
        host_is_hashed host ≡ false
        → any (vouches crypto host port fingerprint) added.entries ≡ true
    vouches-add plain =
        any-add (vouches crypto host port fingerprint)
        ∙ any-change_or_push-true (holds (host_pattern host port))
            (vouches crypto host port fingerprint) (accept_key now key_type fingerprint)
            (key_entry now (host_pattern host port) key_type fingerprint) s.entries
            (λ e h.
              ground (arith, holds-names crypto host port e plain h, text_beq_refl fingerprint))
            (ground (arith, host_matches-pattern crypto host port plain, text_beq_refl fingerprint))

    -- A key that the user accepts is trusted right afterwards, unless it was revoked for the host
    -- before.
    pub check_fingerprint-add :
        (presented : Text)
        → host_is_hashed host ≡ false
        → check_fingerprint crypto added host port fingerprint presented
          ≡ (if is_revoked crypto s host port fingerprint then revoked fingerprint else trusted)
    check_fingerprint-add presented plain =
        check_fingerprint-vouched crypto added host port fingerprint presented (vouches-add plain)
        ∙ ap (λ b. if b then revoked fingerprint else trusted) revoked-add

  module _ (today host : Text) (port : ℕ) (seen : Text) where
    abbrev noted : KnownHostsStore
    noted = note_changed crypto works now today host port seen s

    -- What `note_changed` keeps: every test that looks only at hosts, markers and fingerprints, or
    -- not at the entries of single keys.
    any-note :
        (q : KhEntry → Bool)
        → ((e : KhEntry) → names crypto host port e ≡ true → q (note_key today seen e) ≡ q e)
        → q (noted_entry now today (host_pattern host port) seen) ≡ false
        → any q noted.entries ≡ any q s.entries
    unfolding note_changed
    any-note q keeps fresh =
        ap (any q) (save-entries works _)
        ∙ any-change_or_push (names crypto host port) q (note_key today seen)
            (noted_entry now today (host_pattern host port) seen) s.entries keeps fresh

    own_entry : (e : KhEntry) → names crypto host port e ≡ true → is_marked e.marker normal ≡ true
    own_entry e h =
        (and-eq-true (is_marked e.marker normal) (host_matches crypto e.host host port) h).0

    -- A changed key is noted without any effect on trust: of every host, exactly the keys that were
    -- trusted before are trusted. (The empty text is no fingerprint.)
    pub check_fingerprint-note_changed :
        (name : Text) (at : ℕ) (fingerprint key_type : Text)
        → fingerprint ≢ []
        → (check_fingerprint crypto noted name at fingerprint key_type ≡ trusted)
          ↔ (check_fingerprint crypto s name at fingerprint key_type ≡ trusted)
    unfolding is_revoked ca_trusts
    check_fingerprint-note_changed name at fingerprint key_type real =
        let revoking : is_revoked crypto noted name at fingerprint
            ≡ is_revoked crypto s name at fingerprint =
          any-note (revokes crypto name at fingerprint) (λ e h. refl) refl in
        let certifying : any (certifies crypto name at fingerprint) noted.entries
            ≡ any (certifies crypto name at fingerprint) s.entries =
          any-note (certifies crypto name at fingerprint)
            (λ e h. ground (arith, normal_only e.marker, own_entry e h)) refl in
        let vouching : any (vouches crypto name at fingerprint) noted.entries
            ≡ any (vouches crypto name at fingerprint) s.entries =
          any-note (vouches crypto name at fingerprint) (λ e h. refl)
            (ground (arith, nil_other fingerprint real)) in
        same_trust crypto noted s name at fingerprint key_type revoking
          (ap (λ b. if not (contains_text key_type (codes "cert")) then false else b) certifying)
          vouching
