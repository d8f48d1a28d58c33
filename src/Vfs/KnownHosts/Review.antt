-- ===== src/Vfs/KnownHosts/Review.antt =====
-- crates/mk-vfs/src/known_hosts.rs: what `review` accepts.
use m_kestrel.Prelude.{
  ℕ, ℤ, Bool, true, ◌&&◌, List, [], ◌∷◌, map, some, Text, ◌≡◌, ap, ◌∙◌, arith, inl, inr,
  if◌then◌else◌, Bool-cases, ◌==◌, text_eq, text_option_eq, text_beq_refl, any, and-eq-true,
  option_beq_iff, text_beq, text_beq_iff,
}
use m_kestrel.Vfs.HostPatterns.{Crypto}
use m_kestrel.Vfs.KnownHosts.{Saving, trusted, revoked, KhEntry, KnownHostsStore}
use m_kestrel.Vfs.KnownHosts.Check.{names, is_revoked, check_fingerprint}
use m_kestrel.Vfs.KnownHosts.Changes.{is_named, take_pending, accept_pending, review}
use m_kestrel.Vfs.KnownHosts.Accept.{save-entries}
use m_kestrel.Vfs.KnownHosts.Trust.{vouches, check_fingerprint-vouched}

-- An entry of the host that the row names, where the fingerprint waits to be accepted.
abbrev pub waits : Crypto → Text → ℕ → Text → Text → KhEntry → Bool
waits crypto host port row fingerprint e =
    names crypto host port e && is_named row e && e.pending_fingerprint == some fingerprint

review-entries :
    (works : Saving) (now : ℤ) (row : Text) (s : KnownHostsStore)
    → (review works now row s).1.entries ≡ map (accept_pending now row) s.entries
unfolding review
review-entries works now row s = elim (Bool-cases (any (is_named row) s.entries)) [
  | inl found ↦ rw (found, review) (save-entries works _)
  | inr missing ↦ rw (missing, review)
]

module _ (crypto : Crypto) (works : Saving) (now : ℤ) (row host : Text) (port : ℕ)
    (fingerprint : Text) where
  accept-vouches :
      (e : KhEntry)
      → waits crypto host port row fingerprint e ≡ true
      → vouches crypto host port fingerprint (accept_pending now row e) ≡ true
  unfolding accept_pending take_pending
  accept-vouches e h =
      let (both, pending) =
        and-eq-true (names crypto host port e && is_named row e)
          (e.pending_fingerprint == some fingerprint) h in
      let (own, named) = and-eq-true (names crypto host port e) (is_named row e) both in
      let waiting : e.pending_fingerprint ≡ some fingerprint =
        (option_beq_iff text_beq text_beq_iff e.pending_fingerprint (some fingerprint)).0 pending in
      rw (named, accept_pending, waiting, take_pending)
        (ground (arith, own, text_beq_refl fingerprint))

  any-accept :
      (es : List KhEntry)
      → any (waits crypto host port row fingerprint) es ≡ true
      → any (vouches crypto host port fingerprint) (map (accept_pending now row) es) ≡ true
  unfolding any
  any-accept [] h = absurd (ground arith)
  any-accept (e ∷ es) h = elim (Bool-cases (waits crypto host port row fingerprint e)) [
    | inl here ↦ rw (accept-vouches e here)
    | inr later ↦ ground (arith, any-accept es (ground arith))
  ]

  found-waits :
      (es : List KhEntry)
      → any (waits crypto host port row fingerprint) es ≡ true
      → any (is_named row) es ≡ true
  unfolding any
  found-waits [] h = absurd (ground arith)
  found-waits (e ∷ es) h = ground (arith, found-waits es)

  -- When the user accepts a row of the settings, the fingerprint that waits there is the host's key:
  -- the row is found, and the key is trusted unless it is revoked.
  pub check_fingerprint-review :
      (s : KnownHostsStore) (key_type : Text)
      → any (waits crypto host port row fingerprint) s.entries ≡ true
      → let (found, after) = review works now row s in
        (found ≡ true)
        × (check_fingerprint crypto after host port fingerprint key_type ≡ (
            if is_revoked crypto after host port fingerprint then revoked fingerprint else trusted))
  unfolding review
  check_fingerprint-review s key_type h = (
    found-waits s.entries h,
    check_fingerprint-vouched crypto (review works now row s).1 host port fingerprint key_type (
        ap (any (vouches crypto host port fingerprint)) (review-entries works now row s)
        ∙ any-accept s.entries h),
  )
