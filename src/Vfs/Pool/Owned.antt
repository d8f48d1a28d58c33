-- ===== src/Vfs/Pool/Owned.antt =====
-- crates/mk-vfs/src/pool.rs: no backend is lost: each is in a session or was disconnected.
use mathlib.Core.List.{Perm, perm_middle}
use mathlib.Core.List.Perm
use m_kestrel.Prelude.{
  length, leb, not-eq-true, All-filter, filter-All, ℕ, Bool, false, not, List, [], ◌∷◌, ◌++◌, map,
  none, some, Text, ◌≡◌, refl, ap, subst, arith, inl, inr, ◌⊎◌, Bool-cases, Option-cases, All,
  All-mono, filter, filter_self, find, text_beq_iff,
}
use m_kestrel.Core.Host.{Host}
use m_kestrel.Vfs.Pool.{
  PoolEntry, Pool, has_key, close, oldest, make_room, open_session, use_now, get, close_all,
  prune_idle, expired, same_connection,
}
use m_kestrel.Vfs.Pool.Cap.{Distinct, IsPool, close-IsPool}

module _ {B : Type 0} where
  abbrev pub live : List (PoolEntry B) → List B
  live = map (λ e. e.backend)

  -- Every backend that the pool is answerable for.
  abbrev pub owned : Pool B → List B
  owned p = live p.sessions ++ p.closed

  drop_entry :
      (k : Text) (es : List (PoolEntry B)) (e : PoolEntry B)
      → Distinct es
      → find (has_key k) es ≡ some e
      → Perm (live es) (e.backend ∷ live (filter (λ s. not (has_key k s)) es))
  unfolding find filter
  drop_entry k [] e d h = cc
  drop_entry k (s ∷ es) e d h = elim (Bool-cases (has_key k s)) [
    | inl own ↦
        let here : s ≡ e = ground arith in
        let k_is : s.key ≡ k = (text_beq_iff s.key k).0 own in
        rw (own, filter)
          (rw
            (
              filter_self _ es (
                  All-mono es (λ t f. ap not f)
                    (subst (λ j. All (λ t. has_key j t ≡ false) es) k_is d.0)),
              here,
            )
            (Perm.refl _))
    | inr other ↦
        rw (other, filter)
          (Perm.trans (Perm.cons s.backend (drop_entry k es e d.1 (rw (other, find) at h)))
            (Perm.swap e.backend s.backend _))
  ]

  close-Perm : (k : Text) (p : Pool B) → Distinct p.sessions → Perm (owned p) (owned (close k p))
  unfolding close
  close-Perm k p d = elim (Option-cases (find (has_key k) p.sessions)) [
    | inl h ↦ rw (h, close) (Perm.refl _)
    | inr (e, h) ↦
        rw (h, close)
          (Perm.trans (Perm.append_right p.closed (drop_entry k p.sessions e d h))
            (Perm.symm (perm_middle (live (filter (λ s. not (has_key k s)) p.sessions)) p.closed)))
  ]

  -- No session of that host.
  abbrev LacksKey : Text → Pool B → Type 0
  LacksKey id p = All (λ s. has_key id s ≡ false) p.sessions

  find-none-All :
      (q : PoolEntry B → Bool) (es : List (PoolEntry B))
      → find q es ≡ none
      → All (λ s. q s ≡ false) es
  unfolding find
  find-none-All q [] h = tt
  find-none-All q (s ∷ es) h = (ground arith, find-none-All q es (ground arith))

  close-Lacks_key : (id k : Text) (p : Pool B) → LacksKey id p → LacksKey id (close k p)
  unfolding close
  close-Lacks_key id k p a = elim (Option-cases (find (has_key k) p.sessions)) [
    | inl h ↦ rw (h, close) a
    | inr (e, h) ↦ rw (h, close) (All-filter _ _ p.sessions a)
  ]

  close-Lacks_own : (id : Text) (p : Pool B) → LacksKey id (close id p)
  unfolding close
  close-Lacks_own id p = elim (Option-cases (find (has_key id) p.sessions)) [
    | inl h ↦ rw (h, close) (find-none-All (has_key id) p.sessions h)
    | inr (e, h) ↦
        rw (h, close)
          (All-mono _ (λ s f. not-eq-true _ f) (filter-All (λ s. not (has_key id s)) p.sessions))
  ]

  make_room_cases {ℓ} :
      (P : Pool B → Type ℓ) (p : Pool B) → P p → ((k : Text) → P (close k p)) → P (make_room p)
  unfolding make_room
  make_room_cases P p stay leave = elim (Bool-cases (leb p.max_sessions (length p.sessions))) [
    | inr free ↦ rw (free, make_room) stay
    | inl full ↦ elim (Option-cases (oldest p.sessions)) [
      | inl h ↦ rw (full, h, make_room) stay
      | inr (m, h) ↦ rw (full, h, make_room) (leave m.key)
    ]
  ]

  make_room-Perm : (p : Pool B) → Distinct p.sessions → Perm (owned p) (owned (make_room p))
  make_room-Perm p d =
      make_room_cases (λ q. Perm (owned p) (owned q)) p (Perm.refl _) λ k. close-Perm k p d

  make_room-Lacks_key : (id : Text) (p : Pool B) → LacksKey id p → LacksKey id (make_room p)
  make_room-Lacks_key id p a = make_room_cases (LacksKey id) p a λ k. close-Lacks_key id k p a

  open_session-owned :
      (factory : Host → B) (now : ℕ) (host : Host) (p : Pool B)
      → LacksKey host.id p
      → owned (open_session factory now host p).1 ≡ factory host ∷ owned p
  unfolding open_session
  open_session-owned factory now host p a = rw (
      filter_self (λ s. not (has_key host.id s)) p.sessions
        (All-mono p.sessions (λ s f. ap not f) a))

  live-use_now :
      (id : Text) (now : ℕ) (es : List (PoolEntry B)) → live (use_now id now es) ≡ live es
  unfolding use_now
  live-use_now id now [] = refl
  live-use_now id now (e ∷ es) = ap (◌∷◌ e.backend) (live-use_now id now es)

  -- The pool is answerable for the backends that it had, or for one more: the new one it returns.
  abbrev pub Keeps : (Host → B) → Host → Pool B → B × Pool B → Type 0
  Keeps factory host p r =
      Perm (owned p) (owned r.1)
      ⊎ ((r.0 ≡ factory host) × Perm (factory host ∷ owned p) (owned r.1))

  opened :
      (factory : Host → B) (now : ℕ) (host : Host) (p q : Pool B)
      → LacksKey host.id q
      → Perm (owned p) (owned q)
      → Keeps factory host p (open_session factory now host q)
  opened factory now host p q a same = inr (
    unfold open_session in refl,
    rw (open_session-owned factory now host q a) (Perm.cons (factory host) same),
  )

  -- `get` loses no backend and makes up none: each one that it was answerable for, or created now, is
  -- afterwards in exactly one session or on the list of those that were disconnected.
  pub get-Keeps :
      (factory : Host → B) (now : ℕ) (host : Host) (p : Pool B)
      → IsPool p
      → Keeps factory host p (get factory now host p)
  unfolding get
  get-Keeps factory now host p v = elim (Option-cases (find (has_key host.id) p.sessions)) [
    | inl h ↦
        rw (h, get)
          (opened factory now host p (make_room p)
            (make_room-Lacks_key host.id p (find-none-All (has_key host.id) p.sessions h))
            (make_room-Perm p v.distinct))
    | inr (e, h) ↦ elim (Bool-cases (same_connection e.host host)) [
      | inl same ↦ rw (h, get, same) (inl (rw (live-use_now host.id now p.sessions) (Perm.refl _)))
      | inr stale ↦
          rw (h, get, stale)
            (opened factory now host p (make_room (close host.id p))
              (make_room-Lacks_key host.id _ (close-Lacks_own host.id p))
              (Perm.trans (close-Perm host.id p v.distinct)
                (make_room-Perm _ (close-IsPool host.id p v).distinct)))
    ]
  ]

  close_all-Perm :
      (ids : List Text) (p : Pool B) → IsPool p → Perm (owned p) (owned (close_all ids p))
  unfolding close_all
  close_all-Perm [] p v = Perm.refl _
  close_all-Perm (id ∷ ids) p v =
      Perm.trans (close-Perm id p v.distinct)
        (close_all-Perm ids (close id p) (close-IsPool id p v))

  -- Reaping the idle sessions moves their backends to the disconnected ones, and loses none.
  pub prune_idle-Perm :
      (now : ℕ) (p : Pool B) → IsPool p → Perm (owned p) (owned (prune_idle now p))
  unfolding prune_idle
  prune_idle-Perm now p v = close_all-Perm (expired now p) p v
