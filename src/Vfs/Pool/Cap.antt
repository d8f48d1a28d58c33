-- ===== src/Vfs/Pool/Cap.antt =====
-- crates/mk-vfs/src/pool.rs: the pool never holds more sessions than its limit, nor two of one host.
use m_kestrel.Prelude.{
  ◌∙◌, max, ℕ, suc, ◌≤◌, ◌<◌, Bool, true, false, not, List, [], ◌∷◌, none, some, Text, ◌≡◌, ◌≢◌,
  refl, ap, arith, inl, inr, Bool-cases, Option-cases, All, All-filter, All-mono, filter,
  filter-All, find, find-eq-some, any, length, length-filter-le, text_beq_iff, not-eq-true, leb,
}
use m_kestrel.Core.Host.{Host}
use m_kestrel.Vfs.Pool.{
  PoolEntry, Pool, new_pool, with_limits, has_key, close, oldest, make_room, open_session, use_now,
  get, drop_host, close_all, prune_idle, expired, same_connection,
}

-- The calls that a pool serves, one after the other: it is behind a mutex.
pub data Call : Type 0 where
  gets : ℕ → Host → Call
  drops : Text → Call
  prunes : ℕ → Call

module _ {B : Type 0} where
  abbrev pub Distinct : List (PoolEntry B) → Type 0
  Distinct [] = Unit {0}
  Distinct (e ∷ es) = All (λ s. has_key e.key s ≡ false) es × Distinct es

  pub record IsPool (p : Pool B) : Type 0 where
    pub positive : 1 ≤ p.max_sessions
    pub capped : length p.sessions ≤ p.max_sessions
    pub distinct : Distinct p.sessions

  filter-Distinct :
      (q : PoolEntry B → Bool) (es : List (PoolEntry B)) → Distinct es → Distinct (filter q es)
  unfolding filter
  filter-Distinct q [] d = tt
  filter-Distinct q (e ∷ es) d = elim (Bool-cases (q e)) [
    | inl h ↦ rw (h, filter) (All-filter _ q es d.0, filter-Distinct q es d.1)
    | inr h ↦ rw (h, filter) (filter-Distinct q es d.1)
  ]

  use_now-All :
      (k id : Text) (now : ℕ) (es : List (PoolEntry B))
      → All (λ s. has_key k s ≡ false) es
      → All (λ s. has_key k s ≡ false) (use_now id now es)
  unfolding use_now
  use_now-All k id now [] h = tt
  use_now-All k id now (e ∷ es) h = (h.0, use_now-All k id now es h.1)

  use_now-Distinct :
      (id : Text) (now : ℕ) (es : List (PoolEntry B)) → Distinct es → Distinct (use_now id now es)
  unfolding use_now
  use_now-Distinct id now [] d = tt
  use_now-Distinct id now (e ∷ es) d =
      (use_now-All e.key id now es d.0, use_now-Distinct id now es d.1)

  length-use_now :
      (id : Text) (now : ℕ) (es : List (PoolEntry B)) → length (use_now id now es) ≡ length es
  unfolding use_now
  length-use_now id now [] = refl
  length-use_now id now (e ∷ es) = ap suc (length-use_now id now es)

  filter_removes :
      (k : Text) (es : List (PoolEntry B)) {e : PoolEntry B}
      → find (has_key k) es ≡ some e
      → length (filter (λ s. not (has_key k s)) es) < length es
  unfolding find filter
  filter_removes k [] h = cc
  filter_removes k (s ∷ es) {e} h = elim (Bool-cases (has_key k s)) [
    | inl own ↦ rw (own, filter) (omega (arith, length-filter-le (λ t. not (has_key k t)) es))
    | inr other ↦
        rw (other, filter) (omega (arith, filter_removes k es {e = e} (rw (other, find) at h)))
  ]

  pub close-IsPool : (id : Text) (p : Pool B) → IsPool p → IsPool (close id p)
  unfolding close
  close-IsPool id p v = elim (Option-cases (find (has_key id) p.sessions)) [
    | inl e ↦ rw (e, close) v
    | inr (s, e) ↦
        rw (e, close)
          (record {
            positive = v.positive;
            capped = omega (arith, filter_removes id p.sessions e, v.capped);
            distinct = filter-Distinct _ p.sessions v.distinct;
          })
  ]

  pub oldest-ne-none : (e : PoolEntry B) (es : List (PoolEntry B)) → oldest (e ∷ es) ≢ none
  unfolding oldest
  oldest-ne-none e es h = ground arith

  -- The session chosen for eviction is one of the pool's.
  pub oldest-found :
      (es : List (PoolEntry B)) (m : PoolEntry B)
      → oldest es ≡ some m
      → any (has_key m.key) es ≡ true
  unfolding oldest any
  oldest-found [] m h = cc
  oldest-found (e ∷ es) m h = elim (Option-cases (oldest es)) [
    | inl none_left ↦ ground (arith, text_beq_iff e.key m.key)
    | inr (x, later) ↦ ground (arith, text_beq_iff e.key m.key, oldest-found es x later)
  ]

  close_shrinks :
      (p : Pool B) (k : Text)
      → any (has_key k) p.sessions ≡ true
      → length (close k p).sessions < length p.sessions
  unfolding close
  close_shrinks p k h =
      let (e, found, _) = find-eq-some (has_key k) p.sessions h in
      rw (found, close) (filter_removes k p.sessions found)

  close-max : (k : Text) (p : Pool B) → (close k p).max_sessions ≡ p.max_sessions
  unfolding close
  close-max k p = ground arith

  -- After `make_room` there is a free place.
  pub record HasRoom (p : Pool B) : Type 0 where
    pub room : length p.sessions < p.max_sessions
    pub distinct : Distinct p.sessions

  make_room_full :
      (p : Pool B) (es : List (PoolEntry B))
      → p.sessions ≡ es
      → IsPool p
      → leb p.max_sessions (length p.sessions) ≡ true
      → HasRoom (make_room p)
  unfolding make_room
  make_room_full p [] e v full = absurd (ground (arith, v.positive, ap length e))
  make_room_full p (s ∷ es) e v full = elim (Option-cases (oldest p.sessions)) [
    | inl h ↦ absurd (oldest-ne-none s es (rw e at h))
    | inr (m, h) ↦
        let c = close-IsPool m.key p v in
        rw (full, h, make_room)
          (record {
            room = omega (
              arith,
              v.capped,
              close-max m.key p,
              close_shrinks p m.key (oldest-found p.sessions m h),
            );
            distinct = c.distinct;
          })
  ]

  pub make_room-HasRoom : (p : Pool B) → IsPool p → HasRoom (make_room p)
  unfolding make_room
  make_room-HasRoom p v = elim (Bool-cases (leb p.max_sessions (length p.sessions))) [
    | inl full ↦ make_room_full p p.sessions refl v full
    | inr free ↦ rw (free, make_room) (record { room = ground arith; distinct = v.distinct })
  ]

  open_session-IsPool :
      (factory : Host → B) (now : ℕ) (host : Host) (p : Pool B)
      → HasRoom p
      → IsPool (open_session factory now host p).1
  unfolding open_session
  open_session-IsPool factory now host p r = record {
    positive = omega (arith, r.room);
    capped = omega (arith, r.room, length-filter-le (λ s. not (has_key host.id s)) p.sessions);
    distinct = (
      All-mono _ (λ s e. not-eq-true _ e) (filter-All (λ s. not (has_key host.id s)) p.sessions),
      filter-Distinct _ p.sessions r.distinct,
    );
  }

  -- `get` keeps the pool within its limit, with at most one session for each host.
  pub get-IsPool :
      (factory : Host → B) (now : ℕ) (host : Host) (p : Pool B)
      → IsPool p
      → IsPool (get factory now host p).1
  unfolding get
  get-IsPool factory now host p v = elim (Option-cases (find (has_key host.id) p.sessions)) [
    | inl h ↦ rw (h, get) (open_session-IsPool factory now host _ (make_room-HasRoom p v))
    | inr (e, h) ↦ elim (Bool-cases (same_connection e.host host)) [
      | inl same ↦
          rw (h, get, same)
            (record {
              positive = v.positive;
              capped = rw (length-use_now host.id now p.sessions) v.capped;
              distinct = use_now-Distinct host.id now p.sessions v.distinct;
            })
      | inr stale ↦
          rw (h, get, stale)
            (open_session-IsPool factory now host _
              (make_room-HasRoom _ (close-IsPool host.id p v)))
    ]
  ]

  pub close_all-IsPool : (ids : List Text) (p : Pool B) → IsPool p → IsPool (close_all ids p)
  unfolding close_all
  close_all-IsPool [] p v = v
  close_all-IsPool (id ∷ ids) p v = close_all-IsPool ids (close id p) (close-IsPool id p v)

  unfoldable pub step : (Host → B) → Pool B → Call → Pool B
  step factory p (gets now host) = (get factory now host p).1
  step factory p (drops id) = drop_host id p
  step factory p (prunes now) = prune_idle now p

  unfoldable pub run : (Host → B) → Pool B → List Call → Pool B
  unfolding step
  run factory p [] = p
  run factory p (c ∷ cs) = run factory (step factory p c) cs

  step-IsPool : (factory : Host → B) (p : Pool B) (c : Call) → IsPool p → IsPool (step factory p c)
  unfolding step drop_host prune_idle
  step-IsPool factory p (gets now host) v = get-IsPool factory now host p v
  step-IsPool factory p (drops id) v = close-IsPool id p v
  step-IsPool factory p (prunes now) v = close_all-IsPool (expired now p) p v

  run-IsPool :
      (factory : Host → B) (p : Pool B) (cs : List Call) → IsPool p → IsPool (run factory p cs)
  unfolding run
  run-IsPool factory p [] v = v
  run-IsPool factory p (c ∷ cs) v =
      run-IsPool factory (step factory p c) cs (step-IsPool factory p c v)

  make_room-max : (p : Pool B) → (make_room p).max_sessions ≡ p.max_sessions
  unfolding make_room
  make_room-max p = elim (Bool-cases (leb p.max_sessions (length p.sessions))) [
    | inr free ↦ rw (free, make_room) refl
    | inl full ↦ elim (Option-cases (oldest p.sessions)) [
      | inl e ↦ rw (full, e, make_room) refl
      | inr (m, e) ↦ rw (full, e, make_room) (close-max m.key p)
    ]
  ]

  get-max :
      (factory : Host → B) (now : ℕ) (host : Host) (p : Pool B)
      → (get factory now host p).1.max_sessions ≡ p.max_sessions
  unfolding get open_session
  get-max factory now host p = elim (Option-cases (find (has_key host.id) p.sessions)) [
    | inl h ↦ rw (h, get) (make_room-max p)
    | inr (e, h) ↦ elim (Bool-cases (same_connection e.host host)) [
      | inl same ↦ rw (h, get, same) refl
      | inr stale ↦ rw (h, get, stale) (make_room-max (close host.id p) ∙ close-max host.id p)
    ]
  ]

  close_all-max : (ids : List Text) (p : Pool B) → (close_all ids p).max_sessions ≡ p.max_sessions
  unfolding close_all
  close_all-max [] p = refl
  close_all-max (id ∷ ids) p = close_all-max ids (close id p) ∙ close-max id p

  step-max :
      (factory : Host → B) (p : Pool B) (c : Call)
      → (step factory p c).max_sessions ≡ p.max_sessions
  unfolding step drop_host prune_idle
  step-max factory p (gets now host) = get-max factory now host p
  step-max factory p (drops id) = close-max id p
  step-max factory p (prunes now) = close_all-max (expired now p) p

  -- No call changes the limit.
  run-max :
      (factory : Host → B) (p : Pool B) (cs : List Call)
      → (run factory p cs).max_sessions ≡ p.max_sessions
  unfolding run
  run-max factory p [] = refl
  run-max factory p (c ∷ cs) = run-max factory (step factory p c) cs ∙ step-max factory p c

  -- From a new pool with any limits, every history of calls leaves at most as many sessions as the
  -- limit that was given, or one where it was 0, and at most one session for each host.
  pub run-with_limits :
      (factory : Host → B) (max_sessions idle_timeout : ℕ) (cs : List Call)
      → let p = run factory (with_limits new_pool max_sessions idle_timeout) cs in
        (length p.sessions ≤ max max_sessions 1) × Distinct p.sessions
  unfolding with_limits new_pool
  run-with_limits factory max_sessions idle_timeout cs =
      let start = with_limits new_pool max_sessions idle_timeout in
      let v =
        run-IsPool factory start cs
          (record { positive = omega arith; capped = omega arith; distinct = tt }) in
      let limit : (run factory start cs).max_sessions ≡ max max_sessions 1 =
        run-max factory start cs in
      (omega (arith, v.capped, limit), v.distinct)
