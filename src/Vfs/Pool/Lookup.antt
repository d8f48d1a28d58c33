-- ===== src/Vfs/Pool/Lookup.antt =====
-- crates/mk-vfs/src/pool.rs: which session `get` returns, and which one it evicts.
use m_kestrel.Prelude.{
  subst, ◌⊎◌, ℕ, ◌≤◌, Bool, true, false, not, List, [], ◌∷◌, none, some, Text, ◌≡◌, ◌≢◌, refl, ap,
  ◌∙◌, sym, arith, inl, inr, Bool-cases, Option-cases, All, All-mono, filter, find, length,
  text_beq, text_beq_iff, text_beq_refl, leb, option_beq_iff,
}
use m_kestrel.Core.Host.{Host, protocol_eq, auth_eq}
use m_kestrel.Vfs.Pool.{
  PoolEntry, Pool, has_key, close, oldest, make_room, open_session, use_now, get, same_connection,
}
use m_kestrel.Vfs.Pool.Cap.{Distinct, IsPool, oldest-ne-none}

-- The same server, account, credential and root.
pub record SameConnection (a b : Host) : Type 0 where
  pub protocol : a.protocol ≡ b.protocol
  pub address : a.address ≡ b.address
  pub port : a.port ≡ b.port
  pub user : a.user ≡ b.user
  pub auth : a.auth ≡ b.auth
  pub key_id : a.key_id ≡ b.key_id
  pub initial_path : a.initial_path ≡ b.initial_path

same_connection-Same : (a b : Host) → same_connection a b ≡ true → SameConnection a b
unfolding same_connection
same_connection-Same a b h = record {
  protocol = ground (arith, h, protocol_eq.eq_law a.protocol b.protocol);
  address = ground (arith, h, text_beq_iff a.address b.address);
  port = ground (arith, h);
  user = ground (arith, h, text_beq_iff a.user b.user);
  auth = ground (arith, h, auth_eq.eq_law a.auth b.auth);
  key_id = ground (arith, h, option_beq_iff text_beq text_beq_iff a.key_id b.key_id);
  initial_path = ground (arith, h, text_beq_iff a.initial_path b.initial_path);
}

Same-same_connection : (a b : Host) → SameConnection a b → same_connection a b ≡ true
unfolding same_connection
Same-same_connection a b s = ground (
  arith,
  (protocol_eq.eq_law a.protocol b.protocol).1 s.protocol,
  (text_beq_iff a.address b.address).1 s.address,
  s.port,
  (text_beq_iff a.user b.user).1 s.user,
  (auth_eq.eq_law a.auth b.auth).1 s.auth,
  (option_beq_iff text_beq text_beq_iff a.key_id b.key_id).1 s.key_id,
  (text_beq_iff a.initial_path b.initial_path).1 s.initial_path,
)

same_self : (h : Host) → SameConnection h h
same_self h = record {
  protocol = refl;
  address = refl;
  port = refl;
  user = refl;
  auth = refl;
  key_id = refl;
  initial_path = refl;
}

module _ {B : Type 0} where
  -- The least recently used session is no younger than any other.
  pub oldest-least :
      (es : List (PoolEntry B)) (m : PoolEntry B)
      → oldest es ≡ some m
      → All (λ e. m.last_used ≤ e.last_used) es
  unfolding oldest
  oldest-least [] m h = tt
  oldest-least (e ∷ []) m h = (ground arith, tt)
  oldest-least (e ∷ f ∷ es) m h = elim (Option-cases (oldest (f ∷ es))) [
    | inl none_left ↦ absurd (oldest-ne-none f es none_left)
    | inr (x, later) ↦
        let below : m.last_used ≤ x.last_used = ground arith in
        (
          ground arith,
          All-mono (f ∷ es) (λ t (l : x.last_used ≤ t.last_used). omega arith)
              (oldest-least (f ∷ es) x later),
        )
  ]

  -- A session that the pool `p` had for the same connection of the host.
  pub record IsKept (host : Host) (p : Pool B) (b : B) (made_for : Host) : Type 0 where
    pub old : PoolEntry B
    pub held : find (has_key host.id) p.sessions ≡ some old
    pub current : SameConnection old.host host
    pub backend : old.backend ≡ b
    pub unchanged : old.host ≡ made_for

  -- One that the factory made for the host, because the pool `p` had none, or another connection.
  pub record IsMade (factory : Host → B) (host : Host) (p : Pool B) (b : B) (made_for : Host)
      : Type 0 where
    pub missing :
        (old : PoolEntry B)
        → find (has_key host.id) p.sessions ≡ some old
        → ¬ SameConnection old.host host
    pub backend : b ≡ factory host
    pub fresh : made_for ≡ host

  -- The session of a host as the pool has it after a call on the pool `p`.
  pub record Serves (factory : Host → B) (host : Host) (now : ℕ) (p : Pool B) (b : B)
      (after : Pool B) : Type 0 where
    pub entry : PoolEntry B
    pub found : find (has_key host.id) after.sessions ≡ some entry
    pub backend : entry.backend ≡ b
    pub current : SameConnection entry.host host
    pub used : entry.last_used ≡ now
    pub origin : IsKept host p b entry.host ⊎ IsMade factory host p b entry.host

  open_session-Serves :
      (factory : Host → B) (now : ℕ) (host : Host) (before p : Pool B)
      → ((old : PoolEntry B)
          → find (has_key host.id) before.sessions ≡ some old
          → ¬ SameConnection old.host host)
      → let r = open_session factory now host p in Serves factory host now before r.0 r.1
  unfolding open_session find
  open_session-Serves factory now host before p missing = record {
    entry = record { key = host.id; backend = factory host; host = host; last_used = now };
    found = rw (text_beq_refl host.id);
    backend = refl;
    current = same_self host;
    used = refl;
    origin = inr (record { missing = missing; backend = refl; fresh = refl });
  }

  find-use_now :
      (id : Text) (now : ℕ) (es : List (PoolEntry B)) (e : PoolEntry B)
      → find (has_key id) es ≡ some e
      → find (has_key id) (use_now id now es) ≡ some (record e { last_used = now })
  unfolding find use_now
  find-use_now id now [] e h = absurd (ground arith)
  find-use_now id now (s ∷ es) e h = ground (arith, find-use_now id now es e)

  -- After `get` the pool holds, for that host, the returned backend, used just now. It is the one that
  -- the pool had before where that was for the same protocol, address, port, user, authentication,
  -- key and initial path, and else one that the factory made for this host.
  pub get-Serves :
      (factory : Host → B) (now : ℕ) (host : Host) (p : Pool B)
      → let r = get factory now host p in Serves factory host now p r.0 r.1
  unfolding get
  get-Serves factory now host p = elim (Option-cases (find (has_key host.id) p.sessions)) [
    | inl h ↦ rw (h, get) (open_session-Serves factory now host p (make_room p) (λ old e s. cc))
    | inr (e, h) ↦ elim (Bool-cases (same_connection e.host host)) [
      | inl same ↦
          rw (h, get, same)
            (record {
              entry = record e { last_used = now };
              found = find-use_now host.id now p.sessions e h;
              backend = refl;
              current = same_connection-Same e.host host same;
              used = refl;
              origin = inl (record {
                old = e;
                held = h;
                current = same_connection-Same e.host host same;
                backend = refl;
                unchanged = refl;
              });
            })
      | inr stale ↦
          rw (h, get, stale)
            (open_session-Serves factory now host p (make_room (close host.id p)) (λ old found s.
              let here : old ≡ e = ground (arith, found, h) in
              let yes : same_connection e.host host ≡ true =
                subst (λ x. same_connection x.host host ≡ true) here
                  (Same-same_connection old.host host s) in
              ground (arith, yes, stale)))
    ]
  ]

  -- A second `get` of the same host, at any later time, returns the same backend and closes nothing.
  pub get_again :
      (factory : Host → B) (now later : ℕ) (host : Host) (p : Pool B)
      → let first = get factory now host p in
        let second = get factory later host first.1 in
        (second.0 ≡ first.0) × (second.1.closed ≡ first.1.closed)
  get_again factory now later host p =
      let s = get-Serves factory now host p in
      unfold get in
      rw (s.found, get, Same-same_connection s.entry.host host s.current) (s.backend, refl)

  All-find :
      (q : PoolEntry B → Bool) (r : PoolEntry B → Bool) (es : List (PoolEntry B)) (e : PoolEntry B)
      → All (λ s. r s ≡ false) es
      → find q es ≡ some e
      → r e ≡ false
  unfolding find
  All-find q r [] e a h = cc
  All-find q r (s ∷ es) e a h = ground (arith, a.0, All-find q r es e a.1)

  oldest-find :
      (es : List (PoolEntry B)) (m : PoolEntry B)
      → Distinct es
      → oldest es ≡ some m
      → find (has_key m.key) es ≡ some m
  unfolding oldest find
  oldest-find [] m d h = cc
  oldest-find (e ∷ es) m d h = elim (Option-cases (oldest es)) [
    | inl last ↦ ground (arith, text_beq_iff e.key m.key)
    | inr (x, later) ↦
        let deep = oldest-find es x d.1 later in
        ground (
          arith,
          deep,
          All-find (has_key x.key) (has_key e.key) es x d.0 deep,
          text_beq_iff e.key m.key,
          text_beq_iff x.key e.key,
        )
  ]

  find-filter_other :
      (k j : Text) (es : List (PoolEntry B))
      → k ≢ j
      → find (has_key k) (filter (λ s. not (has_key j s)) es) ≡ find (has_key k) es
  unfolding find filter
  find-filter_other k j [] ne = refl
  find-filter_other k j (s ∷ es) ne = ground (
    arith,
    find-filter_other k j es ne,
    text_beq_iff s.key k,
    text_beq_iff s.key j,
    λ (e : k ≡ j). ne e,
  )

  close_found :
      (k : Text) (p : Pool B) {e : PoolEntry B}
      → find (has_key k) p.sessions ≡ some e
      → close k p ≡ record p {
        sessions = filter (λ s. not (has_key k s)) p.sessions;
        closed = e.backend ∷ p.closed;
      }
  unfolding close
  close_found k p h = rw (h, close)

  find_behind :
      (k : Text) (b : B) (host : Host) (now : ℕ) (es : List (PoolEntry B))
      → k ≢ host.id
      → find (has_key k) (record { key = host.id; backend = b; host = host; last_used = now } ∷ es)
        ≡ find (has_key k) es
  unfolding find
  find_behind k b host now es ne =
      ground (arith, text_beq_iff host.id k, λ (e : host.id ≡ k). ne (sym e))

  find-filter_own :
      (k : Text) (es : List (PoolEntry B))
      → find (has_key k) (filter (λ s. not (has_key k s)) es) ≡ none
  unfolding find filter
  find-filter_own k [] = refl
  find-filter_own k (s ∷ es) = ground (arith, find-filter_own k es)

  abbrev pub session_of : (Host → B) → Host → ℕ → PoolEntry B
  session_of factory host now = record {
    key = host.id;
    backend = factory host;
    host = host;
    last_used = now;
  }

  -- What a `get` that has to evict does to the pool.
  pub record Evicts (factory : Host → B) (host : Host) (now : ℕ) (p after : Pool B) : Type 0 where
    pub victim : PoolEntry B
    pub held : find (has_key victim.key) p.sessions ≡ some victim
    pub least : All (λ e. victim.last_used ≤ e.last_used) p.sessions
    pub closed : after.closed ≡ victim.backend ∷ p.closed
    pub gone : find (has_key victim.key) after.sessions ≡ none
    pub opened : find (has_key host.id) after.sessions ≡ some (session_of factory host now)
    pub others :
        (k : Text)
        → k ≢ victim.key
        → k ≢ host.id
        → find (has_key k) after.sessions ≡ find (has_key k) p.sessions

  get_full :
      (factory : Host → B) (now : ℕ) (host : Host) (p : Pool B) (m : PoolEntry B)
      → IsPool p
      → find (has_key host.id) p.sessions ≡ none
      → leb p.max_sessions (length p.sessions) ≡ true
      → oldest p.sessions ≡ some m
      → Evicts factory host now p (get factory now host p).1
  unfolding get make_room open_session find
  get_full factory now host p m v miss full h =
      let held = oldest-find p.sessions m v.distinct h in
      let apart : m.key ≢ host.id = λ e.
        absurd (ground (arith, miss, subst (λ k. find (has_key k) p.sessions ≡ some m) e held)) in
      rw (miss, get, full, h, close_found m.key p held)
        (record {
          victim = m;
          held = held;
          least = oldest-least p.sessions m h;
          closed = refl;
          gone =
              find_behind m.key (factory host) host now _ apart
              ∙ find-filter_other m.key host.id (filter (λ s. not (has_key m.key s)) p.sessions)
                  apart
              ∙ find-filter_own m.key p.sessions;
          opened = rw (text_beq_refl host.id) refl;
          others = λ k a b.
              find_behind k (factory host) host now _ b
              ∙ find-filter_other k host.id (filter (λ s. not (has_key m.key s)) p.sessions) b
              ∙ find-filter_other k m.key p.sessions a;
        })

  get_by :
      (factory : Host → B) (now : ℕ) (host : Host) (p : Pool B) (es : List (PoolEntry B))
      → p.sessions ≡ es
      → IsPool p
      → find (has_key host.id) p.sessions ≡ none
      → p.max_sessions ≤ length p.sessions
      → Evicts factory host now p (get factory now host p).1
  get_by factory now host p [] e v miss full = absurd (omega (arith, v.positive, ap length e))
  get_by factory now host p (s ∷ es) e v miss full = elim (Option-cases (oldest p.sessions)) [
    | inl h ↦ absurd (oldest-ne-none s es (rw e at h))
    | inr (m, h) ↦ get_full factory now host p m v miss (ground arith) h
  ]

  -- A full pool that is asked for another host disconnects one session, a least recently used one,
  -- and drops it, opens a session for the host, and leaves those of all other hosts as they were.
  pub get-Evicts :
      (factory : Host → B) (now : ℕ) (host : Host) (p : Pool B)
      → IsPool p
      → find (has_key host.id) p.sessions ≡ none
      → p.max_sessions ≤ length p.sessions
      → Evicts factory host now p (get factory now host p).1
  get-Evicts factory now host p = get_by factory now host p p.sessions refl
