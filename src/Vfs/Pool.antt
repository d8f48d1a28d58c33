-- ===== src/Vfs/Pool.antt =====
-- crates/mk-vfs/src/pool.rs: the connection pool. `B` is the type of backends; the factory and the
-- clock (in nanoseconds) are arguments. The map of sessions is a list in the map's iteration order. The second
-- component of a state is the log of the backends that were disconnected.
pub mod Cap
pub mod Lookup
pub mod Owned
use m_kestrel.Prelude.{
  ℕ, ◌+◌, ◌-◌, ◌*◌, ◌^◌, max, Bool, true, false, ◌&&◌, not, List, [], ◌∷◌, ◌++◌, map, Option, none,
  some, Text, if◌then◌else◌, ◌==◌, eqb, ltb, leb, text_eq, text_option_eq, find, filter, length,
  any,
}
use m_kestrel.Core.Host.{Host, protocol_eq, auth_eq}

unfoldable pub same_connection : Host → Host → Bool
same_connection a b =
    a.protocol == b.protocol
    && a.address == b.address
    && eqb a.port b.port
    && a.user == b.user
    && a.auth == b.auth
    && a.key_id == b.key_id
    && a.initial_path == b.initial_path

pub record PoolEntry (B : Type 0) : Type 0 where
  pub key : Text
  pub backend : B
  pub host : Host
  pub last_used : ℕ

-- `closed` lists the backends on which `disconnect` was called, the latest first.
pub record Pool (B : Type 0) : Type 0 where
  pub sessions : List (PoolEntry B)
  pub max_sessions : ℕ
  pub idle_timeout : ℕ
  pub closed : List B

module _ {B : Type 0} where
  -- `ConnectionPool::new` and `with_limits`.
  unfoldable pub new_pool : Pool B
  new_pool = record { sessions = []; max_sessions = 4; idle_timeout = 60 * 10 ^ 9; closed = [] }

  unfoldable pub with_limits : Pool B → ℕ → ℕ → Pool B
  with_limits p max_sessions idle_timeout = record p {
    max_sessions = max max_sessions 1;
    idle_timeout = idle_timeout;
  }

  abbrev pub has_key : Text → PoolEntry B → Bool
  has_key id e = e.key == id

  -- `HashMap::remove`, with the `disconnect` that follows each of its calls.
  unfoldable pub close : Text → Pool B → Pool B
  close id p = elim (find (has_key id) p.sessions) [
    | none ↦ p
    | some e ↦ record p {
      sessions = filter (λ s. not (has_key id s)) p.sessions;
      closed = e.backend ∷ p.closed;
    }
  ]

  -- `min_by_key`: the first entry, in iteration order, with the least `last_used`.
  unfoldable pub oldest : List (PoolEntry B) → Option (PoolEntry B)
  oldest [] = none
  oldest (e ∷ es) = elim (oldest es) [
    | none ↦ some e
    | some m ↦ if leb e.last_used m.last_used then some e else some m
  ]

  -- Room for one more: at the cap, the least recently used session is closed.
  unfoldable pub make_room : Pool B → Pool B
  unfolding oldest close
  make_room p =
      if leb p.max_sessions (length p.sessions)
      then elim (oldest p.sessions) [ none ↦ p | some e ↦ close e.key p ]
      else p

  -- `sessions.insert(id, entry)` of a key that is not in the map.
  unfoldable pub open_session : (Host → B) → ℕ → Host → Pool B → B × Pool B
  open_session factory now host p =
      let backend = factory host in
      let entry : PoolEntry B = record {
        key = host.id;
        backend = backend;
        host = host;
        last_used = now;
      } in
      (backend, record p { sessions = entry ∷ filter (λ s. not (has_key host.id s)) p.sessions })

  abbrev mark_used : Text → ℕ → PoolEntry B → PoolEntry B
  mark_used id now e = record e { last_used = if has_key id e then now else e.last_used }

  unfoldable pub use_now : Text → ℕ → List (PoolEntry B) → List (PoolEntry B)
  use_now id now = map (mark_used id now)

  unfoldable pub get : (Host → B) → ℕ → Host → Pool B → B × Pool B
  unfolding close make_room open_session use_now same_connection
  get factory now host p = elim (find (has_key host.id) p.sessions) [
    | none ↦ open_session factory now host (make_room p)
    | some e ↦
        if same_connection e.host host
        then (e.backend, record p { sessions = use_now host.id now p.sessions })
        else open_session factory now host (make_room (close host.id p))
  ]

  unfoldable pub drop_host : Text → Pool B → Pool B
  unfolding close
  drop_host id p = close id p

  -- `now.duration_since(e.last_used) > idle_timeout`.
  abbrev pub is_idle : ℕ → ℕ → PoolEntry B → Bool
  is_idle idle_timeout now e = ltb idle_timeout (now - e.last_used)

  unfoldable pub close_all : List Text → Pool B → Pool B
  unfolding close
  close_all [] p = p
  close_all (id ∷ ids) p = close_all ids (close id p)

  abbrev pub expired : ℕ → Pool B → List Text
  expired now p = map (λ e. e.key) (filter (is_idle p.idle_timeout now) p.sessions)

  unfoldable pub prune_idle : ℕ → Pool B → Pool B
  unfolding close_all
  prune_idle now p = close_all (expired now p) p
