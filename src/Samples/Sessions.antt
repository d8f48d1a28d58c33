-- ===== src/Samples/Sessions.antt =====
-- The connection pool on concrete sessions.
use m_kestrel.Prelude.{◌≤◌, length, [], ◌∷◌, Text, codes, refl, arith, find, text_beq}
use m_kestrel.Core.Host.{Host}
use m_kestrel.Samples.{nas, edge}
use m_kestrel.Vfs.Pool.{Pool, get, new_pool, with_limits}
use m_kestrel.Vfs.Pool.Cap.{Distinct, IsPool, gets, prunes, run, run-with_limits}
use m_kestrel.Vfs.Pool.Lookup.{Evicts, Serves, get-Serves, get-Evicts}

-- A backend is the name of its host.
abbrev connect : Host → Text
connect h = h.id

abbrev full : Pool Text
full = record {
  sessions = record { key = codes "nas"; backend = codes "nas"; host = nas; last_used = 3 } ∷ [];
  max_sessions = 1;
  idle_timeout = 5;
  closed = [];
}

full-IsPool : IsPool full
full-IsPool = record { positive = omega arith; capped = omega arith; distinct = (tt, tt) }

run-with_limits_example :
    let p = run connect (with_limits new_pool 0 5) (gets 1 nas ∷ gets 2 edge ∷ prunes 9 ∷ []) in
    (length p.sessions ≤ 1) × Distinct p.sessions
run-with_limits_example = run-with_limits connect 0 5 (gets 1 nas ∷ gets 2 edge ∷ prunes 9 ∷ [])

get-Serves_example : let r = get connect 4 edge full in Serves connect edge 4 full r.0 r.1
get-Serves_example = get-Serves connect 4 edge full

get-Evicts_example : Evicts connect edge 4 full (get connect 4 edge full).1
unfolding find text_beq
get-Evicts_example = get-Evicts connect 4 edge full full-IsPool refl (omega arith)
