-- ===== src/Session/Expiry.antt =====
-- The sweep of expired sessions, `SweepOnce`.
use atlas_game_layout.Common.{
  ℕ, ◌+◌, String, Bool, List, [], ◌∷◌, Option, none, some, Map, lookup, nat_key, string_key, ltb,
  if◌then◌else◌,
}
use atlas_game_layout.Session.{
  Session, Conn, Manager, Store, drop_session, delete_route_if_owned, route_taken_over, conn_id_of,
}

-- Whether the heartbeat lies before `now - ttl`.
unfoldable pub is_expired : Manager → ℕ → Session → Bool
is_expired m now s = ltb (s.last_heartbeat + m.ttl) now

pub record Swept : Type 0 where
  pub player_id : String
  pub token : String

-- The first loop of `SweepOnce`.
unfoldable pub expired_ids : Manager → ℕ → Map String Session → List String
unfolding is_expired
expired_ids m now [] = []
expired_ids m now ((id, s) ∷ rest) =
    let ids = expired_ids m now rest in if is_expired m now s then id ∷ ids else ids

pub record SweepState (S : Type 0) : Type 0 where
  pub store_state : S
  pub manager : Manager
  pub removed : ℕ
  pub swept : List Swept

abbrev token_of : Option Session → String
token_of none = ""
token_of (some s) = s.token

abbrev pub conn_of : Option Session → Option Conn
conn_of none = none
conn_of (some s) = s.conn

-- The part of a turn under the lock: a session that is still expired goes, and is counted.
unfoldable pub drop_expired : ℕ → Manager → ℕ → String → Manager × ℕ
unfolding is_expired drop_session
drop_expired now m removed id = elim (lookup id m.local) [
  | none ↦ (m, removed)
  | some s ↦ if is_expired m now s then (drop_session m id s, removed + 1) else (m, removed)
]

module _ {S : Type 0} (store : Store S) where
  -- One turn of the second loop, at one expired player.
  unfoldable pub sweep_one : ℕ → SweepState S → String → SweepState S
  unfolding drop_expired delete_route_if_owned route_taken_over
  sweep_one now st id =
      let sess = lookup id st.manager.local in
      let conn_id = conn_id_of (conn_of sess) in
      let (m, removed) = drop_expired now st.manager st.removed id in
      if route_taken_over store st.store_state st.manager id conn_id
      then record st { manager = m; removed = removed }
      else record {
        store_state = delete_route_if_owned store st.store_state st.manager id conn_id;
        manager = m;
        removed = removed;
        swept = record { player_id = id; token = token_of sess } ∷ st.swept;
      }

  unfoldable pub sweep_all : ℕ → SweepState S → List String → SweepState S
  sweep_all now st [] = st
  sweep_all now st (id ∷ ids) = sweep_all now (sweep_one now st id) ids

  -- `SweepOnce`; the swept sessions come last first.
  unfoldable pub sweep_once : S → Manager → ℕ → SweepState S
  unfolding expired_ids sweep_all sweep_one
  sweep_once s m now =
      sweep_all now (record { store_state = s; manager = m; removed = 0; swept = [] })
        (expired_ids m now m.local)
