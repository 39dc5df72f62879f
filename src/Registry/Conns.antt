-- ===== src/Registry/Conns.antt =====
-- Connections come and go: registry.go from `BindPort` to `CloseBattle`, and the per-connection
-- state of delta.go. A method returns the new registry; the connections that it closes and the
-- notices that it pushes are listed in order.
pub mod Laws
pub mod End
use atlas_game_layout.Common.{
  ℕ, zero, suc, String, Bool, true, false, not, ◌&&◌, List, [], ◌∷◌, ◌++◌, map, Option, none, some,
  Map, lookup, insert, delete, filter_map, is_some, length, member, ◌==◌, nat_key, string_key,
  if◌then◌else◌,
}
use atlas_game_layout.EndedBook.{record_end, winner_of, claim, end_retries}
use atlas_game_layout.EndedBook
use atlas_game_layout.Registry.State.{
  Engine, Endpoint, Conn, endpoint, ClientState, new_client_state, EndpointRef, Link, Registry,
  endpoint_key, conn_key,
}

pub data Effect : Type 0 where
  -- `BattleEndNotify` with its winner.
  pushes_end : Conn → String → Effect
  closes : Conn → Effect

abbrev pub has_port : {Time : Type 0} → Registry Time → Conn → Bool
has_port r c = member c.kind r.ports

abbrev pub changes : Option Conn → Conn → Bool
changes none c = true
changes (some old) c = not (old == c)

abbrev is_current : Option Conn → Conn → Bool
is_current none c = false
is_current (some cur) c = cur == c

abbrev stands_at : Engine → Option Conn → Endpoint → Bool
stands_at en none ep = false
stands_at en (some cur) ep = endpoint en cur == ep

abbrev repeat : ℕ → List Effect → List Effect
repeat zero es = []
repeat (suc n) es = es ++ repeat n es

module _ {Time : Type 0} where
  -- `BindPort`, for a port that is not nil.
  unfoldable pub bind_port : Registry Time → String → Registry Time
  bind_port r kind = record r { ports = if member kind r.ports then r.ports else kind ∷ r.ports }

  -- `resetState`: the payload version and the request window stay.
  unfoldable pub reset_state : Registry Time → String → Registry Time
  reset_state r player_id = elim (lookup player_id r.states) [
    | none ↦ r
    | some st ↦ record r {
      states = insert player_id (record st { last_seq = 0; keyframe_requested = false }) r.states;
    }
  ]

  -- `dropState`.
  unfoldable pub drop_state : Registry Time → String → Registry Time
  drop_state r player_id = record r { states = delete player_id r.states }

  -- `closeConn`: nothing where the kind has no port.
  unfoldable pub close_conn : Registry Time → Conn → List Effect
  close_conn r c = if has_port r c then closes c ∷ [] else []

  -- `pushTo` with a `BattleEndNotify`.
  unfoldable pub push_end_to : Registry Time → Conn → String → List Effect
  push_end_to r c winner = if has_port r c then pushes_end c winner ∷ [] else []

  abbrev closes_old : Registry Time → Option Conn → Conn → List Effect
  closes_old r none c = []
  closes_old r (some old) c = if old == c then [] else close_conn r old

  -- `Register`: the new registry, whether the connection changed, and what is closed.
  unfoldable pub register :
      Engine → Registry Time → String → Conn → Registry Time × Bool × List Effect
  unfolding reset_state endpoint close_conn
  register en r player_id c =
      let old = lookup player_id r.conns in
      let stored = record r { conns = insert player_id c r.conns } in
      let indexed = record stored {
        endpoints =
            insert (endpoint en c) (record { player_id = player_id; battle_id = c.battle_id })
              r.endpoints;
      } in
      (
        if changes old c then reset_state indexed player_id else stored,
        changes old c,
        closes_old r old c,
      )

  -- `Unregister`.
  unfoldable pub unregister : Registry Time → String → Conn → Registry Time
  unfolding reset_state
  unregister r player_id c =
      if is_current (lookup player_id r.conns) c
      then reset_state (record r { conns = delete player_id r.conns }) player_id
      else r

  -- `Online`.
  unfoldable pub online : Registry Time → String → Bool
  online r player_id = is_some (lookup player_id r.conns)

  -- `Disconnect`.
  unfoldable pub disconnect : Engine → Registry Time → Endpoint → Registry Time × Option EndpointRef
  unfolding reset_state endpoint
  disconnect en r ep = elim (lookup ep r.endpoints) [
    | none ↦ (r, none)
    | some owner ↦
        let removed = record r { endpoints = delete ep r.endpoints } in
        (
          if stands_at en (lookup owner.player_id r.conns) ep
              then reset_state (record removed { conns = delete owner.player_id r.conns })
                  owner.player_id
              else removed,
          some owner,
        )
  ]

  -- `Count` and `CountBattle`.
  unfoldable pub count : Registry Time → ℕ
  count r = length r.conns

  unfoldable pub count_battle : Registry Time → String → ℕ
  count_battle r battle_id = length (filter_map (λ p c. c.battle_id == battle_id) r.conns)

  -- `RecordEnded` and `Ended`.
  unfoldable pub record_ended : Registry Time → ℕ → String → String → List String → Registry Time
  record_ended r now battle_id winner players = record r {
    ended = record_end r.ended now battle_id winner players;
  }

  unfoldable pub ended : Registry Time → ℕ → String → Registry Time × Bool
  ended r now battle_id =
      let (b, over) = EndedBook.ended r.ended now battle_id in (record r { ended = b }, over)

  -- `ReplayEnd`.
  unfoldable pub replay_end : Registry Time → ℕ → String → Conn → Registry Time × Bool × List Effect
  unfolding push_end_to
  replay_end r now player_id c =
      let (b, won) = claim r.ended now c.battle_id player_id in
      elim won [
        | none ↦ (record r { ended = b }, false, [])
        | some winner ↦ (record r { ended = b }, true, push_end_to r c winner)
      ]

  -- `repushEnd`.
  unfoldable pub repush_end : Registry Time → Conn → Option String → List Effect
  unfolding push_end_to
  repush_end r c none = []
  repush_end r c (some winner) = repeat end_retries (push_end_to r c winner)

  -- One victim of `CloseBattle`: its entry, its endpoint and its state go.
  abbrev close_entries : Engine → Registry Time → List (String × Conn) → Registry Time
  close_entries en r [] = r
  close_entries en r ((player_id, c) ∷ rest) =
      close_entries en
        (drop_state
          (record r {
            conns = delete player_id r.conns;
            endpoints = delete (endpoint en c) r.endpoints;
          })
          player_id)
        rest

  abbrev close_effects : Registry Time → Option String → List (String × Conn) → List Effect
  close_effects r won [] = []
  close_effects r won ((player_id, c) ∷ rest) =
      repush_end r c won ++ (close_conn r c ++ close_effects r won rest)

  -- `CloseBattle`.
  unfoldable pub close_battle : Engine → Registry Time → ℕ → String → Registry Time × List Effect
  unfolding endpoint drop_state repush_end close_conn
  close_battle en r now battle_id =
      let victims = filter_map (λ p c. c.battle_id == battle_id) r.conns in
      let closed = close_entries en r victims in
      let (b, won) = winner_of r.ended now battle_id in
      (record closed { ended = b }, close_effects r won victims)
