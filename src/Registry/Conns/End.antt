-- ===== src/Registry/Conns/End.antt =====
-- The end of a battle.
use atlas_game_layout.Common.{
  String, List, [], ◌∷◌, Option, none, some, ◌≡◌, refl, lookup, delete, filter_map, lookup-delete,
  lookup-filter_map, Unique, delete-Unique, filter_map-eq-nil, ap, ℕ, is_some, length, ◌==◌,
  string_key, str_iff, if◌then◌else◌, arith,
}
use atlas_game_layout.Registry.State.{Engine, Conn, endpoint, Registry, endpoint_key, conn_key}
use atlas_game_layout.Registry.Conns.{drop_state, count_battle, close_battle, close_entries}

-- What the end of a battle leaves to a player whose connection is given.
abbrev pub after_end {ℓ} : {A : Type ℓ} → String → Option Conn → Option A → Option A
after_end b none a = a
after_end b (some c) a = if c.battle_id == b then none else a

module _ {Time : Type 0} where
  close_entries-delete :
      (en : Engine) (r : Registry Time) (vs : List (String × Conn)) (q : String)
      → lookup q (close_entries en r vs).conns
        ≡ (if is_some (lookup q vs) then none else lookup q r.conns)
  unfolding drop_state
  close_entries-delete en r [] q = refl
  close_entries-delete en r ((p, c) ∷ vs) q =
      let r' =
        drop_state
          (record r { conns = delete p r.conns; endpoints = delete (endpoint en c) r.endpoints })
          p in
      ground (arith, close_entries-delete en r' vs q, lookup-delete p q r.conns, str_iff p q)

  close_entries-states :
      (en : Engine) (r : Registry Time) (vs : List (String × Conn)) (q : String)
      → lookup q (close_entries en r vs).states
        ≡ (if is_some (lookup q vs) then none else lookup q r.states)
  unfolding drop_state
  close_entries-states en r [] q = refl
  close_entries-states en r ((p, c) ∷ vs) q =
      let r' =
        drop_state
          (record r { conns = delete p r.conns; endpoints = delete (endpoint en c) r.endpoints })
          p in
      ground (arith, close_entries-states en r' vs q, lookup-delete p q r.states, str_iff p q)

  close_entries-Unique :
      (en : Engine) (r : Registry Time) (vs : List (String × Conn))
      → Unique r.conns
      → Unique (close_entries en r vs).conns
  unfolding drop_state
  close_entries-Unique en r [] u = u
  close_entries-Unique en r ((p, c) ∷ vs) u =
      close_entries-Unique en
        (drop_state
          (record r { conns = delete p r.conns; endpoints = delete (endpoint en c) r.endpoints }) p)
        vs (delete-Unique p r.conns u)

  -- The end of a battle, on a table without doubles, takes away the connection and the state of
  -- every player whose connection is to it, and leaves those of all others; no connection to it is
  -- left.
  pub close_battle_lem :
      (en : Engine) (r : Registry Time) (now : ℕ) (b q : String)
      → Unique r.conns
      → let r' = (close_battle en r now b).0 in
        (lookup q r'.conns ≡ after_end b (lookup q r.conns) (lookup q r.conns))
        × (lookup q r'.states ≡ after_end b (lookup q r.conns) (lookup q r.states))
        × (count_battle r' b ≡ 0)
  unfolding close_battle count_battle
  close_battle_lem en r now b q u = (left q, states, ap length none_left)
    where
      victims : List (String × Conn)
      victims = filter_map (λ p c. c.battle_id == b) r.conns

      left :
          (k : String)
          → lookup k (close_entries en r victims).conns
            ≡ after_end b (lookup k r.conns) (lookup k r.conns)
      left k = ground (
        arith,
        close_entries-delete en r victims k,
        lookup-filter_map k (λ p c. c.battle_id == b) r.conns u,
      )

      states :
          lookup q (close_entries en r victims).states
          ≡ after_end b (lookup q r.conns) (lookup q r.states)
      states = ground (
        arith,
        close_entries-states en r victims q,
        lookup-filter_map q (λ p c. c.battle_id == b) r.conns u,
      )

      none_left : filter_map (λ p c. c.battle_id == b) (close_entries en r victims).conns ≡ []
      none_left =
          filter_map-eq-nil (λ p c. c.battle_id == b) (close_entries en r victims).conns
            (close_entries-Unique en r victims u) λ k c at. ground (arith, left k)
