-- ===== src/Session/Routes.antt =====
-- `SweepOnce` and the routes that other gateways hold.
use atlas_game_layout.Common.{
  ℕ, String, Bool, true, false, List, [], ◌∷◌, some, ◌≡◌, ◌≢◌, refl, ◌==◌, nat_key, string_key,
  str_iff, if◌then◌else◌, arith, Bool-cases, inl, inr, lookup, if_elim,
}
use atlas_game_layout.Session.{
  Manager, Route, Store, route_taken_over, delete_route_if_owned, conn_id_of,
}
use atlas_game_layout.Session.Expiry.{
  Swept, SweepState, sweep_one, sweep_all, sweep_once, drop_expired, expired_ids, conn_of,
}
use atlas_game_layout.Session.Sweep.{drop_expired-local}

-- Removing a route leaves those of the other players.
pub record RemovesOne {S : Type 0} (store : Store S) : Type 0 where
  pub get-remove : (s : S) (p q : String) → p ≢ q → store.get (store.remove s p) q ≡ store.get s q

-- Whether a player is reported as swept.
abbrev pub reports : String → List Swept → Bool
reports q [] = false
reports q (x ∷ xs) = let rest = reports q xs in if x.player_id == q then true else rest

module _ {S : Type 0} (store : Store S) where
  -- The route of a player is another gateway's, and the player has not been reported.
  abbrev Elsewhere : String → Route → SweepState S → Type 0
  Elsewhere q r st =
      (store.get st.store_state q ≡ some (some r))
      × (r.instance_id ≢ st.manager.instance_id)
      × (reports q st.swept ≡ false)

  delete_route-get :
      (s : S) (m : Manager) (p q : String) (id : ℕ) (r : Route)
      → RemovesOne store
      → store.get s q ≡ some (some r)
      → r.instance_id ≢ m.instance_id
      → store.get (delete_route_if_owned store s m p id) q ≡ some (some r)
  unfolding delete_route_if_owned
  delete_route-get s m p q id r one at apart = elim (Bool-cases (p == q)) [
    | inl e ↦ ground (arith, str_iff p q, str_iff r.instance_id m.instance_id)
    | inr ne ↦
        let other : p ≢ q = λ e. absurd (ground (arith, str_iff p q)) in
        ground (arith, one.get-remove s p q other)
  ]

  sweep_one-Elsewhere :
      (now : ℕ) (st : SweepState S) (p q : String) (r : Route)
      → RemovesOne store
      → Elsewhere q r st
      → Elsewhere q r (sweep_one store now st p)
  unfolding sweep_one route_taken_over
  sweep_one-Elsewhere now st p q r one (at, apart, unreported) =
      let (_, _, same) = drop_expired-local now st.manager st.removed p q in
      let id = conn_id_of (conn_of (lookup p st.manager.local)) in
      let kept = delete_route-get st.store_state st.manager p q id r one at apart in
      let still : r.instance_id ≢ (drop_expired now st.manager st.removed p).0.instance_id =
        rw same apart in
      if_elim (Elsewhere q r) (route_taken_over store st.store_state st.manager p id)
        (λ _. (at, still, unreported))
        λ mine.
          (kept, still, ground (arith, str_iff p q, str_iff r.instance_id st.manager.instance_id))

  sweep_all-Elsewhere :
      (now : ℕ) (st : SweepState S) (ids : List String) (q : String) (r : Route)
      → RemovesOne store
      → Elsewhere q r st
      → Elsewhere q r (sweep_all store now st ids)
  unfolding sweep_all
  sweep_all-Elsewhere now st [] q r one e = e
  sweep_all-Elsewhere now st (p ∷ ids) q r one e =
      sweep_all-Elsewhere now (sweep_one store now st p) ids q r one
        (sweep_one-Elsewhere now st p q r one e)

  -- On a store that removes one route at a time, a player whose route is another gateway's is left
  -- alone by a sweep: the route stays, and the player is not reported, also where the local
  -- session has expired and goes.
  pub sweep_once-elsewhere :
      (s : S) (m : Manager) (now : ℕ) (q : String) (r : Route)
      → RemovesOne store
      → store.get s q ≡ some (some r)
      → r.instance_id ≢ m.instance_id
      → let out = sweep_once store s m now in
        (store.get out.store_state q ≡ some (some r)) × (reports q out.swept ≡ false)
  unfolding sweep_once
  sweep_once-elsewhere s m now q r one at apart =
      let start : SweepState S = record { store_state = s; manager = m; removed = 0; swept = [] } in
      let (kept, _, unreported) =
        sweep_all-Elsewhere now start (expired_ids m now m.local) q r one (at, apart, refl) in
      (kept, unreported)
