-- ===== src/Session/Sweep.antt =====
-- `SweepOnce` and the local sessions.
use atlas_game_layout.Common.{
  ℕ, ◌+◌, String, true, ◌&&◌, List, [], ◌∷◌, none, some, ◌≡◌, refl, Map, lookup, lookup-delete,
  delete, member, Unique, length, ◌==◌, nat_key, string_key, str_iff, if◌then◌else◌, arith,
  Option-cases, inl, inr, delete-Unique, is_some,
}
use atlas_game_layout.Session.{Session, Manager, Store, drop_session, count}
use atlas_game_layout.Session.Expiry.{
  SweepState, sweep_one, sweep_all, sweep_once, drop_expired, expired_ids, is_expired,
}

pub drop_expired-local :
    (now : ℕ) (m : Manager) (removed : ℕ) (p q : String)
    → let m' = (drop_expired now m removed p).0 in
      (lookup q m'.local ≡ elim (lookup q m.local) [
        | none ↦ none
        | some s ↦ if p == q && is_expired m now s then none else some s
      ])
      × (m'.ttl ≡ m.ttl)
      × (m'.instance_id ≡ m.instance_id)
unfolding drop_expired drop_session is_expired
drop_expired-local now m removed p q = elim (Option-cases (lookup p m.local)) [
  | inl e ↦ ground (arith, str_iff p q)
  | inr (s, e) ↦ ground (arith, str_iff p q, lookup-delete p q m.local)
]

length-delete :
    (p : String) (m : Map String Session)
    → Unique m
    → length (delete p m) + (if is_some (lookup p m) then 1 else 0) ≡ length m
length-delete p [] u = refl
length-delete p ((j, w) ∷ m) u = ground (arith, str_iff j p, length-delete p m u.1)

drop_expired-count :
    (now : ℕ) (m : Manager) (removed : ℕ) (p : String)
    → Unique m.local
    → let (m', removed') = drop_expired now m removed p in
      (length m'.local + removed' ≡ length m.local + removed) × Unique m'.local
unfolding drop_expired drop_session
drop_expired-count now m removed p u = elim (Option-cases (lookup p m.local)) [
  | inl e ↦ ground arith
  | inr (s, e) ↦ ground (arith, length-delete p m.local u, delete-Unique p m.local u)
]

expired_ids-member :
    (m : Manager) (now : ℕ) (local : Map String Session) (q : String) (s : Session)
    → lookup q local ≡ some s
    → is_expired m now s ≡ true
    → member q (expired_ids m now local) ≡ true
unfolding expired_ids is_expired
expired_ids-member m now [] q s at e = ground arith
expired_ids-member m now ((j, w) ∷ local) q s at e =
    ground (arith, str_iff j q, expired_ids-member m now local q s)

module _ {S : Type 0} (store : Store S) where
  pub sweep_one-manager :
      (now : ℕ) (st : SweepState S) (p : String)
      → ((sweep_one store now st p).manager ≡ (drop_expired now st.manager st.removed p).0)
        × ((sweep_one store now st p).removed ≡ (drop_expired now st.manager st.removed p).1)
  unfolding sweep_one
  sweep_one-manager now st p = ground arith

  sweep_all-local :
      (now : ℕ) (st : SweepState S) (ids : List String) (q : String)
      → lookup q (sweep_all store now st ids).manager.local ≡ elim (lookup q st.manager.local) [
        | none ↦ none
        | some s ↦ if member q ids && is_expired st.manager now s then none else some s
      ]
  unfolding sweep_all is_expired
  sweep_all-local now st [] q = ground arith
  sweep_all-local now st (p ∷ ids) q = ground (
    arith,
    sweep_all-local now (sweep_one store now st p) ids q,
    sweep_one-manager now st p,
    drop_expired-local now st.manager st.removed p q,
  )

  sweep_all-count :
      (now : ℕ) (st : SweepState S) (ids : List String)
      → Unique st.manager.local
      → let out = sweep_all store now st ids in
        length out.manager.local + out.removed ≡ length st.manager.local + st.removed
  unfolding sweep_all
  sweep_all-count now st [] u = refl
  sweep_all-count now st (p ∷ ids) u =
      let (same, u') = drop_expired-count now st.manager st.removed p u in
      let (at_m, at_n) = sweep_one-manager now st p in
      let rest = sweep_all-count now (sweep_one store now st p) ids (rw at_m u') in
      ground (arith, rest)

  -- A sweep of a table without doubles takes away exactly the local sessions whose heartbeat is
  -- older than the lifetime, and its answer is how many these are.
  pub sweep_once_lem :
      (s : S) (m : Manager) (now : ℕ) (q : String)
      → Unique m.local
      → let out = sweep_once store s m now in
        (lookup q out.manager.local ≡ elim (lookup q m.local) [
          | none ↦ none
          | some t ↦ if is_expired m now t then none else some t
        ])
        × (count out.manager + out.removed ≡ count m)
  unfolding sweep_once count
  sweep_once_lem s m now q u =
      let start : SweepState S = record { store_state = s; manager = m; removed = 0; swept = [] } in
      let ids = expired_ids m now m.local in
      (
        elim (Option-cases (lookup q m.local)) [
          | inl e ↦ ground (arith, sweep_all-local now start ids q)
          | inr (t, e) ↦
              ground
                (arith, sweep_all-local now start ids q, expired_ids-member m now m.local q t e)
        ],
        ground (arith, sweep_all-count now start ids u),
      )
