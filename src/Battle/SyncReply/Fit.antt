-- ===== src/Battle/SyncReply/Fit.antt =====
-- How much of a reply `clipSyncReply` keeps, services/battle/internal/actor/battle_syncreply.go.
use atlas_game_layout.Common.{
  ℕ, zero, suc, ◌+◌, ◌-◌, ◌/◌, ◌≤◌, ◌<◌, Bool, true, false, none, some, ◌≡◌, ◌≢◌, ◌⊎◌, inl, inr,
  refl, arith, length, ltb, ◌==◌, nat_key, if◌then◌else◌, Bool-cases, ==_ne, nat_beq_iff,
}
use atlas_game_layout.Battle.SyncReply.{
  SyncReply, Sizes, sync_candidate, sync_fits_budget, search_fit, settle_fit, fit_sync_groups,
  clip_sync_reply,
}

module _ (sizes : Sizes) (budget : ℕ) (r : SyncReply) where
  -- The reply with the first k groups fits.
  abbrev pub fits : ℕ → Bool
  fits k = sync_fits_budget sizes budget (sync_candidate r k)

  -- Fewer groups take no more room.
  abbrev pub Monotone : Type 0
  Monotone = (j k : ℕ) → 0 < j → j ≤ k → k ≤ length r.missed → fits k ≡ true → fits j ≡ true

  abbrev pub NoneAbove : ℕ → Type 0
  NoneAbove n = (k : ℕ) → n < k → k ≤ length r.missed → fits k ≡ false

  abbrev pub IsKept : ℕ → Type 0
  IsKept n = (n ≡ 0) ⊎ (fits n ≡ true)

  abbrev Found : ℕ → Type 0
  Found n = (n ≤ length r.missed) × IsKept n × NoneAbove n

  search_step :
      (fuel lo hi : ℕ)
      → ltb lo hi ≡ true
      → search_fit sizes budget (suc fuel) r lo hi ≡ (
          let mid = (lo + hi + 1) / 2 in
          search_fit sizes budget fuel r
            (if fits mid then mid else lo)
            (if fits mid then hi else mid - 1))
  unfolding search_fit
  search_step fuel lo hi h = rw (h) refl

  search_end : (fuel lo hi : ℕ) → ltb lo hi ≡ false → search_fit sizes budget fuel r lo hi ≡ lo
  unfolding search_fit
  search_end zero lo hi h = refl
  search_end (suc fuel) lo hi h = rw (h) refl

  none_from : (mid hi : ℕ) → Monotone → 0 < mid → fits mid ≡ false → NoneAbove (mid - 1)
  none_from mid hi mono p f k lt le = elim (Bool-cases (fits k)) [
    | inl t ↦ absurd (ground (arith, mono mid k p (omega arith) le t, f))
    | inr g ↦ g
  ]

  search_fit-Found :
      (fuel lo hi : ℕ)
      → Monotone
      → hi - lo ≤ fuel
      → lo ≤ hi
      → hi ≤ length r.missed
      → IsKept lo
      → NoneAbove hi
      → Found (search_fit sizes budget fuel r lo hi)
  search_fit-Found zero lo hi mono enough le top kept above =
      rw (search_end zero lo hi (ground (arith, enough, le)))
        (omega (arith, enough, le, top), kept, λ k lt. above k (omega (arith, enough, le, lt)))
  search_fit-Found (suc fuel) lo hi mono enough le top kept above = elim (Bool-cases (ltb lo hi)) [
    | inr f ↦
        rw (search_end (suc fuel) lo hi f)
          (omega (arith, le, top), kept, λ k lt. above k (ground (arith, f)))
    | inl t ↦
        let lt : lo < hi = ground (arith, t) in
        let mid = (lo + hi + 1) / 2 in
        rw (search_step fuel lo hi t) (elim (Bool-cases (fits mid)) [
          | inl y ↦ rw (y) (
              search_fit-Found fuel mid hi mono (omega (arith, enough, lt)) (omega (arith, lt)) top
                (inr y) above)
          | inr f ↦ rw (f) (
              search_fit-Found fuel lo (mid - 1) mono (omega (arith, enough, lt))
                (omega (arith, lt)) (omega (arith, lt, top)) kept
                (none_from mid hi mono (omega (arith, lt)) f))
        ])
  ]

  settle_fit-kept : (n : ℕ) → IsKept n → settle_fit sizes budget r n ≡ n
  unfolding settle_fit
  settle_fit-kept zero k = refl
  settle_fit-kept (suc n) (inl e) = absurd (omega (arith, e))
  settle_fit-kept (suc n) (inr f) = rw (f) refl

  kept_groups : Monotone → Found (fit_sync_groups sizes budget r)
  unfolding fit_sync_groups
  kept_groups mono =
      let n = length r.missed in
      let found =
        search_fit-Found n 0 n mono (omega arith) (omega arith) (omega arith) (inl refl)
          λ k lt le. absurd (omega (arith, lt, le)) in
      rw (settle_fit-kept (search_fit sizes budget n r 0 n) found.1) found

  -- `n` groups are the longest beginning that fits.
  abbrev pub IsLongest : ℕ → Type 0
  IsLongest n = (0 < n) × (n ≤ length r.missed) × (fits n ≡ true) × NoneAbove n

  clip_some :
      (n : ℕ)
      → fit_sync_groups sizes budget r ≡ n
      → length r.missed ≢ 0
      → n ≢ 0
      → fits n ≡ true
      → clip_sync_reply sizes budget r ≡ some (sync_candidate r n)
  unfolding clip_sync_reply
  clip_some n e l p f = rw (==_ne (length r.missed) 0 l) (rw (e) (rw (==_ne n 0 p, f) refl))

  clip_none :
      fit_sync_groups sizes budget r ≡ 0
      → length r.missed ≢ 0
      → clip_sync_reply sizes budget r ≡ none
  unfolding clip_sync_reply
  clip_none e l = rw (==_ne (length r.missed) 0 l) (rw (e) refl)

  -- A reply that has groups, and of which fewer groups take no more room, is cut to the longest
  -- beginning of its groups that fits the budget in both encodings, with the point to go on from;
  -- where not even the first group fits, and only there, it is refused.
  pub clip_sync_reply-IsLongest :
      Monotone
      → length r.missed ≢ 0
      → ((n : ℕ) × IsLongest n × (clip_sync_reply sizes budget r ≡ some (sync_candidate r n)))
        ⊎ ((clip_sync_reply sizes budget r ≡ none) × (fits 1 ≡ false))
  clip_sync_reply-IsLongest mono l =
      let n = fit_sync_groups sizes budget r in
      let found = kept_groups mono in
      elim (Bool-cases (n == 0)) [
        | inl t ↦
            let z : n ≡ 0 = (nat_beq_iff n 0).0 t in
            inr (clip_none z l, found.2 1 (omega (arith, z)) (omega (arith, l)))
        | inr f ↦
            let p : n ≢ 0 = λ e. ground (arith, f, e) in
            elim found.1 [
              | inl e ↦ absurd (p e)
              | inr y ↦ inl (n, (omega (arith, p), found.0, y, found.2), clip_some n refl l p y)
            ]
      ]
