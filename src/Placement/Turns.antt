-- ===== src/Placement/Turns.antt =====
-- The rotation of `next` of placement.go.
use atlas_game_layout.Common.{
  ℕ, zero, suc, ◌+◌, ◌*◌, ◌%◌, ◌^◌, ◌≤◌, ◌<◌, List, [], ◌∷◌, ◌≡◌, refl, ap, ◌∙◌, ltb, leb, ◌==◌,
  times, nat_key, string_key, if◌then◌else◌, arith,
}
use native.Mathlib.Nat.{add-mod_right, mod-eq_of_lt}
use atlas_game_layout.Placement.Plans.{Planner, next}

-- The indices of `k` matches in a row that find `n` candidates.
abbrev pub picks : Planner → ℕ → ℕ → List ℕ
picks p n zero = []
picks p n (suc k) = let (p', i) = next p n in i ∷ picks p' n k

-- The cursor without its wrap-around.
abbrev indices : ℕ → ℕ → ℕ → List ℕ
indices n t zero = []
indices n t (suc k) = t % n ∷ indices n (suc t) k

module _ (n j : ℕ) where
  abbrev count : ℕ → ℕ → ℕ
  count t k = times j (indices n t k)

  abbrev one : ℕ → ℕ
  one i = if i == j then 1 else 0

  one-ap : (a b : ℕ) → a ≡ b → one (a % n) ≡ one (b % n)
  one-ap a b e = ap (λ x. one (x % n)) e

  -- The last index of a row, counted apart.
  count-suc : (t k : ℕ) → count t (suc k) ≡ count t k + one ((t + k) % n)
  count-suc t zero = omega (arith, one-ap t (t + 0) (omega arith))
  count-suc t (suc k) =
      omega (arith, count-suc (suc t) k, one-ap (suc t + k) (t + suc k) (omega arith))

  -- A round may start at any turn.
  count-shift : (t : ℕ) → count (suc t) n ≡ count t n
  count-shift t = omega (arith, count-suc t n, ap one (add-mod_right t n))

  in_first_round :
      (t k : ℕ) → t + k ≤ n → count t k ≡ (if leb t j then (if ltb j (t + k) then 1 else 0) else 0)
  in_first_round t zero le = ground arith
  in_first_round t (suc k) le =
      let lt : t < n = omega (arith, le) in
      ground (arith, in_first_round (suc t) k (omega (arith, le)), mod-eq_of_lt lt)

  count_round : (t : ℕ) → j < n → count t n ≡ 1
  count_round zero lt = ground (arith, lt, in_first_round 0 n (omega arith))
  count_round (suc t) lt = omega (arith, count-shift t, count_round t lt)

  count-ap : (t k l : ℕ) → k ≡ l → count t k ≡ count t l
  count-ap t k l e = ap (λ x. count t x) e

  count-append : (t a b : ℕ) → count t (a + b) ≡ count t a + count (t + a) b
  count-append t a zero = omega (arith, count-ap t (a + 0) a (omega arith))
  count-append t a (suc b) = omega (
    arith,
    count-ap t (a + suc b) (suc (a + b)) (omega arith),
    count-suc t (a + b),
    count-append t a b,
    count-suc (t + a) b,
    one-ap (t + (a + b)) (t + a + b) (omega arith),
  )

  count_rounds : (t m : ℕ) → j < n → count t (m * n) ≡ m
  count_rounds t zero lt = omega (arith, count-ap t (0 * n) 0 (omega arith))
  count_rounds t (suc m) lt = omega (
    arith,
    count-ap t (suc m * n) (n + m * n) (omega arith),
    count-append t n (m * n),
    count_round t lt,
    count_rounds (t + n) m lt,
  )

  -- The cursor does not wrap around.
  picks_lem : (p : Planner) (k : ℕ) → p.turn + k < 2 ^ 64 → times j (picks p n k) ≡ count p.turn k
  unfolding next
  picks_lem p zero le = refl
  picks_lem p (suc k) le =
      let p' = (next p n).0 in
      let e : p'.turn ≡ suc p.turn = omega (arith, le) in
      omega (arith, picks_lem p' k (omega (arith, e, le)), ap (λ x. count x k) e)

-- In `m` rounds of matches that find the same `n` candidates, each candidate has its turn exactly
-- `m` times, wherever the rotation stands, as long as its cursor does not wrap around.
pub picks_fair :
    (p : Planner) (n m j : ℕ) → j < n → p.turn + m * n < 2 ^ 64 → times j (picks p n (m * n)) ≡ m
picks_fair p n m j lt bound = picks_lem n j p (m * n) bound ∙ count_rounds n j p.turn m lt
