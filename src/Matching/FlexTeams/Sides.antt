-- ===== src/Matching/FlexTeams/Sides.antt =====
-- The search for a side, `pickSide` and `dfsSide`.
use atlas_game_layout.Common.{
  ℕ, ◌-◌, ◌≤◌, ◌<◌, Bool, true, false, List, [], ◌∷◌, Option, none, some, ◌≡◌, ◌⊎◌, refl, sym,
  subst, if_elim, length, ◌==◌, nat_key, string_key, ltb, is_some, if◌then◌else◌, arith, inl, inr,
}
use atlas_game_layout.Ticket.{Ticket, size}
use atlas_game_layout.Matching.FlexTeams.{dfs_side, pick_side, total_players}

-- The first list is some of the second, in its order.
pub data Picks {ℓ} {A : Type ℓ} : List A → List A → Type ℓ where
  none_left : Picks [] []
  takes : {side ts : List A} (t : A) → Picks side ts → Picks (t ∷ side) (t ∷ ts)
  leaves : {side ts : List A} (t : A) → Picks side ts → Picks side (t ∷ ts)

Picks-nil {ℓ} : {A : Type ℓ} (ts : List A) → Picks [] ts
Picks-nil [] = none_left
Picks-nil (t ∷ ts) = leaves t (Picks-nil ts)

-- A side for n players out of the tickets; where nothing was taken before, it has a ticket.
abbrev pub IsSide : Bool → ℕ → List Ticket → List Ticket → Type 0
IsSide started n ts side =
    Picks side ts × (total_players side ≡ n) × ((started ≡ true) ⊎ (0 < length side))

abbrev Sound : Bool → ℕ → List Ticket → Option (List Ticket) → Type 0
Sound started n ts none = Unit
Sound started n ts (some side) = IsSide started n ts side

Sound-leaves :
    (started : Bool) (n : ℕ) (t : Ticket) (rest : List Ticket) (o : Option (List Ticket))
    → Sound started n rest o
    → Sound started n (t ∷ rest) o
Sound-leaves started n t rest none s = tt
Sound-leaves started n t rest (some side) (p, total, some_ticket) = (leaves t p, total, some_ticket)

Sound-takes :
    (started : Bool) (n : ℕ) (t : Ticket) (rest : List Ticket) (taken skip : Option (List Ticket))
    → size t ≤ n
    → Sound true (n - size t) rest taken
    → Sound started n (t ∷ rest) skip
    → Sound started n (t ∷ rest) (elim taken [ none ↦ skip | some side ↦ some (t ∷ side) ])
unfolding total_players
Sound-takes started n t rest none skip fits s k = k
Sound-takes started n t rest (some side) skip fits (p, total, _) k =
    (takes t p, omega (arith, total), inr (omega arith))

Sound-done :
    (started : Bool) (n : ℕ) (ts : List Ticket)
    → n ≡ 0
    → Sound started n ts (if started then some [] else none)
unfolding total_players
Sound-done true n ts e = (Picks-nil ts, sym e, inl refl)
Sound-done false n ts e = tt

-- A side that the search finds is a side.
dfs_side-Sound :
    (started : Bool) (n : ℕ) (ts : List Ticket) → Sound started n ts (dfs_side started n ts)
unfolding dfs_side
dfs_side-Sound started n [] =
    if_elim (Sound started n []) (n == 0) (λ e. Sound-done started n [] (ground arith)) (λ _. tt)
dfs_side-Sound started n (t ∷ rest) =
    let skipped =
      Sound-leaves started n t rest (dfs_side started n rest) (dfs_side-Sound started n rest) in
    if_elim (Sound started n (t ∷ rest)) (n == 0)
      (λ e. Sound-done started n (t ∷ rest) (ground arith))
      λ _.
        if_elim (Sound started n (t ∷ rest)) (ltb n (size t)) (λ _. skipped)
          λ fits.
            Sound-takes started n t rest (dfs_side true (n - size t) rest) (dfs_side started n rest)
              (ground arith) (dfs_side-Sound true (n - size t) rest) skipped

dfs_side_complete :
    (started : Bool) (n : ℕ) {side ts : List Ticket}
    → Picks side ts
    → total_players side ≡ n
    → (started ≡ true) ⊎ (0 < n)
    → is_some (dfs_side started n ts) ≡ true
unfolding dfs_side total_players
dfs_side_complete started n none_left total may = ground arith
dfs_side_complete started n (takes {side = side} {ts = rest} t p) total may =
    ground (arith, dfs_side_complete true (n - size t) p (omega (arith, total)) (inl refl))
dfs_side_complete started n (leaves {ts = rest} t p) total may =
    ground (arith, dfs_side_complete started n p total may)

-- For a positive number of players the search finds a side exactly where the tickets have one;
-- what it finds is some of the tickets in their order, at least one, for exactly that many players.
pub pick_side_lem :
    (ts : List Ticket) (n : ℕ)
    → 0 < n
    → ((side : List Ticket) → pick_side ts n ≡ some side → IsSide false n ts side)
      × ((side : List Ticket)
          → Picks side ts
          → total_players side ≡ n
          → is_some (pick_side ts n) ≡ true)
unfolding pick_side dfs_side
pick_side_lem [] n h =
    ((λ side e. cc), (λ side p total. ground (arith, dfs_side_complete false n p total (inr h))))
pick_side_lem (t ∷ ts) n h = (
  (λ side e. subst (Sound false n (t ∷ ts)) e (dfs_side-Sound false n (t ∷ ts))),
  (λ side p total. dfs_side_complete false n p total (inr h)),
)
