-- ===== src/Matching/LevelClose/Pairs.antt =====
-- The pair that level_close.go picks.
use atlas_game_layout.Common.{
  true, false, List, [], ◌∷◌, ◌++◌, none, some, ◌≡◌, ◌⊎◌, inl, inr, refl, All, All-append, ap,
  subst, arith, Bool-cases,
}
use atlas_game_layout.Common.Int.{ℤ}
use atlas_game_layout.Ticket.{Ticket}
use atlas_game_layout.Matching.LevelClose.{close_enough, partner, first_pair, pair_match, run}

-- No ticket of the list is close enough to the given one.
abbrev pub Alone : ℤ → Ticket → List Ticket → Type 0
Alone max_gap a = All (λ b. close_enough max_gap a b ≡ false)

-- No ticket of the first list is close enough to one behind it, there or in the second list.
abbrev pub NoPair : ℤ → List Ticket → List Ticket → Type 0
NoPair max_gap [] later = Unit
NoPair max_gap (a ∷ rest) later = Alone max_gap a (rest ++ later) × NoPair max_gap rest later

-- The first pair of the tickets, in the order of the first ticket and then of the second.
pub record IsFirstPair (max_gap : ℤ) (ts : List Ticket) (a b : Ticket) : Type 0 where
  pub front : List Ticket
  pub between : List Ticket
  pub behind : List Ticket
  pub split : ts ≡ front ++ (a ∷ between ++ (b ∷ behind))
  pub close : close_enough max_gap a b ≡ true
  pub none_in_front : NoPair max_gap front (a ∷ between ++ (b ∷ behind))
  pub none_between : Alone max_gap a between

partner-cases :
    (max_gap : ℤ) (a : Ticket) (bs : List Ticket)
    → ((partner max_gap a bs ≡ none) × Alone max_gap a bs)
      ⊎ ((b : Ticket) × (between : List Ticket) × (behind : List Ticket) × (partner max_gap a bs
            ≡ some b)
          × (bs ≡ between ++ (b ∷ behind))
          × (close_enough max_gap a b ≡ true)
          × Alone max_gap a between)
unfolding partner
partner-cases max_gap a [] = inl (refl, tt)
partner-cases max_gap a (b ∷ bs) = elim (Bool-cases (close_enough max_gap a b)) [
  | inl e ↦ inr (b, [], bs, ground arith, refl, e, tt)
  | inr e ↦ elim (partner-cases max_gap a bs) [
    | inl (missing, alone) ↦ inl (ground arith, (e, alone))
    | inr (c, between, behind, found, split, close, alone) ↦
        inr (c, b ∷ between, behind, ground arith, ap (λ xs. b ∷ xs) split, close, (e, alone))
  ]
]

first_pair-cases :
    (max_gap : ℤ) (ts : List Ticket)
    → ((first_pair max_gap ts ≡ none) × NoPair max_gap ts [])
      ⊎ ((a : Ticket) × (b : Ticket) × (first_pair max_gap ts ≡ some (a, b))
          × IsFirstPair max_gap ts a b)
unfolding first_pair
first_pair-cases max_gap [] = inl (refl, tt)
first_pair-cases max_gap (t ∷ ts) = elim (partner-cases max_gap t ts) [
  | inr (b, between, behind, found, split, close, alone) ↦ inr (
    t,
    b,
    ground arith,
    record {
      front = [];
      between = between;
      behind = behind;
      split = ap (λ xs. t ∷ xs) split;
      close = close;
      none_in_front = tt;
      none_between = alone;
    },
  )
  | inl (missing, alone) ↦ elim (first_pair-cases max_gap ts) [
    | inl (stop, apart) ↦
        inl
          (ground arith, (All-append (λ b. close_enough max_gap t b ≡ false) ts [] alone tt, apart))
    | inr (a, b, found, is) ↦ inr (
      a,
      b,
      ground arith,
      record {
        front = t ∷ is.front;
        between = is.between;
        behind = is.behind;
        split = ap (λ xs. t ∷ xs) is.split;
        close = is.close;
        none_in_front = (subst (Alone max_gap t) is.split alone, is.none_in_front);
        none_between = is.none_between;
      },
    )
  ]
]

-- The round pairs the first two tickets that are close enough, in the order of the first ticket
-- and then of the second, in one match of which they are the sides; and it gives no match only
-- where no two tickets are close enough.
pub run-IsFirstPair :
    (max_gap : ℤ) (ts : List Ticket)
    → ((run max_gap ts ≡ []) × NoPair max_gap ts [])
      ⊎ ((a : Ticket) × (b : Ticket) × (run max_gap ts ≡ pair_match a b ∷ [])
          × IsFirstPair max_gap ts a b)
unfolding run
run-IsFirstPair max_gap ts = elim (first_pair-cases max_gap ts) [
  | inl (stop, apart) ↦ inl (ground arith, apart)
  | inr (a, b, found, is) ↦ inr (a, b, ground arith, is)
]
