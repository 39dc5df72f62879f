-- ===== src/Matching/FlexTeams/Form.antt =====
-- One match, `formOne` and `exclude` of flex_teams.go.
use atlas_game_layout.Common.{
  ℕ, zero, suc, ◌+◌, ◌≤◌, ◌<◌, String, true, false, not, List, [], ◌∷◌, ◌++◌, none, some, ◌≡◌, ◌⊎◌,
  refl, keep, length, member, All, ◌==◌, string_key, str_iff, if◌then◌else◌, arith, Option-cases,
  inl, inr,
}
use native.Mathlib.Decide.{dec_le}
use atlas_game_layout.Common.Int.{ltb_ℤ}
use atlas_game_layout.Ticket.{Ticket, side_level, abs_diff}
use atlas_game_layout.Matching.FlexTeams.{
  FlexTeams, Formed, pick_side, ids, exclude, try_size, form_from, form_one, max_size,
}
use atlas_game_layout.Matching.FlexTeams.Sides.{
  Picks, none_left, takes, leaves, IsSide, pick_side_lem,
}

-- How many tickets have an id.
unfoldable pub count : String → List Ticket → ℕ
count q [] = 0
count q (t ∷ ts) = let rest = count q ts in if t.id == q then suc rest else rest

pub count-append : (q : String) (xs ys : List Ticket) → count q (xs ++ ys) ≡ count q xs + count q ys
unfolding count
count-append q [] ys = omega arith
count-append q (x ∷ xs) ys = ground (arith, count-append q xs ys)

count-Picks : (q : String) {side ts : List Ticket} → Picks side ts → count q side ≤ count q ts
unfolding count
count-Picks q none_left = omega arith
count-Picks q (takes t p) = ground (arith, count-Picks q p)
count-Picks q (leaves t p) = ground (arith, count-Picks q p)

member-count : (q : String) (ts : List Ticket) → member q (ids ts) ≡ false → count q ts ≡ 0
unfolding count
member-count q [] h = refl
member-count q (t ∷ ts) h = ground (arith, member-count q ts)

count-exclude :
    (q : String) (ts side : List Ticket)
    → count q (exclude ts side) ≡ (if member q (ids side) then 0 else count q ts)
unfolding count exclude
count-exclude q [] side = ground arith
count-exclude q (t ∷ ts) side = ground (arith, str_iff t.id q, count-exclude q ts side)

-- No ticket is in the side and in the rest too.
pub count-split :
    (q : String) {side ts : List Ticket}
    → Picks side ts
    → count q side + count q (exclude ts side) ≤ count q ts
count-split q {side} {ts} p =
    ground (arith, count-exclude q ts side, count-Picks q p, member-count q side)

All-member :
    (sup : List String) (x : String) (ts : List Ticket)
    → All (λ t. member t.id sup ≡ true) ts
    → All (λ t. member t.id (x ∷ sup) ≡ true) ts
All-member sup x [] h = tt
All-member sup x (t ∷ ts) h = (ground (arith, h.0), All-member sup x ts h.1)

All-ids : (ts : List Ticket) → All (λ t. member t.id (ids ts) ≡ true) ts
All-ids [] = tt
All-ids (t ∷ ts) = (ground (arith, str_iff t.id t.id), All-member (ids ts) t.id ts (All-ids ts))

length-keep :
    (sup : List String) {side ts : List Ticket}
    → Picks side ts
    → All (λ t. member t.id sup ≡ true) side
    → length (keep (λ t. not (member t.id sup)) ts) + length side ≤ length ts
length-keep sup none_left h = omega arith
length-keep sup (takes t p) h = ground (arith, length-keep sup p h.1)
length-keep sup (leaves t p) h = ground (arith, length-keep sup p h)

pub length-exclude :
    {side ts : List Ticket} → Picks side ts → length (exclude ts side) + length side ≤ length ts
unfolding exclude
length-exclude {side} p = length-keep (ids side) p (All-ids side)

-- A match out of the tickets with n players on each side: the sides are apart, and near enough in
-- level; the rest is what is in neither.
pub record IsFormed (f : FlexTeams) (ts : List Ticket) (n : ℕ) (m : Formed) : Type 0 where
  pub first : IsSide false n ts m.side_a
  pub second : IsSide false n (exclude ts m.side_a) m.side_b
  pub near : ltb_ℤ f.max_gap (abs_diff (side_level m.side_a n) (side_level m.side_b n)) ≡ false
  pub left : m.rest ≡ exclude (exclude ts m.side_a) m.side_b

try_size-IsFormed :
    (f : FlexTeams) (ts : List Ticket) (n : ℕ) (m : Formed)
    → 0 < n
    → try_size f ts n ≡ some m
    → IsFormed f ts n m
unfolding try_size
try_size-IsFormed f ts n m h e = elim (Option-cases (pick_side ts n)) [
  | inl no_a ↦ absurd (ground arith)
  | inr (a, at_a) ↦ elim (Option-cases (pick_side (exclude ts a) n)) [
    | inl no_b ↦ absurd (ground arith)
    | inr (b, at_b) ↦
        let side_a : m.side_a ≡ a = ground arith in
        let side_b : m.side_b ≡ b = ground arith in
        record {
          first = rw side_a ((pick_side_lem ts n h).0 a at_a);
          second = rw (side_a, side_b) ((pick_side_lem (exclude ts a) n h).0 b at_b);
          near = ground arith;
          left = rw (side_a, side_b) (ground arith);
        }
  ]
]

-- The match that the loop stops at: the largest size at which a match is found.
pub record IsLargest (f : FlexTeams) (ts : List Ticket) (top n : ℕ) (m : Formed) : Type 0 where
  pub formed : IsFormed f ts n m
  pub positive : 0 < n
  pub within : n ≤ top
  pub above : (k : ℕ) → n < k → k ≤ top → try_size f ts k ≡ none

form_from-cases :
    (f : FlexTeams) (ts : List Ticket) (top : ℕ)
    → ((form_from f ts top ≡ none) × ((k : ℕ) → 0 < k → k ≤ top → try_size f ts k ≡ none))
      ⊎ ((n : ℕ) × (m : Formed) × (form_from f ts top ≡ some m) × IsLargest f ts top n m)
unfolding form_from
form_from-cases f ts zero = inl (refl, λ k p l. absurd (omega arith))
form_from-cases f ts (suc top) = elim (Option-cases (try_size f ts (suc top))) [
  | inr (m, e) ↦ inr (
    suc top,
    m,
    ground arith,
    record {
      formed = try_size-IsFormed f ts (suc top) m (omega arith) e;
      positive = omega arith;
      within = omega arith;
      above = λ k p l. absurd (omega arith);
    },
  )
  | inl e ↦ elim (form_from-cases f ts top) [
    | inl (stop, all) ↦ inl (ground arith, λ k p l. below top k e (all k p) l)
    | inr (n, m, found, is) ↦ inr (
      n,
      m,
      ground arith,
      record {
        formed = is.formed;
        positive = is.positive;
        within = omega (arith, is.within);
        above = λ k p l. below top k e (is.above k p) l;
      },
    )
  ]
]
  where
    below :
        (t k : ℕ)
        → try_size f ts (suc t) ≡ none
        → (k ≤ t → try_size f ts k ≡ none)
        → k ≤ suc t
        → try_size f ts k ≡ none
    below t k e h l = elim (dec_le k t) [
      | yes le ↦ h le
      | no gt ↦ let at : k ≡ suc t = omega arith in rw at e
    ]

-- `formOne` finds a match of the largest size, up to the limit, at which its search finds one;
-- where it finds none, its search finds none at any size.
pub form_one_lem :
    (f : FlexTeams) (ts : List Ticket)
    → ((form_one f ts ≡ none) × ((k : ℕ) → 0 < k → k ≤ max_size f ts → try_size f ts k ≡ none))
      ⊎ ((n : ℕ) × (m : Formed) × (form_one f ts ≡ some m) × IsLargest f ts (max_size f ts) n m)
unfolding form_one
form_one_lem f ts = form_from-cases f ts (max_size f ts)
