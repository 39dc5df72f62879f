-- ===== src/Simulator.antt =====
-- The race of services/battle/internal/biz/simulator/simulator.go. Positions and scores are
-- `int32`, so the sum wraps around; a map is ranged over in the order of its list. The JSON codec
-- of a snapshot is a parameter where one is written or read.
pub mod Hash
use atlas_game_layout.Common.{
  ℕ, String, Bool, true, false, not, ◌&&◌, List, [], ◌∷◌, Option, none, some, Map, lookup, insert,
  ltb, ◌==◌, string_key, Bytes, if◌then◌else◌,
}
use atlas_game_layout.Common.Int.{ℤ, pos, negsuc, ◌+ℤ◌, ltb_ℤ, wrap}

-- An input of the lockstep session, as the simulator is given it.
pub record Input : Type 0 where
  pub frame : ℕ
  pub player : String
  pub payload : Bytes

-- `State`.
pub record State : Type 0 where
  pub positions : Map String ℤ
  pub scores : Map String ℤ
  pub winner : String

-- `Battle` of the package.
pub record Race : Type 0 where
  pub track_len : ℤ
  pub max_frames : ℕ
  pub positions : Map String ℤ
  pub scores : Map String ℤ
  pub winner : String
  pub frame : ℕ

-- `New`.
unfoldable pub new_race : ℤ → ℕ → Race
new_race track_len max_frames = record {
  track_len = track_len;
  max_frames = max_frames;
  positions = [];
  scores = [];
  winner = "";
  frame = 0;
}

-- `m[p]`: 0 where there is none.
abbrev pub value : Option ℤ → ℤ
value none = pos 0
value (some n) = n

abbrev pub eq_ℤ : ℤ → ℤ → Bool
eq_ℤ a b = not (ltb_ℤ a b) && not (ltb_ℤ b a)

abbrev pub advanced : ℤ → Bytes → ℤ
advanced at [] = at
advanced at (n ∷ payload) = wrap 32 (at +ℤ pos n)

-- The new position that one input gives its player.
unfoldable pub moved : Race → Input → ℤ
moved r i =
    let at = advanced (value (lookup i.player r.positions)) i.payload in
    if ltb_ℤ r.track_len at then r.track_len else at

-- One turn of the first loop of `Step`.
unfoldable pub apply_input : Race → Input → Race
unfolding moved
apply_input r i =
    let at = moved r i in
    let placed = record r { positions = insert i.player at r.positions } in
    if not (ltb_ℤ at r.track_len) && eq_ℤ (value (lookup i.player r.scores)) (pos 0)
    then record placed { scores = insert i.player (pos 1) r.scores; winner = i.player }
    else placed

unfoldable pub apply_inputs : Race → List Input → Race
apply_inputs r [] = r
apply_inputs r (i ∷ is) = apply_inputs (apply_input r i) is

-- What the second loop of `Step` keeps: the first of the leaders and whether there is a tie.
pub record Lead : Type 0 where
  pub best : String
  pub best_pos : ℤ
  pub tie : Bool

unfoldable pub lead_step : Lead → String → ℤ → Lead
lead_step l p at =
    if ltb_ℤ l.best_pos at
    then record { best = p; best_pos = at; tie = false }
    else if eq_ℤ at l.best_pos
    then record l { tie = true }
    else l

unfoldable pub lead : Map String ℤ → Lead → Lead
lead [] l = l
lead ((p, at) ∷ ps) l = lead ps (lead_step l p at)

abbrev pub no_lead : Lead
no_lead = record { best = ""; best_pos = negsuc 0; tie = false }

-- The end of `Step`, where the frames have run out.
unfoldable pub decide : Race → Race
unfolding lead lead_step
decide r =
    let l = lead r.positions no_lead in
    if not l.tie && not (l.best == "") then record r { winner = l.best } else r

-- `Step`.
unfoldable pub step : Race → ℕ → List Input → Race
unfolding apply_inputs decide
step r frame inputs =
    let at = record r { frame = frame } in
    if not (r.winner == "")
    then at
    else let next = apply_inputs at inputs in
      if (next.winner == "") && not (ltb frame next.max_frames) then decide next else next

-- The state that `Snapshot` writes.
unfoldable pub snapshot_state : Race → State
snapshot_state r = record { positions = r.positions; scores = r.scores; winner = r.winner }

-- `Restore`, of a state that was read.
unfoldable pub restore : Race → State → Race
restore r st = record r { positions = st.positions; scores = st.scores; winner = st.winner }

-- `Score`.
unfoldable pub score : Race → String → ℤ
score r p = value (lookup p r.scores)
