-- ===== src/Battle/Roster.antt =====
-- What a battle promises its players, apart from timers, the seat window and the messages of
-- services/battle/internal/actor: who is on the roster, who is marked as away, and the end.
pub mod Steps
pub mod Names
pub mod Runs
pub mod Promises
use atlas_game_layout.Common.{
  ℕ, ◌+◌, suc, nat_key, String, Bool, true, false, ◌≡◌, refl, ◌∙◌, ap, if◌then◌else◌, ◌==◌,
  string_key, List, [], ◌∷◌,
}
use atlas_game_layout.Battle.{Battle, has}
use atlas_game_layout.Battle.Quiet.{Final, finals, Quiet}
use atlas_game_layout.Battle.Notices.{Notice, said, named, about}
use atlas_game_layout.Battle.LastStanding.{IsLast}

pub record View : Type 0 where
  pub listed : String → Bool
  pub away : String → Bool
  pub over : Bool
  -- How many final messages of each kind were sent.
  pub made : Final → ℕ
  -- How often a player was named as the winner, in what was saved and in what was sent.
  pub named_in : Notice → ℕ

unfoldable pub view : Battle → View
view b = record {
  listed = λ p. has p b.players;
  away = λ p. has p b.offline;
  over = b.settled;
  made = λ k. finals k b.sent;
  named_in = λ n. said n b.sent;
}

abbrev pub Same : (String → Bool) → (String → Bool) → Type 0
Same f g = (q : String) → g q ≡ f q

abbrev pub Plus : String → (String → Bool) → (String → Bool) → Type 0
Plus p f g = (q : String) → g q ≡ (if p == q then true else f q)

abbrev pub Minus : String → (String → Bool) → (String → Bool) → Type 0
Minus p f g = (q : String) → g q ≡ (if p == q then false else f q)

-- The battle goes on as it was.
abbrev pub GoesOn : View → View → Type 0
GoesOn v v' =
    (v'.over ≡ v.over)
    × ((k : Final) → v'.made k ≡ v.made k)
    × ((n : Notice) → v'.named_in n ≡ v.named_in n)

-- Once if the notice names the winner and is about a player on the roster.
abbrev pub once : String → (String → Bool) → Notice → ℕ
once winner listed n = if winner == named n then (if listed (about n) then 1 else 0) else 0

-- The battle ends here, and every final message is sent once: the saved result and the settlement
-- event count the winner as the one who won, if he is on the roster, and nobody else; and each
-- player of the roster is told once of the winner, and of nobody else.
abbrev pub Ends : String → View → View → Type 0
Ends winner v v' =
    (v.over ≡ false)
    × (v'.over ≡ true)
    × ((k : Final) → v'.made k ≡ suc (v.made k))
    × ((n : Notice) → v'.named_in n ≡ once winner v.listed n + v.named_in n)

-- A player who is on the roster, away and not connected, of a battle that is not over.
abbrev pub IsLost : (String → Bool) → View → String → Type 0
IsLost online v p = (v.over ≡ false) × (v.listed p ≡ true) × (v.away p ≡ true) × (online p ≡ false)

-- One message, for those that are online in the meantime.
pub data Change (online : String → Bool) (v v' : View) : Type 0 where
  idles : Same v.listed v'.listed → Same v.away v'.away → GoesOn v v' → Change online v v'
  enlists :
      ((q : String) → v.listed q ≡ true → v'.listed q ≡ true)
      → Same v.away v'.away
      → GoesOn v v'
      → Change online v v'
  marks :
      (p : String)
      → v.over ≡ false
      → v.listed p ≡ true
      → online p ≡ false
      → Same v.listed v'.listed
      → Plus p v.away v'.away
      → GoesOn v v'
      → Change online v v'
  clears :
      (p : String)
      → Same v.listed v'.listed
      → Minus p v.away v'.away
      → GoesOn v v'
      → Change online v v'
  drops :
      (p : String)
      → IsLost online v p
      → ((w : String) → IsLast v.listed p w → ⊥)
      → Minus p v.listed v'.listed
      → Minus p v.away v'.away
      → GoesOn v v'
      → Change online v v'
  wins :
      (p w : String)
      → IsLost online v p
      → IsLast v.listed p w
      → Same v.listed v'.listed
      → Minus p v.away v'.away
      → Ends w v v'
      → Change online v v'
  ends :
      (w : String)
      → Same v.listed v'.listed
      → Same v.away v'.away
      → Ends w v v'
      → Change online v v'
