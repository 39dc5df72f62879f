-- ===== src/Battle/Roster/Promises.antt =====
-- What holds over every run of the messages of services/battle/internal/actor.
use atlas_game_layout.Common.{
  ℕ, ◌+◌, String, Bool, true, false, List, [], ◌∷◌, ◌≡◌, refl, ◌∙◌, ap, arith, ◌==◌, string_key,
  str_iff, All, Bool-cases, inl, inr,
}
use atlas_game_layout.Battle.{Battle, Config, World, has}
use atlas_game_layout.Battle.Quiet.{Final, finals}
use atlas_game_layout.Battle.Messages.{Message, Ports, handle, run}
use atlas_game_layout.Battle.Roster.{
  View, view, Change, idles, enlists, marks, clears, drops, wins, ends,
}
use atlas_game_layout.Battle.Roster.Steps.{IsNamed}
use atlas_game_layout.Battle.Roster.Runs.{handle-Good}

-- A sequence of changes, each with those that were online in the meantime.
pub data Trace : List (String → Bool) → View → View → Type 0 where
  here : (v : View) → Trace [] v v
  then_on :
      (online : String → Bool) (rest : List (String → Bool)) (u v w : View)
      → Change online u v
      → Trace rest v w
      → Trace (online ∷ rest) u w

abbrev pub onlines : List (World × Message) → List (String → Bool)
onlines [] = []
onlines ((w, m) ∷ ms) = w.online ∷ onlines ms

abbrev pub flag : Bool → ℕ
flag true = 1
flag false = 0

abbrev Balanced : Final → View → View → Type 0
Balanced k v v' = v'.made k + flag v.over ≡ v.made k + flag v'.over

Change-Balanced :
    (k : Final) (online : String → Bool) (v v' : View) → Change online v v' → Balanced k v v'
Change-Balanced k online v v' (idles l a g) = cc (g.0, g.1 k)
Change-Balanced k online v v' (enlists l a g) = cc (g.0, g.1 k)
Change-Balanced k online v v' (marks p o l n s m g) = cc (g.0, g.1 k)
Change-Balanced k online v v' (clears p l a g) = cc (g.0, g.1 k)
Change-Balanced k online v v' (drops p i o l a g) = cc (g.0, g.1 k)
Change-Balanced k online v v' (wins p w i o l a e) = rw (e.0, e.1, e.2 k) (omega arith)
Change-Balanced k online v v' (ends w l a e) = rw (e.0, e.1, e.2 k) (omega arith)

Trace-Balanced :
    (k : Final) (os : List (String → Bool)) (v v' : View) → Trace os v v' → Balanced k v v'
Trace-Balanced k os v v' (here u) = refl
Trace-Balanced k os v v' (then_on o rest u x w c t) =
    omega (arith, Change-Balanced k o u x c, Trace-Balanced k rest x w t)

Change-listed :
    (p : String) (online : String → Bool) (v v' : View)
    → online p ≡ true
    → Change online v v'
    → v.listed p ≡ true
    → v'.listed p ≡ true
Change-listed p online v v' h (idles l a g) m = l p ∙ m
Change-listed p online v v' h (enlists l a g) m = l p m
Change-listed p online v v' h (marks q o l n s x g) m = s p ∙ m
Change-listed p online v v' h (clears q l a g) m = l p ∙ m
Change-listed p online v v' h (drops q i o l a g) m = elim (Bool-cases (q == p)) [
  | inl t ↦ absurd (ground (arith, str_iff q p, t, ap online ((str_iff q p).0 t), i.3, h))
  | inr f ↦ ground (arith, l p, f, m)
]
Change-listed p online v v' h (wins q w i o l a e) m = l p ∙ m
Change-listed p online v v' h (ends w l a e) m = l p ∙ m

Trace-listed :
    (p : String) (os : List (String → Bool)) (v v' : View)
    → All (λ o. o p ≡ true) os
    → Trace os v v'
    → v.listed p ≡ true
    → v'.listed p ≡ true
Trace-listed p os v v' h (here u) m = m
Trace-listed p os v v' h (then_on o rest u x w c t) m =
    Trace-listed p rest x w h.1 t (Change-listed p o u x h.0 c m)

module _ (ports : Ports) (cfg : Config) where
  run_step :
      (ms : List (World × Message)) (b : Battle)
      → IsNamed b
      → Trace (onlines ms) (view b) (view (run ports cfg ms b)) × IsNamed (run ports cfg ms b)
  unfolding run
  run_step [] b n = (here (view b), n)
  run_step ((w, m) ∷ ms) b n =
      let next = handle-Good ports cfg w m b n in
      let c = handle ports cfg w m b in
      let rest = run_step ms c next.1 in
      (
        then_on w.online (onlines ms) (view b) (view c) (view (run ports cfg ms c)) next.0 rest.0,
        rest.1,
      )

  -- A run of messages, from a battle whose roster holds no name twice and no empty name, refines a
  -- run of the abstract battle, which knows only the roster, the marks, the end, the number of
  -- final messages and whom they name as the winner: every message is one abstract change, made
  -- while those players were online that the message found online. In such a change a player leaves
  -- the roster only where he is marked as away, not online and the battle is not over; where exactly
  -- one other player is left, the battle ends instead, that one is the only player whom the saved
  -- result and the settlement event count as the winner, and each player of the roster is told of
  -- him, and of nobody else, as the winner. So it is with the winner of every other end, if he is on
  -- the roster; without an end no such result, event or notice is added.
  pub run-Trace :
      (ms : List (World × Message)) (b : Battle)
      → IsNamed b
      → Trace (onlines ms) (view b) (view (run ports cfg ms b))
  run-Trace ms b n = (run_step ms b n).0

  -- A run of messages, from a battle whose roster holds no name twice and no empty name, sends each
  -- of the final messages (the saved result, the settlement event, the closing of the connections,
  -- the stop of the actor) once if the battle becomes settled in it, and never otherwise.
  pub finals-run :
      (k : Final) (ms : List (World × Message)) (b : Battle)
      → IsNamed b
      → finals k (run ports cfg ms b).sent + flag b.settled
        ≡ finals k b.sent + flag (run ports cfg ms b).settled
  unfolding view
  finals-run k ms b n =
      Trace-Balanced k (onlines ms) (view b) (view (run ports cfg ms b)) (run-Trace ms b n)

  -- A player of the roster who is online at every message of a run stays on the roster, from a
  -- battle whose roster holds no name twice and no empty name.
  pub run-has :
      (p : String) (ms : List (World × Message)) (b : Battle)
      → IsNamed b
      → All (λ online. online p ≡ true) (onlines ms)
      → has p b.players ≡ true
      → has p (run ports cfg ms b).players ≡ true
  unfolding view
  run-has p ms b n h m =
      Trace-listed p (onlines ms) (view b) (view (run ports cfg ms b)) h (run-Trace ms b n) m
