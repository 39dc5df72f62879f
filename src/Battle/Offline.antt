-- ===== src/Battle/Offline.antt =====
-- Players that lose their connection, battle_offline.go: marks, their timers, the way back and the
-- elimination.
use atlas_game_layout.Common.{
  ℕ, suc, String, not, List, [], ◌∷◌, Option, none, some, Map, lookup, insert, delete, ◌==◌,
  nat_key, string_key, if◌then◌else◌,
}
use atlas_game_layout.Common.Int.{pos, ltb_ℤ}
use atlas_game_layout.Battle.{
  Players, has, keys, Config, Event, offline_timeout, publish_out, World, Battle, tell_each, cancel,
  take_seat, release_seat, settle,
}

-- `clearOffline`.
unfoldable pub clear_offline : String → Battle → Battle
clear_offline p b = elim (lookup p b.offline) [
  | none ↦ b
  | some timer ↦ record b { offline = delete p b.offline; timers = cancel timer b.timers }
]

-- `armOffline`.
unfoldable pub arm_offline : Config → String → Battle → Battle
unfolding clear_offline
arm_offline cfg p b =
    let clear = clear_offline p b in
    if ltb_ℤ (pos 0) cfg.offline_timeout
    then record clear {
      offline = insert p (some clear.next_timer) clear.offline;
      next_timer = suc clear.next_timer;
      timers = insert clear.next_timer (offline_timeout p) clear.timers;
    }
    else record clear { offline = insert p none clear.offline }

-- `onPlayerOnline`.
unfoldable pub on_player_online : String → Battle → Battle
on_player_online p b =
    if not (has p b.players)
    then b
    else let seated = take_seat p b in
      if has p seated.offline then clear_offline p seated else seated

-- `onPlayerOffline`, of a battle that is not settled.
abbrev pub mark_away : Config → World → String → Battle → Battle
mark_away cfg w p b =
    let free = release_seat p b in
    if has p free.players
    then if has p free.offline
      then free
      else if w.online p
      then free
      else if free.migration
      then record free { offline = insert p none free.offline }
      else arm_offline cfg p free
    else free

-- `onPlayerOffline`.
unfoldable pub on_player_offline : Config → World → String → Battle → Battle
on_player_offline cfg w p b = if b.settled then b else mark_away cfg w p b

-- The loop of `lastStanding`; `rest` is the player found before, and empty where there is none.
unfoldable pub last_of : String → List String → String → Option String
last_of p [] rest = if rest == "" then none else some rest
last_of p (q ∷ qs) rest =
    let skip = last_of p qs rest in
    let found = last_of p qs q in if q == p then skip else if rest == "" then found else none

-- `lastStanding`.
unfoldable pub last_standing : Players → String → Option String
unfolding last_of
last_standing players p = last_of p (keys players) ""

-- `eliminate`.
unfoldable pub eliminate : Config → World → String → Battle → Battle
eliminate cfg w p b =
    let told = tell_each (λ q. publish_out q p) (keys b.players) b in
    elim (last_standing b.players p) [
      | some winner ↦
          settle cfg w (record { winner = winner; frames = b.last_frame; scores = [] })
            (clear_offline p told)
      | none ↦ clear_offline p (record told { players = delete p told.players })
    ]

-- `onOfflineTimeout`, of a battle that is not settled.
abbrev pub time_out : Config → World → String → Battle → Battle
time_out cfg w p b =
    if has p b.offline
    then if has p b.players
      then if w.online p then clear_offline p b else eliminate cfg w p b
      else clear_offline p b
    else b

-- `onOfflineTimeout`.
unfoldable pub on_offline_timeout : Config → World → String → Battle → Battle
on_offline_timeout cfg w p b = if b.settled then b else time_out cfg w p b

-- The loop of `holdOfflineTimers`.
unfoldable pub hold : Map String (Option ℕ) → Map ℕ Event → Map String (Option ℕ) × Map ℕ Event
hold [] timers = ([], timers)
hold ((p, timer) ∷ marks) timers =
    let (held, left) = hold marks (cancel timer timers) in ((p, none) ∷ held, left)

-- `holdOfflineTimers`.
unfoldable pub hold_offline_timers : Battle → Battle
unfolding hold
hold_offline_timers b =
    let (held, left) = hold b.offline b.timers in record b { offline = held; timers = left }

-- The loop of `rearmOfflineTimers`, over the players that are marked.
unfoldable pub rearm : Config → List String → Battle → Battle
rearm cfg [] b = b
rearm cfg (p ∷ ps) b = rearm cfg ps (arm_offline cfg p b)

-- `rearmOfflineTimers`.
unfoldable pub rearm_offline_timers : Config → Battle → Battle
unfolding rearm
rearm_offline_timers cfg b = rearm cfg (keys b.offline) b
