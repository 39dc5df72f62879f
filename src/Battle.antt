-- ===== src/Battle.antt =====
-- The actor of one battle, services/battle/internal/actor: its state, its timers, the seat window
-- (battle_seating.go) and the settlement (battle_frame.go). A handler takes the state to the next
-- one; what it sends is listed in `sent`, the last first, also where the transport then fails. A
-- timer that was armed and neither cancelled nor fired stands in `timers`. Metrics and logs are
-- left out.
pub mod Offline
pub mod Tickets
pub mod Frames
pub mod SyncReply
pub mod Sync
pub mod Migrate
pub mod Messages
pub mod Quiet
pub mod Notices
pub mod LastStanding
pub mod Roster
pub mod Admit
pub mod Recovery
pub mod Timers
use atlas_game_layout.Common.{
  ℕ, suc, ◌/◌, String, Bool, true, false, not, List, [], ◌∷◌, map, Option, none, some, Map, lookup,
  insert, delete, is_some, length, leb, ◌==◌, nat_key, string_key, string_order, sort, Bytes,
  if◌then◌else◌,
}
use atlas_game_layout.Common.Int.{ℤ, pos, ltb_ℤ}
use atlas_game_layout.Frame.{Frame}

-- A `map[string]struct{}`.
abbrev pub Players : Type 0
Players = Map String Unit

abbrev pub has : {V : Type 0} → String → Map String V → Bool
has p m = is_some (lookup p m)

abbrev pub keys : {V : Type 0} → Map String V → List String
keys [] = []
keys ((p, v) ∷ m) = p ∷ keys m

-- `sortedKeys`, `markedPlayers` and `roster`.
abbrev pub sorted_keys : {V : Type 0} → Map String V → List String
sorted_keys m = sort (keys m)

pub record Endpoint : Type 0 where
  pub transport : ℕ
  pub address : String

pub record TicketEntry : Type 0 where
  pub player_id : String
  pub ticket : Bytes
  pub endpoints : List Endpoint

-- `IssueEntryTicketReply`.
pub record Admission : Type 0 where
  pub endpoints : List Endpoint
  pub tickets : List TicketEntry
  pub expires_at_unix_ms : ℕ
  pub max_network_gap_ms : ℕ

-- What the handlers read of `Config`, and which of the two ledgers are there. Times are
-- nanoseconds.
pub record Config : Type 0 where
  pub tick_interval : ℕ
  pub max_frames : ℕ
  pub max_players : ℕ
  pub ticket_ttl : ℕ
  pub edge_endpoints : List Endpoint
  pub edge_instances : List (List Endpoint)
  pub ticket_key : Bytes
  pub offline_timeout : ℤ
  pub max_network_gap : ℕ
  pub seat_window : ℤ
  pub has_ledger : Bool
  pub has_shared : Bool

-- What a timer delivers.
pub data Event : Type 0 where
  seat_window_expired : Event
  offline_timeout : String → Event

pub record PlayerResult : Type 0 where
  pub player_id : String
  pub win : Bool
  pub score : ℤ

pub record BattleResult : Type 0 where
  pub battle_id : String
  pub match_id : String
  pub players : List PlayerResult
  pub total_frames : ℕ
  pub settled_at : ℕ

-- The messages and calls that leave the actor.
pub data Sent : Type 0 where
  pause_session : String → Sent
  resume_session : Sent
  join_session : String → Sent
  player_input : String → ℕ → Bytes → Sent
  publish_frames : List String → Frame ℕ → Sent
  publish_out : String → String → Sent
  publish_end : String → String → Sent
  request_keyframe : String → ℕ → Sent
  record_ended : String → List String → Sent
  record_shared : String → List String → Sent
  save_result : BattleResult → Sent
  publish_settled : List PlayerResult → Sent
  close_battle stop : Sent

-- What a handler asks of its surroundings while it runs: the registry of connections (nobody is
-- online where there is none), whether a message was delivered, and the clock.
pub record World : Type 0 where
  pub online : String → Bool
  pub delivered : Sent → Bool
  pub now : ℕ

pub record Battle : Type 0 where
  pub battle_id : String
  pub match_id : String
  pub players : Players
  pub settled : Bool
  pub admission : Option Admission
  -- The handle of the timer, and `none` where the mark has no timer.
  pub offline : Map String (Option ℕ)
  pub seating : Bool
  pub seated : Players
  pub seat_timer : Option ℕ
  pub migration : Bool
  pub restored : Bool
  pub last_frame : ℕ
  pub next_timer : ℕ
  pub timers : Map ℕ Event
  pub sent : List Sent

-- A new instance.
unfoldable pub new_battle : String → Battle
new_battle battle_id = record {
  battle_id = battle_id;
  match_id = "";
  players = [];
  settled = false;
  admission = none;
  offline = [];
  seating = false;
  seated = [];
  seat_timer = none;
  migration = false;
  restored = false;
  last_frame = 0;
  next_timer = 0;
  timers = [];
  sent = [];
}

abbrev pub tell : Sent → Battle → Battle
tell s b = record b { sent = s ∷ b.sent }

-- A message to each of a list of players, in order.
abbrev pub tell_each : (String → Sent) → List String → Battle → Battle
tell_each f [] b = b
tell_each f (p ∷ ps) b = tell_each f ps (tell (f p) b)

-- Calling the function that `ctx.After` returned, if there is one.
abbrev pub cancel : Option ℕ → Map ℕ Event → Map ℕ Event
cancel none timers = timers
cancel (some n) timers = delete n timers

-- `cancelSeating`.
unfoldable pub cancel_seating : Battle → Battle
cancel_seating b = record b {
  seating = false;
  seat_timer = none;
  timers = cancel b.seat_timer b.timers;
}

-- `startBattle`.
unfoldable pub start_battle : Battle → Battle
unfolding cancel_seating
start_battle b = if b.seating then tell resume_session (cancel_seating b) else b

module _ (cfg : Config) (w : World) where
  -- `beginSeating`.
  unfoldable pub begin_seating : Battle → Battle
  begin_seating b =
      if not (ltb_ℤ (pos 0) cfg.seat_window)
      then b
      else if length b.players == 0
      then b
      else let paused = tell (pause_session "seat_window") b in
        if w.delivered (pause_session "seat_window")
        then record paused {
          seating = true;
          seat_timer = some b.next_timer;
          next_timer = suc b.next_timer;
          timers = insert b.next_timer seat_window_expired b.timers;
        }
        else paused

-- `takeSeat`.
abbrev pub seat : String → Battle → Battle
seat p b = record b { seated = insert p tt b.seated }

unfoldable pub take_seat : String → Battle → Battle
unfolding start_battle
take_seat p b =
    if not b.seating
    then b
    else if not (has p b.players)
    then b
    else if leb (length b.players) (length (seat p b).seated)
    then start_battle (seat p b)
    else seat p b

-- `releaseSeat`.
unfoldable pub release_seat : String → Battle → Battle
release_seat p b = if b.seating then record b { seated = delete p b.seated } else b

-- `settleOutcome`.
pub record Outcome : Type 0 where
  pub winner : String
  pub frames : ℕ
  pub scores : Map String ℤ

-- `out.Scores[player]`: 0 where there is none.
abbrev pub score_of : Option ℤ → ℤ
score_of none = pos 0
score_of (some s) = s

-- The loop of `settle` over the roster.
unfoldable pub results : Outcome → List String → List PlayerResult
results out ps =
    map
      (λ p. record { player_id = p; win = p == out.winner; score = score_of (lookup p out.scores) })
      ps

-- `recordSharedEnded`.
unfoldable pub record_shared_ended : Config → Outcome → Battle → Battle
record_shared_ended cfg out b =
    if cfg.has_shared then tell (record_shared out.winner (sorted_keys b.players)) b else b

abbrev pub record_locally : Config → Outcome → Battle → Battle
record_locally cfg out b =
    if cfg.has_ledger then tell (record_ended out.winner (sorted_keys b.players)) b else b

-- The document that `settle` saves.
abbrev pub result_of : ℕ → Outcome → Battle → BattleResult
result_of now out b = record {
  battle_id = b.battle_id;
  match_id = b.match_id;
  players = results out (keys b.players);
  total_frames = out.frames;
  settled_at = now / 1000000;
}

-- The last part of `settle`, after the two ledgers.
abbrev pub announce : World → Outcome → Battle → Battle → Battle
announce w out b recorded =
    let res = result_of w.now out b in
    let saved = tell (publish_settled res.players) (tell (save_result res) recorded) in
    tell stop (tell close_battle (tell_each (λ p. publish_end p out.winner) (keys b.players) saved))

-- `settle`.
unfoldable pub settle : Config → World → Outcome → Battle → Battle
unfolding cancel_seating record_shared_ended
settle cfg w out b =
    if b.settled
    then b
    else let closed = cancel_seating (record b { settled = true }) in
      announce w out b (record_shared_ended cfg out (record_locally cfg out closed))
