-- ===== src/Battle/Messages.antt =====
-- The messages that the actor of a battle handles, and runs of them: OnTell and OnAsk of the actor,
-- by the handlers of services/battle/internal/actor. A message is handled in a world of its own,
-- and in any order: a timer that fired may still be delivered after it was cancelled.
use atlas_game_layout.Common.{ℕ, String, List, [], ◌∷◌, Option, delete, nat_key, Bytes}
use atlas_game_layout.Simulator.{State}
use atlas_game_layout.Battle.{Config, World, Battle, start_battle}
use atlas_game_layout.Battle.Tickets.{Ticket, create, admit}
use atlas_game_layout.Battle.Offline.{on_player_online, on_player_offline, on_offline_timeout}
use atlas_game_layout.Battle.Frames.{
  FrameResult, on_frame_result, send_frame_input, request_frame_keyframe,
}
use atlas_game_layout.Battle.Sync.{ReconnectResponse, join_battle}
use atlas_game_layout.Battle.Migrate.{on_prepare_migration, on_resume_migration}

pub data Message : Type 0 where
  creates admits : String → List String → Message
  joins : (session : ℕ → Option ReconnectResponse) (version : ℕ) (sender : Option String) → Message
  sends_input : (sender : Option String) (frame : ℕ) (payload : Bytes) → Message
  asks_keyframe : (sender : Option String) (last_seq : ℕ) → Message
  goes_online goes_offline times_out : String → Message
  fires : (timer : ℕ) → Message
  opens : Message
  frame_done : FrameResult → Message
  prepares : (session : Option ReconnectResponse) (epoch : ℕ) (node id : String) → Message
  resumes : String → Message

-- A timer that fires leaves the clock; what it delivers comes as a message of its own.
abbrev pub fire : ℕ → Battle → Battle
fire n b = record b { timers = delete n b.timers }

-- The ports of the actor that are parameters.
pub record Ports : Type 0 where
  pub encode : Ticket → Bytes → Option Bytes
  pub crc32 : String → ℕ
  pub decode : Bytes → Option State

module _ (ports : Ports) (cfg : Config) where
  unfoldable pub handle : World → Message → Battle → Battle
  handle w (creates id ps) b = create id ps b
  handle w (admits id ps) b = (admit ports.encode ports.crc32 cfg w id ps b).0
  handle w (joins session version sender) b = (join_battle session cfg w version sender b).0
  handle w (sends_input sender frame payload) b = (send_frame_input w sender frame payload b).0
  handle w (asks_keyframe sender last_seq) b = (request_frame_keyframe sender last_seq b).0
  handle w (goes_online p) b = on_player_online p b
  handle w (goes_offline p) b = on_player_offline cfg w p b
  handle w (times_out p) b = on_offline_timeout cfg w p b
  handle w (fires n) b = fire n b
  handle w opens b = start_battle b
  handle w (frame_done r) b = on_frame_result ports.decode cfg w r b
  handle w (prepares session epoch node id) b = (on_prepare_migration cfg session epoch node id b).0
  handle w (resumes id) b = (on_resume_migration cfg id b).0

  unfoldable pub run : List (World × Message) → Battle → Battle
  run [] b = b
  run ((w, m) ∷ ms) b = run ms (handle w m b)
