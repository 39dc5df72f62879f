-- ===== src/Tests/Battles.antt =====
-- A battle of three players, of whom two are lost, and its move to another node.
use atlas_game_layout.Common.{
  ℕ, zero, suc, ◌+◌, String, true, false, List, [], ◌∷◌, map, Option, none, some, ◌≡◌, ◌⊎◌, refl,
  subst, arith, Map, lookup, length, ◌==◌, nat_key, string_key, str_iff, Bytes, string_order,
}
use atlas_game_layout.Common.Int.{ℤ, pos}
use atlas_game_layout.Simulator.{Race}
use atlas_game_layout.Simulator.Hash.{hash}
use atlas_game_layout.Simulator.Hash.Order.{hash_canonical}
use atlas_game_layout.Battle.{
  offline_timeout, Battle, Config, World, Players, has, sorted_keys, new_battle, Admission,
  TicketEntry, release_seat, settle, cancel_seating, record_shared_ended,
}
use atlas_game_layout.Battle.Quiet.{saving, finals}
use atlas_game_layout.Battle.Offline.{
  on_player_offline, on_offline_timeout, arm_offline, clear_offline, eliminate, last_standing,
  last_of,
}
use atlas_game_layout.Battle.Tickets.{
  Ticket, done, admit, merged_roster, new_names, sign_tickets, sign_each, sign_one, admission_of,
  edge_instances, edge_instance_of,
}
use atlas_game_layout.Battle.Sync.{ReconnectResponse}
use atlas_game_layout.Battle.SyncReply.{
  sync_fits_budget, frame_of_group, get_elem?, SyncReply, FrameInputs, Sizes, clip_sync_reply,
  sync_candidate,
}
use atlas_game_layout.Battle.SyncReply.Fit.{Monotone, IsLongest, fits, clip_sync_reply-IsLongest}
use atlas_game_layout.Battle.SyncReply.Resume.{IsNumbered, GoesOn, clip_sync_reply-GoesOn}
use atlas_game_layout.Battle.Timers.{IsTimed}
use atlas_game_layout.Battle.Timers.Window.{run-timers}
use atlas_game_layout.Battle.Migrate.{Storage, export_state, restore_if_migrated}
use atlas_game_layout.Battle.Messages.{Message, Ports, goes_offline, times_out, run, handle}
use atlas_game_layout.Battle.Roster.{view}
use atlas_game_layout.Battle.Roster.Steps.{IsNamed}
use atlas_game_layout.Battle.Roster.Promises.{Trace, onlines, flag, run-Trace, finals-run, run-has}
use atlas_game_layout.Battle.Admit.{IsAllOrNothing, admit-IsAllOrNothing, admit-twice}
use atlas_game_layout.Battle.Recovery.{IsWritable, IsRecovered, restore_if_migrated-export_state}

some-path : {x y : FrameInputs} → some x ≡ some y → x ≡ y
some-path h = ground (arith, h)

abbrev pub config : Config
config = record {
  tick_interval = 100000000;
  max_frames = 100;
  max_players = 10;
  ticket_ttl = 120;
  edge_endpoints = [];
  edge_instances = [];
  ticket_key = [];
  offline_timeout = pos 15;
  max_network_gap = 0;
  seat_window = pos 3;
  has_ledger = true;
  has_shared = false;
}

abbrev world : World
world = record { online = λ p. p == "ann"; delivered = λ s. true; now = 1000 }

abbrev code : Ticket → Bytes → Option Bytes
code t key = some (1 ∷ [])

abbrev ports : Ports
ports = record { encode = code; crc32 = λ s. 7; decode = λ s. none }

abbrev names : List String
names = "ann" ∷ "bob" ∷ "cy" ∷ []

abbrev three : Players
three = ("ann", tt) ∷ ("bob", tt) ∷ ("cy", tt) ∷ []

abbrev pub started : Battle
started = record (new_battle "b1") {
  players = three;
  settled = false;
  offline = [];
  sent = [];
  admission = none;
}

started-IsNamed : IsNamed started
started-IsNamed = ((refl, (refl, (refl, tt))), refl)

abbrev losses : List (World × Message)
losses =
    (world, goes_offline "bob")
    ∷ (world, times_out "bob")
    ∷ (world, goes_offline "cy")
    ∷ (world, times_out "cy")
    ∷ (world, times_out "ann")
    ∷ []

run-Trace_example : Trace (onlines losses) (view started) (view (run ports config losses started))
run-Trace_example = run-Trace ports config losses started started-IsNamed

finals-run_example :
    finals saving (run ports config losses started).sent + flag started.settled
    ≡ finals saving started.sent + flag (run ports config losses started).settled
finals-run_example = finals-run ports config saving losses started started-IsNamed

run-has_example : has "ann" (run ports config losses started).players ≡ true
run-has_example =
    run-has ports config "ann" losses started started-IsNamed
      (refl, (refl, (refl, (refl, (refl, tt))))) refl

admit-IsAllOrNothing_example :
    IsAllOrNothing code
      (λ s. 7)
      config
      world
      started
      (admit code (λ s. 7) config world "m1" names started)
admit-IsAllOrNothing_example =
    admit-IsAllOrNothing code (λ s. 7) config world "m1" names started started-IsNamed.0 refl

-- The two are lost one after the other, and the last one wins.
losses_settle :
    ((run ports config losses started).settled ≡ true)
    × (sorted_keys (run ports config losses started).players ≡ "ann" ∷ "cy" ∷ [])
unfolding run handle on_player_offline on_offline_timeout release_seat arm_offline clear_offline
    eliminate last_standing last_of settle cancel_seating record_shared_ended new_battle
losses_settle = (refl, refl)

abbrev ticket_of : String → TicketEntry
ticket_of p = record { player_id = p; ticket = 1 ∷ []; endpoints = [] }

abbrev admitted : Admission
admitted = record {
  endpoints = [];
  tickets = map ticket_of names;
  expires_at_unix_ms = 0;
  max_network_gap_ms = 0;
}

first_admission :
    admit code (λ s. 7) config world "m1" names started
    ≡ ((admit code (λ s. 7) config world "m1" names started).0, done admitted)
unfolding admit merged_roster new_names sign_tickets sign_each sign_one admission_of edge_instances
    edge_instance_of new_battle
first_admission = refl

admit-twice_example :
    admit code
      (λ s. 7)
      config
      world
      "m2"
      ("dan" ∷ [])
      (admit code (λ s. 7) config world "m1" names started).0
    ≡ ((admit code (λ s. 7) config world "m1" names started).0, done admitted)
admit-twice_example =
    admit-twice code (λ s. 7) config world world "m1" "m2" names ("dan" ∷ []) started
      (admit code (λ s. 7) config world "m1" names started).0 admitted started-IsNamed.0 refl
      first_admission

abbrev group : ℕ → FrameInputs
group n = record { frame_id = n; inputs = [] }

abbrev behind : SyncReply
behind = record {
  current_frame = 9;
  snapshot = none;
  missed = group 7 ∷ group 8 ∷ group 9 ∷ [];
  next_frame = 0;
  has_more = false;
}

-- Every group takes one byte.
abbrev by_count : Sizes
by_count = record { json = λ r. some (length r.missed); protobuf = λ r. length r.missed }

behind-Monotone : Monotone by_count 2 behind
unfolding sync_fits_budget sync_candidate
behind-Monotone zero k p q r h = absurd (omega (arith, p))
behind-Monotone (suc zero) k p q r h = refl
behind-Monotone (suc (suc zero)) k p q r h = refl
behind-Monotone (suc (suc (suc j))) k p q r h =
    let e : k ≡ 3 = omega (arith, q, r) in
    let full : false ≡ true = subst (λ x. fits by_count 2 behind x ≡ true) e h in
    absurd (ground (arith, full))

clip_sync_reply-IsLongest_example :
    ((n : ℕ) × IsLongest by_count 2 behind n
      × (clip_sync_reply by_count 2 behind ≡ some (sync_candidate behind n)))
    ⊎ ((clip_sync_reply by_count 2 behind ≡ none) × (fits by_count 2 behind 1 ≡ false))
clip_sync_reply-IsLongest_example =
    clip_sync_reply-IsLongest by_count 2 behind behind-Monotone λ e. ground (arith, e)

-- What the client is given of the three groups after frame 6.
abbrev cut : SyncReply
cut = record {
  current_frame = 9;
  snapshot = none;
  missed = group 7 ∷ group 8 ∷ [];
  next_frame = 9;
  has_more = true;
}

behind-IsNumbered : IsNumbered 6 behind
unfolding frame_of_group
behind-IsNumbered = record { frames = numbered; current = refl }
  where
    numbered :
        (n : ℕ) (g : FrameInputs)
        → get_elem? behind.missed n ≡ some g
        → frame_of_group g ≡ 6 + n + 1
    numbered zero g h = subst (λ x. frame_of_group x ≡ 7) (some-path h) refl
    numbered (suc zero) g h = subst (λ x. frame_of_group x ≡ 8) (some-path h) refl
    numbered (suc (suc zero)) g h = subst (λ x. frame_of_group x ≡ 9) (some-path h) refl
    numbered (suc (suc (suc n))) g h = absurd (ground (arith, h))

behind_cut : clip_sync_reply by_count 2 behind ≡ some cut
unfolding clip_sync_reply sync_candidate
behind_cut = refl

clip_sync_reply-GoesOn_example : GoesOn 6 behind cut
clip_sync_reply-GoesOn_example =
    clip_sync_reply-GoesOn by_count 2 6 behind cut behind-IsNumbered (λ e. ground (arith, e))
      behind_cut

-- One player has lost his connection.
abbrev one_loss : List (World × Message)
one_loss = (world, goes_offline "bob") ∷ []

abbrev waiting : Battle
waiting = record started { timers = []; migration = false; seating = false; next_timer = 0 }

waiting-IsTimed : IsTimed waiting
waiting-IsTimed = record {
  owned = λ n p h. absurd (ground (arith, h));
  fresh = λ n e h. absurd (ground (arith, h));
  held = λ m p n h. absurd (ground (arith, h));
}

bob_timed : lookup 0 (run ports config one_loss waiting).timers ≡ some (offline_timeout "bob")
unfolding run handle on_player_offline release_seat arm_offline clear_offline
bob_timed = refl

run-timers_example :
    (lookup "bob" (run ports config one_loss waiting).offline ≡ some (some 0))
    × ((run ports config one_loss waiting).migration ≡ false)
run-timers_example = run-timers ports config one_loss waiting waiting-IsTimed 0 "bob" bob_timed

abbrev pub storage : Storage (List ℕ)
storage = record { save_snapshot = λ snap s. some (0 ∷ s); append_inputs = λ n is s. some (n ∷ s) }

pub storage-IsWritable : IsWritable storage
storage-IsWritable = record { saves = λ snap s. (0 ∷ s, refl); appends = λ n is s. (n ∷ s, refl) }

abbrev pub answer : ReconnectResponse
answer = record {
  current_frame = 4;
  snapshot = some (record { frame = 4; state = 1 ∷ []; hash = 5 });
  missed_inputs = [];
}

restore_if_migrated-export_state_example :
    (d : Battle) × (t : List ℕ) × (restore_if_migrated storage config 3
        (export_state (some answer) 2 "node1" started)
        (new_battle started.battle_id)
        []
      ≡ some (d, t))
    × IsRecovered started d
    × (d.restored ≡ true)
restore_if_migrated-export_state_example =
    restore_if_migrated-export_state storage storage-IsWritable config answer 3 2 "node1" started []
      (omega arith)

abbrev race : Map String ℤ → Race
race m = record {
  track_len = pos 5;
  max_frames = 60;
  positions = m;
  scores = [];
  winner = "";
  frame = 3;
}

abbrev one_way : Map String ℤ
one_way = ("ann", pos 2) ∷ ("bob", pos 4) ∷ []

abbrev other_way : Map String ℤ
other_way = ("bob", pos 4) ∷ ("ann", pos 2) ∷ []

same_entries : (q : String) → lookup q one_way ≡ lookup q other_way
same_entries q = ground (arith, str_iff "ann" q, str_iff "bob" q, str_iff "ann" "bob")

hash_canonical_example : hash (race one_way) ≡ hash (race other_way)
hash_canonical_example =
    hash_canonical (race one_way) (race other_way) (refl, (refl, tt)) (refl, (refl, tt))
      same_entries (λ q. refl) refl
