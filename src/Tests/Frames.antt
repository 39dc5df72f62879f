-- ===== src/Tests/Frames.antt =====
-- A battle of three frames and more, and a client of it.
use atlas_game_layout.Common.{
  ℕ, zero, suc, ◌+◌, String, true, false, List, [], ◌∷◌, Option, none, some, ◌≡◌, refl, subst,
  Bytes, ◌==◌, nat_key, string_key, nat_beq_iff, arith,
}
use atlas_game_layout.Frame.{Timestamps, Input, Frame, Broadcast, Delta}
use atlas_game_layout.Downlink.{Codec, Decoder, new_decoder, apply, merge}
use atlas_game_layout.Delta.{diff}
use atlas_game_layout.Delta.RoundTrip.{Same, IsFrame, TimesCarry, merge-diff}
use atlas_game_layout.Delta.Sync.{IsHistory, FromServer, InSync, Faithful}
use atlas_game_layout.Delta.Receive.{receive, deliveries, deltas, receive-Faithful, deltas_catch_up}

instance abbrev pub nanos : Timestamps ℕ
nanos = record {
  equal = λ a b. a == b;
  equal_iff = nat_beq_iff;
  unix_nano = λ t. t;
  from_nano = λ n. n;
}

abbrev pub input : String → ℕ → ℕ → Input
input p n byte = record {
  frame_id = n;
  player_id = p;
  payload = byte ∷ [];
  predicted = false;
  client_send_time = 0;
}

-- "bob" leaves after the first frame.
abbrev pub inputs : ℕ → List Input
inputs zero = input "ann" 0 7 ∷ input "bob" 0 8 ∷ []
inputs (suc n) = input "ann" (suc n) n ∷ []

abbrev pub frames : ℕ → Frame ℕ
frames n = record {
  frame_id = n;
  inputs = inputs n;
  state_hash = n ∷ [];
  server_time = some (n + 5);
  snapshot = none;
}

abbrev whole : ℕ → Broadcast ℕ
whole n = record { battle_id = "b1"; frame = frames n }

frames-IsFrame : (n : ℕ) → IsFrame (frames n)
frames-IsFrame zero = record { distinct = (refl, (refl, tt)); own_ids = (refl, (refl, tt)) }
frames-IsFrame (suc n) = record { distinct = (refl, tt); own_ids = (refl, tt) }

frames-TimesCarry : (n m : ℕ) → TimesCarry (frames n).server_time (frames m).server_time
frames-TimesCarry n m = record { stays = λ e. absurd (ground arith); exact = λ t e. refl }

frames-IsHistory : IsHistory frames
frames-IsHistory = record {
  numbered = λ n. refl;
  each = frames-IsFrame;
  times = λ n. frames-TimesCarry n (suc n);
}

abbrev Same_refl : (f : Frame ℕ) → Same f f
Same_refl f = record {
  same_id = refl;
  same_inputs = λ q. refl;
  same_count = λ q. refl;
  same_hash = refl;
  same_time = refl;
  same_snapshot = refl;
}

-- A payload is the number of its frame.
abbrev read_full : Bytes → Option (Broadcast ℕ)
read_full (n ∷ []) = some (whole n)
read_full _ = none

abbrev read_delta : Bytes → Option Delta
read_delta (n ∷ []) = some (diff (frames n) (frames (suc n)))
read_delta _ = none

abbrev codec : Codec ℕ
codec = record { json_full = λ p. none; proto_full = read_full; proto_delta = read_delta }

some_inj {ℓ} : {A : Type ℓ} (a b : A) → some a ≡ some b → a ≡ b
some_inj a b e = cc

payload-FromServer : (n : ℕ) → FromServer frames codec (n ∷ [])
payload-FromServer n = record {
  json = λ bc e. absurd (ground arith);
  proto = λ bc e.
      subst (λ (b : Broadcast ℕ). Same b.frame (frames b.frame.frame_id)) (some_inj (whole n) bc e)
        (Same_refl (frames n));
  delta = λ x e. (n, ground arith);
}

abbrev change : Delta
change = record {
  base_seq = 0;
  seq = 1;
  changed = [];
  server_time_nano = 0;
  set_inputs = input "cid" 1 4 ∷ [];
  removed_ids = "bob" ∷ [];
  snapshot = none;
  state_hash = [];
}

-- The step from frame 0 to frame 1, in which a player leaves.
merge-diff_example :
    Same (merge (whole 0) (diff (frames 0) (frames 1))).frame (frames 1)
    × ((merge (whole 0) (diff (frames 0) (frames 1))).battle_id ≡ "b1")
merge-diff_example =
    merge-diff (whole 0) (frames 0) (frames 1) (Same_refl (frames 0)) (frames-IsFrame 0)
      (frames-IsFrame 1) (frames-TimesCarry 0 1)

-- The decoder after frame 0.
abbrev at_frame_0 : Decoder ℕ
at_frame_0 = record (new_decoder true) { full = whole 0; has_base = true }

at_frame_0-InSync : InSync frames at_frame_0
unfolding new_decoder
at_frame_0-InSync e = Same_refl (frames 0)

abbrev packets : List (Bytes × ℕ)
packets = (0 ∷ [], 2) ∷ (1 ∷ [], 3) ∷ (0 ∷ [], 3) ∷ []

-- A delta comes too early, and then the one that was missing.
receive-Faithful_example :
    InSync frames (receive codec (new_decoder true) packets)
    × Faithful frames (apply codec (receive codec (new_decoder true) packets) (1 ∷ []) 3)
receive-Faithful_example =
    receive-Faithful frames codec true packets (1 ∷ []) 3 frames-IsHistory
      (payload-FromServer 0, (payload-FromServer 1, (payload-FromServer 0, tt)))
      (payload-FromServer 1)

abbrev payloads : ℕ → Bytes
payloads n = n ∷ []

-- Three deltas after frame 0.
deltas_catch_up_example :
    ((receive codec at_frame_0 (deltas payloads 0 3)).last_seq ≡ 3)
    × (deliveries codec at_frame_0 (deltas payloads 0 3) ≡ 3)
unfolding new_decoder
deltas_catch_up_example =
    deltas_catch_up frames codec payloads 0 3 at_frame_0 frames-IsHistory (λ m. refl) refl refl
      (omega arith)
