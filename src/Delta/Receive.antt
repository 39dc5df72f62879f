-- ===== src/Delta/Receive.antt =====
-- Whole runs of the decoder: any packets of the server, the key frame requests, and the packets of
-- an undisturbed channel.
use atlas_game_layout.Common.{
  ℕ, zero, suc, ◌+◌, ◌≤◌, ◌<◌, ◌^◌, Bool, true, false, List, [], ◌∷◌, some, ◌≡◌, refl, Bytes, All,
  nat_key, arith,
}
use atlas_game_layout.Frame.{Timestamps, Frame}
use atlas_game_layout.Downlink.{
  Decoder, Applied, delivered, dropped, failed, Codec, new_decoder, request_keyframe, apply,
}
use atlas_game_layout.Delta.{diff}
use atlas_game_layout.Delta.Sync.{
  IsHistory, FromServer, InSync, Faithful, apply-Faithful, diff_numbers,
}

abbrev waiting : Bool → ℕ
waiting true = 1
waiting false = 0

-- The payloads of the deltas from one frame on.
abbrev pub deltas : (ℕ → Bytes) → ℕ → ℕ → List (Bytes × ℕ)
deltas payloads n zero = []
deltas payloads n (suc k) = (payloads n, 3) ∷ deltas payloads (suc n) k

module _ {Time : Type 0} ⦃ts : Timestamps Time⦄ where
  -- The decoder after a list of packets, each a payload under its version.
  unfoldable pub receive : Codec Time → Decoder Time → List (Bytes × ℕ) → Decoder Time
  receive codec d [] = d
  receive codec d ((payload, ver) ∷ rest) = receive codec (apply codec d payload ver).0 rest

  Faithful-InSync :
      (frames : ℕ → Frame Time) (r : Decoder Time × Applied Time)
      → Faithful frames r
      → InSync frames r.0
  Faithful-InSync frames (d, delivered bc) f = f.0
  Faithful-InSync frames (d, dropped) f = f
  Faithful-InSync frames (d, failed) f = f

  receive-InSync :
      (frames : ℕ → Frame Time) (codec : Codec Time) (d : Decoder Time) (packets : List (Bytes × ℕ))
      → IsHistory frames
      → All (λ p. FromServer frames codec p.0) packets
      → InSync frames d
      → InSync frames (receive codec d packets)
  unfolding receive
  receive-InSync frames codec d [] h all s = s
  receive-InSync frames codec d ((payload, ver) ∷ rest) h all s =
      receive-InSync frames codec (apply codec d payload ver).0 rest h all.1 (
        Faithful-InSync frames (apply codec d payload ver)
          (apply-Faithful frames codec d payload ver h all.0 s))

  -- In a battle whose frames are numbered in order and are such as a session emits them: a new
  -- decoder that has taken any payloads of the server, in any order, with losses, repeats and
  -- wrong versions, shows the frame of its number if it shows one; if it delivers on one more
  -- payload of the server, it delivers the frame of its new number.
  pub receive-Faithful :
      (frames : ℕ → Frame Time) (codec : Codec Time) (requester : Bool) (packets : List (Bytes × ℕ))
      (payload : Bytes) (ver : ℕ)
      → IsHistory frames
      → All (λ p. FromServer frames codec p.0) packets
      → FromServer frames codec payload
      → InSync frames (receive codec (new_decoder requester) packets)
        × Faithful frames (apply codec (receive codec (new_decoder requester) packets) payload ver)
  unfolding new_decoder
  receive-Faithful frames codec requester packets payload ver h all from =
      let s = receive-InSync frames codec (new_decoder requester) packets h all (λ e. cc) in
      (s, apply-Faithful frames codec _ payload ver h from s)

  abbrev delivers : Applied Time → ℕ
  delivers (delivered bc) = 1
  delivers _ = 0

  -- How many of the packets were delivered.
  unfoldable pub deliveries : Codec Time → Decoder Time → List (Bytes × ℕ) → ℕ
  deliveries codec d [] = 0
  deliveries codec d ((payload, ver) ∷ rest) =
      let (d', r) = apply codec d payload ver in delivers r + deliveries codec d' rest

  apply_requests :
      (codec : Codec Time) (d : Decoder Time) (payload : Bytes) (ver : ℕ)
      → let (d', r) = apply codec d payload ver in
        d'.requests + waiting d.pending ≤ d.requests + waiting d'.pending + delivers r
  unfolding apply request_keyframe
  apply_requests codec d payload ver = ground arith

  receive_requests :
      (codec : Codec Time) (d : Decoder Time) (packets : List (Bytes × ℕ))
      → (receive codec d packets).requests + waiting d.pending
        ≤ d.requests + waiting (receive codec d packets).pending + deliveries codec d packets
  unfolding receive deliveries
  receive_requests codec d [] = omega arith
  receive_requests codec d ((payload, ver) ∷ rest) = omega (
    arith,
    apply_requests codec d payload ver,
    receive_requests codec (apply codec d payload ver).0 rest,
  )

  -- Whatever bytes arrive, a new decoder asks for a key frame at most once more than it delivers.
  pub requests_bound :
      (codec : Codec Time) (requester : Bool) (packets : List (Bytes × ℕ))
      → (receive codec (new_decoder requester) packets).requests
        ≤ deliveries codec (new_decoder requester) packets + 1
  unfolding new_decoder
  requests_bound codec requester packets =
      ground (arith, receive_requests codec (new_decoder requester) packets)

  next_delta :
      (frames : ℕ → Frame Time) (codec : Codec Time) (d : Decoder Time) (payload : Bytes) (n : ℕ)
      → IsHistory frames
      → d.has_base ≡ true
      → d.last_seq ≡ n
      → n + 1 < 2 ^ 64
      → codec.proto_delta payload ≡ some (diff (frames n) (frames (suc n)))
      → let (d', r) = apply codec d payload 3 in
        (d'.has_base ≡ true) × (d'.last_seq ≡ suc n) × (r ≡ delivered d'.full)
  unfolding apply
  next_delta frames codec d payload n h based at small e = ground (arith, diff_numbers frames n h)

  -- In a battle whose frames are numbered in order, and below frame 2^64: a decoder with a base
  -- that gets the next k deltas in order, each of which decodes to what was encoded, delivers all
  -- of them, and stands k frames further.
  pub deltas_catch_up :
      (frames : ℕ → Frame Time) (codec : Codec Time) (payloads : ℕ → Bytes) (n k : ℕ)
      (d : Decoder Time)
      → IsHistory frames
      → ((m : ℕ) → codec.proto_delta (payloads m) ≡ some (diff (frames m) (frames (suc m))))
      → d.has_base ≡ true
      → d.last_seq ≡ n
      → n + k < 2 ^ 64
      → ((receive codec d (deltas payloads n k)).last_seq ≡ n + k)
        × (deliveries codec d (deltas payloads n k) ≡ k)
  unfolding receive deliveries
  deltas_catch_up frames codec payloads n zero d h sent based at small = (omega arith, refl)
  deltas_catch_up frames codec payloads n (suc k) d h sent based at small =
      let step = next_delta frames codec d (payloads n) n h based at (omega arith) (sent n) in
      let d' = (apply codec d (payloads n) 3).0 in
      let rest =
        deltas_catch_up frames codec payloads (suc n) k d' h sent step.0 step.1 (omega arith) in
      (omega (arith, rest.0), rw step.2 (omega (arith, rest.1)))
