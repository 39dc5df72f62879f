-- ===== src/Delta/Sync.antt =====
-- A client's decoder fed by the server of one battle, over a channel that may lose, repeat,
-- reorder and spoil payloads.
use atlas_game_layout.Common.{
  ℕ, suc, ◌+◌, ◌%◌, ◌^◌, Bool, true, false, not, ◌||◌, Option, none, some, ◌≡◌, refl, sym, subst,
  ◌∙◌, Bytes, ◌==◌, nat_key, leb, if_elim, arith, Bool-cases, inl, inr,
}
use atlas_game_layout.Frame.{Timestamps, Frame, Broadcast, Delta}
use atlas_game_layout.Downlink.{
  Decoder, Applied, delivered, Codec, request_keyframe, apply_full, apply_delta, apply, merge,
}
use atlas_game_layout.Delta.{diff}
use atlas_game_layout.Delta.RoundTrip.{Same, IsFrame, TimesCarry, merge-diff}

module _ {Time : Type 0} ⦃ts : Timestamps Time⦄ where
  -- The frames of a battle, one for each number.
  pub record IsHistory (frames : ℕ → Frame Time) : Type 0 where
    pub numbered : (n : ℕ) → (frames n).frame_id ≡ n
    pub each : (n : ℕ) → IsFrame (frames n)
    pub times : (n : ℕ) → TimesCarry (frames n).server_time (frames (suc n)).server_time

  -- The server sends a frame whole, or as the delta to the next one.
  pub record FromServer (frames : ℕ → Frame Time) (codec : Codec Time) (payload : Bytes)
      : Type 0 where
    pub json :
        (bc : Broadcast Time)
        → codec.json_full payload ≡ some bc
        → Same bc.frame (frames bc.frame.frame_id)
    pub proto :
        (bc : Broadcast Time)
        → codec.proto_full payload ≡ some bc
        → Same bc.frame (frames bc.frame.frame_id)
    pub delta :
        (x : Delta)
        → codec.proto_delta payload ≡ some x
        → (n : ℕ) × (x ≡ diff (frames n) (frames (suc n)))

  -- What the decoder shows is the frame that it says it shows.
  abbrev pub InSync : (ℕ → Frame Time) → Decoder Time → Type 0
  InSync frames d = d.has_base ≡ true → Same d.full.frame (frames d.last_seq)

  abbrev pub Faithful : (ℕ → Frame Time) → Decoder Time × Applied Time → Type 0
  Faithful frames (d, delivered bc) =
      InSync frames d × Same bc.frame (frames d.last_seq) × (d.has_base ≡ true)
  Faithful frames (d, _) = InSync frames d

  request_keyframe-InSync :
      (frames : ℕ → Frame Time) (d : Decoder Time)
      → InSync frames d
      → InSync frames (request_keyframe d)
  unfolding request_keyframe
  request_keyframe-InSync frames d s = elim (Bool-cases d.pending) [
    | inl e ↦ rw e s
    | inr e ↦ rw e s
  ]

  apply_full-Faithful :
      (frames : ℕ → Frame Time) (d : Decoder Time) (o : Option (Broadcast Time))
      → InSync frames d
      → ((bc : Broadcast Time) → o ≡ some bc → Same bc.frame (frames bc.frame.frame_id))
      → Faithful frames (apply_full d o)
  unfolding apply_full
  apply_full-Faithful frames d none s h = s
  apply_full-Faithful frames d (some bc) s h = ((λ _. h bc refl), h bc refl, refl)

  pub diff_numbers :
      (frames : ℕ → Frame Time) (n : ℕ)
      → IsHistory frames
      → ((diff (frames n) (frames (suc n))).seq ≡ suc n)
        × ((diff (frames n) (frames (suc n))).base_seq ≡ n)
  unfolding diff
  diff_numbers frames n h = (h.numbered (suc n), h.numbered n)

  -- A delta that is taken continues the frame that is shown.
  next_frame :
      (frames : ℕ → Frame Time) (base : Broadcast Time) (n last : ℕ) (x : Delta)
      → IsHistory frames
      → Same base.frame (frames last)
      → x ≡ diff (frames n) (frames (suc n))
      → x.base_seq ≡ last
      → Same (merge base x).frame (frames x.seq)
  next_frame frames base n last x h s e b =
      subst (λ y. y.base_seq ≡ last → Same (merge base y).frame (frames y.seq)) (sym e) merged b
    where
      step : Delta
      step = diff (frames n) (frames (suc n))

      merged : step.base_seq ≡ last → Same (merge base step).frame (frames step.seq)
      merged l =
          let (seq_n, base_n) = diff_numbers frames n h in
          let here = subst (λ m. Same base.frame (frames m)) (sym l ∙ base_n) s in
          subst (λ m. Same (merge base step).frame (frames m)) (sym seq_n)
            (merge-diff base (frames n) (frames (suc n)) here (h.each n) (h.each (suc n))
              (h.times n)).0

  apply_delta-Faithful :
      (frames : ℕ → Frame Time) (d : Decoder Time) (o : Option Delta)
      → IsHistory frames
      → InSync frames d
      → ((x : Delta) → o ≡ some x → (n : ℕ) × (x ≡ diff (frames n) (frames (suc n))))
      → Faithful frames (apply_delta d o)
  unfolding apply_delta
  apply_delta-Faithful frames d none h s g = s
  apply_delta-Faithful frames d (some x) h s g =
      if_elim (Faithful frames) (not d.has_base) (λ _. request_keyframe-InSync frames d s)
        λ based.
          if_elim (Faithful frames) (leb x.seq d.last_seq) (λ _. s)
            λ _.
              if_elim (Faithful frames) gap
                (λ _. request_keyframe-InSync frames (record d { drops = d.drops + 1 }) s)
                λ next.
                  let ok : d.has_base ≡ true = ground arith in
                  ((λ _. shows next ok), shows next ok, ok)
    where
      gap : Bool
      gap = not (x.seq == (d.last_seq + 1) % 2 ^ 64) || not (x.base_seq == d.last_seq)

      shows : gap ≡ false → d.has_base ≡ true → Same (merge d.full x).frame (frames x.seq)
      shows ok based =
          let (n, e) = g x refl in
          next_frame frames d.full n d.last_seq x h (s based) e (ground arith)

  -- In a battle whose frames are numbered in order and are such as a session emits them: a payload
  -- of the server, under any version, keeps a decoder that is in step in step, and a frame that is
  -- delivered is the one of that number.
  pub apply-Faithful :
      (frames : ℕ → Frame Time) (codec : Codec Time) (d : Decoder Time) (payload : Bytes) (ver : ℕ)
      → IsHistory frames
      → FromServer frames codec payload
      → InSync frames d
      → Faithful frames (apply codec d payload ver)
  unfolding apply
  apply-Faithful frames codec d payload ver h from s =
      if_elim (Faithful frames) (ver == 1)
        (λ _. apply_full-Faithful frames d (codec.json_full payload) s from.json)
        λ _.
          if_elim (Faithful frames) (ver == 2)
            (λ _. apply_full-Faithful frames d (codec.proto_full payload) s from.proto)
            λ _.
              if_elim (Faithful frames) (ver == 3)
                (λ _. apply_delta-Faithful frames d (codec.proto_delta payload) h s from.delta)
                (λ _. s)
