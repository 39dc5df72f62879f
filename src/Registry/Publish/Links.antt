-- ===== src/Registry/Publish/Links.antt =====
-- What a tick puts on the wire, where the registry has published the frames of one battle so far.
use atlas_game_layout.Common.{
  ℕ, suc, ◌+◌, ◌^◌, ◌<◌, String, Bool, true, false, List, [], ◌∷◌, Option, none, some, ◌≡◌, ◌⊎◌,
  inl, inr, sym, ap, Bytes, lookup, lookup-insert, All, All-append, nat_key, string_key, str_iff,
  if_elim, arith, Option-cases,
}
use atlas_game_layout.Frame.{Timestamps, Frame, Delta}
use atlas_game_layout.Delta.{diff}
use atlas_game_layout.Registry.State.{Engine, Registry, Link, delta_version}
use atlas_game_layout.Registry.Conns.{has_port, unregister}
use atlas_game_layout.Registry.Plan.{
  Target, Plan, build_plan, plan_targets, link_ok, commit_send, advance_link, any_full, any_delta,
}
use atlas_game_layout.Registry.Plan.Decide.{IsTarget, plan_targets-IsTarget}
use atlas_game_layout.Registry.Publish.{
  Wire, RawPush, PublishError, Answer, sent, gone, broken, push_failed, raw_push, encode_plan,
  push_target, push_targets, publish_frames, send_plan,
}

module _ {Time : Type 0} ⦃ts : Timestamps Time⦄ where
  -- The link of the battle, if there is one, is a frame of its history under its number.
  abbrev pub IsLinked : (ℕ → Frame Time) → Registry Time → String → Type 0
  IsLinked frames r b =
      (l : Link Time) → lookup b r.links ≡ some l → (l.frame ≡ frames l.seq) × (l.seq + 1 < 2 ^ 64)

  -- A push of the tick of frame n: the frame whole, in the version of the node, or the delta from
  -- the frame before.
  abbrev pub Carries : (ℕ → Frame Time) → Wire Time → ℕ → String → ℕ → RawPush → Type 0
  Carries frames w push_ver b n p =
      ((w.encode_full (record { battle_id = b; frame = frames n }) ≡ some p.payload)
        × (p.ver ≡ push_ver))
      ⊎ ((m : ℕ) × (suc m ≡ n)
          × (w.encode_delta (diff (frames m) (frames n)) ≡ some p.payload)
          × (p.ver ≡ delta_version))

  -- The payloads of a target.
  abbrev Encoded : (ℕ → Frame Time) → Wire Time → String → ℕ → Bytes → Bytes → Target → Type 0
  Encoded frames w b n full delta t =
      (t.full ≡ true → w.encode_full (record { battle_id = b; frame = frames n }) ≡ some full)
      × (t.full ≡ false
          → (m : ℕ) × (suc m ≡ n) × (w.encode_delta (diff (frames m) (frames n)) ≡ some delta))

  raw_push-Carries :
      (frames : ℕ → Frame Time) (en : Engine) (w : Wire Time) (r : Registry Time) (b : String)
      (n seq : ℕ) (full delta : Bytes) (ok : Bool) (targets : List Target)
      → All (Encoded frames w b n full delta) targets
      → All (IsTarget en r seq ok) targets
      → All (λ t. Carries frames w r.push_ver b n (raw_push full delta t)) targets
  raw_push-Carries frames en w r b n seq full delta ok [] enc is = tt
  raw_push-Carries frames en w r b n seq full delta ok (t ∷ rest) enc is = (
    elim is.0.1 [
      | inl (f, v) ↦ inl (rw f (enc.0.0 f), v)
      | inr (f, _, takes) ↦ let (m, e, d) = enc.0.1 f in inr (m, e, rw f d, takes.version)
    ],
    raw_push-Carries frames en w r b n seq full delta ok rest enc.1 is.1,
  )

  push_target-All :
      (P : RawPush → Type 0) (w : Wire Time) (n : ℕ) (full delta : Bytes) (s : Registry Time)
      (t : Target)
      → P (raw_push full delta t)
      → All P (push_target w n full delta s t).2
  unfolding push_target
  push_target-All P w n full delta s t h =
      if_elim (λ (o : Registry Time × Option PublishError × List RawPush). All P o.2)
        (has_port s t.conn) (λ _. answered (w.push_raw (raw_push full delta t))) (λ _. tt)
    where
      answered :
          (a : Answer)
          → All P
              (let o : Registry Time × Option PublishError × List RawPush = elim a [
                | sent ↦
                    (commit_send s t.player_id t.conn n t.full, none, raw_push full delta t ∷ [])
                | gone ↦
                    (unregister s t.player_id t.conn, some push_failed, raw_push full delta t ∷ [])
                | broken ↦ (s, some push_failed, raw_push full delta t ∷ [])
              ] in
                o).2
      answered sent = (h, tt)
      answered gone = (h, tt)
      answered broken = (h, tt)

  push_targets-All :
      (P : RawPush → Type 0) (w : Wire Time) (n : ℕ) (full delta : Bytes) (s : Registry Time)
      (targets : List Target)
      → All (λ t. P (raw_push full delta t)) targets
      → All P (push_targets w n full delta s targets).2
  unfolding push_targets
  push_targets-All P w n full delta s [] h = tt
  push_targets-All P w n full delta s (t ∷ rest) h =
      All-append P (push_target w n full delta s t).2 _ (push_target-All P w n full delta s t h.0)
        (push_targets-All P w n full delta (push_target w n full delta s t).0 rest h.1)

  needed :
      (F D : Type 0) (en : Engine) (r : Registry Time) (n : ℕ) (ok : Bool) (targets : List Target)
      → All (IsTarget en r n ok) targets
      → (any_full targets ≡ true → F)
      → (any_delta targets ≡ true → ok ≡ true → D)
      → All (λ t. (t.full ≡ true → F) × (t.full ≡ false → D)) targets
  needed F D en r n ok [] is f d = tt
  needed F D en r n ok (t ∷ rest) is f d = (
    (λ e. f (ground arith), λ e. d (ground arith) (ground (arith, is.0))),
    needed F D en r n ok rest is.1 (λ e. f (ground arith)) (λ e. d (ground arith)),
  )

  -- What `encodePlan` gives, where it gives something.
  encode_plan-full :
      (w : Wire Time) (b : String) (f : Frame Time) (plan : Plan) (full delta : Bytes)
      → encode_plan w b f plan ≡ some (full, delta)
      → plan.need_full ≡ true
      → w.encode_full (record { battle_id = b; frame = f }) ≡ some full
  unfolding encode_plan
  encode_plan-full w b f plan full delta e h = ground arith

  encode_plan-delta :
      (w : Wire Time) (b : String) (f : Frame Time) (plan : Plan) (full delta : Bytes) (d : Delta)
      → encode_plan w b f plan ≡ some (full, delta)
      → plan.need_delta ≡ true
      → plan.delta ≡ some d
      → w.encode_delta d ≡ some delta
  unfolding encode_plan
  encode_plan-delta w b f plan full delta d e h p = ground arith

  build_plan-Encoded :
      (frames : ℕ → Frame Time) (en : Engine) (w : Wire Time) (r : Registry Time) (b : String)
      (n : ℕ) (players : List String) (full delta : Bytes)
      → IsLinked frames r b
      → (frames n).frame_id ≡ n
      → encode_plan w b (frames n) (build_plan en r b players (frames n)) ≡ some (full, delta)
      → All (Encoded frames w b n full delta) (build_plan en r b players (frames n)).targets
  unfolding build_plan
  build_plan-Encoded frames en w r b n players full delta linked num e =
      needed F D en r (frames n).frame_id ok targets
        (plan_targets-IsTarget en r (frames n).frame_id ok players)
        (λ any. encode_plan-full w b (frames n) plan full delta e any) continued
    where
      plan : Plan
      plan = build_plan en r b players (frames n)

      ok : Bool
      ok = link_ok (lookup b r.links) (frames n).frame_id

      targets : List Target
      targets = plan_targets en r (frames n).frame_id ok players

      F : Type 0
      F = w.encode_full (record { battle_id = b; frame = frames n }) ≡ some full

      D : Type 0
      D = (m : ℕ) × (suc m ≡ n) × (w.encode_delta (diff (frames m) (frames n)) ≡ some delta)

      continued : any_delta targets ≡ true → ok ≡ true → D
      continued any linked_ok = elim (Option-cases (lookup b r.links)) [
        | inl none_yet ↦ absurd (ground arith)
        | inr (l, at) ↦
            let (same, small) = linked l at in
            let delta_is : plan.delta ≡ some (diff l.frame (frames n)) = ground arith in
            let enc = encode_plan-delta w b (frames n) plan full delta _ e any delta_is in
            (l.seq, ground arith, rw (← same) enc)
      ]

  send_plan-Carries :
      (frames : ℕ → Frame Time) (en : Engine) (w : Wire Time) (r : Registry Time) (b : String)
      (n : ℕ) (players : List String)
      → IsLinked frames r b
      → (frames n).frame_id ≡ n
      → let plan = build_plan en r b players (frames n) in
        All
          (Carries frames w r.push_ver b n)
          (send_plan w r plan (encode_plan w b (frames n) plan)).2
  unfolding build_plan
  send_plan-Carries frames en w r b n players linked num =
      elim (Option-cases (encode_plan w b (frames n) plan)) [
        | inl e ↦ rw e tt
        | inr ((full, delta), e) ↦ rw e (
            push_targets-All (Carries frames w r.push_ver b n) w plan.seq full delta r plan.targets
              (raw_push-Carries frames en w r b n (frames n).frame_id full delta ok plan.targets
                (build_plan-Encoded frames en w r b n players full delta linked num e)
                (plan_targets-IsTarget en r (frames n).frame_id ok players)))
      ]
    where
      plan : Plan
      plan = build_plan en r b players (frames n)

      ok : Bool
      ok = link_ok (lookup b r.links) (frames n).frame_id

  advance_link-IsLinked :
      (frames : ℕ → Frame Time) (r : Registry Time) (b : String) (n : ℕ)
      → (frames n).frame_id ≡ n
      → n + 1 < 2 ^ 64
      → IsLinked frames (advance_link r b (frames n)) b
  unfolding advance_link
  advance_link-IsLinked frames r b n num small l at =
      let new : Link Time = record { frame = frames n; seq = (frames n).frame_id } in
      let same : l ≡ new = ground (arith, str_iff b b, lookup-insert b b new r.links) in
      rw same (ap frames (sym num), omega (arith, num))

  -- Where the link of a battle, if it has one, is the frame of its number: on the tick of frame n,
  -- below 2^64, every push carries the whole frame n in the version of the node, or the delta from
  -- frame n - 1, whatever the answers to the pushes are; and the link is the frame of its number
  -- again.
  pub publish_frames-Carries :
      (frames : ℕ → Frame Time) (en : Engine) (w : Wire Time) (r : Registry Time) (b : String)
      (n : ℕ) (players : List String)
      → IsLinked frames r b
      → (frames n).frame_id ≡ n
      → n + 1 < 2 ^ 64
      → let (r', _, pushes) = publish_frames en w r b players (frames n) in
        All (Carries frames w r.push_ver b n) pushes × IsLinked frames r' b
  unfolding publish_frames
  publish_frames-Carries frames en w r b n [] linked num small = (tt, linked)
  publish_frames-Carries frames en w r b n (p ∷ ps) linked num small =
      on_targets (build_plan en r b (p ∷ ps) (frames n)).targets
    where
      plan : Plan
      plan = build_plan en r b (p ∷ ps) (frames n)

      sent_plan : Registry Time × Option PublishError × List RawPush
      sent_plan = send_plan w r plan (encode_plan w b (frames n) plan)

      Out : Registry Time × Option PublishError × List RawPush → Type 0
      Out o = All (Carries frames w r.push_ver b n) o.2 × IsLinked frames o.0 b

      on_targets :
          (targets : List Target)
          → Out (elim targets [
            | [] ↦ (advance_link r b (frames n), none, [])
            | t ∷ rest ↦ (advance_link sent_plan.0 b (frames n), sent_plan.1, sent_plan.2)
          ])
      on_targets [] = (tt, advance_link-IsLinked frames r b n num small)
      on_targets (t ∷ rest) = (
        send_plan-Carries frames en w r b n (p ∷ ps) linked num,
        advance_link-IsLinked frames sent_plan.0 b n num small,
      )
