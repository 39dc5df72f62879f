-- ===== src/Registry/Publish.antt =====
-- One tick: `PublishFrames` of registry.go and what it calls. What a push answers and what the
-- encoder gives are parameters; the raw pushes are listed in order.
pub mod Links
pub mod Targets
use atlas_game_layout.Common.{
  ℕ, String, Bool, true, false, List, [], ◌∷◌, ◌++◌, Option, none, some, Bytes, lookup, string_key,
  if◌then◌else◌,
}
use atlas_game_layout.Frame.{Timestamps, Frame, Broadcast, Delta}
use atlas_game_layout.Registry.State.{Engine, Conn, Registry}
use atlas_game_layout.Registry.Conns.{has_port, unregister}
use atlas_game_layout.Registry.Plan.{Target, Plan, build_plan, commit_send, advance_link}

-- What `Port.PushRaw` answers: sent, the connection or the peer is not there any more, or another
-- error.
pub data Answer : Type 0 where
  sent gone broken : Answer

pub data PublishError : Type 0 where
  encode_failed no_port push_failed : PublishError

pub record RawPush : Type 0 where
  pub conn : Conn
  pub payload : Bytes
  pub ver : ℕ

-- The `Encoder` at the two messages, and `PushRaw`.
pub record Wire (Time : Type 0) : Type 0 where
  pub encode_full : Broadcast Time → Option Bytes
  pub encode_delta : Delta → Option Bytes
  pub push_raw : RawPush → Answer

abbrev pub raw_push : Bytes → Bytes → Target → RawPush
raw_push full delta t = record {
  conn = t.conn;
  payload = if t.full then full else delta;
  ver = t.ver;
}

-- The error of the loop is that of the first target that fails.
abbrev first_error : Option PublishError → Option PublishError → Option PublishError
first_error none e = e
first_error (some e) e' = some e

module _ {Time : Type 0} where
  -- The encoded payloads, empty where the plan does not need them; `none` is the error.
  abbrev encode_delta_of : Wire Time → Plan → Option Bytes
  encode_delta_of w plan =
      if plan.need_delta
      then elim plan.delta [ none ↦ none | some d ↦ w.encode_delta d ]
      else some []

  -- `encodePlan`.
  unfoldable pub encode_plan : Wire Time → String → Frame Time → Plan → Option (Bytes × Bytes)
  encode_plan w battle_id f plan =
      let full =
        if plan.need_full
        then w.encode_full (record { battle_id = battle_id; frame = f })
        else some [] in
      elim full [
        | none ↦ none
        | some bytes ↦ elim (encode_delta_of w plan) [
          | none ↦ none
          | some delta ↦ some (bytes, delta)
        ]
      ]

  -- One target of the loop: the push, and the book-keeping after it.
  unfoldable pub push_target :
      Wire Time
      → ℕ
      → Bytes
      → Bytes
      → Registry Time
      → Target
      → Registry Time × Option PublishError × List RawPush
  unfolding unregister commit_send
  push_target w seq full delta r t =
      let p : RawPush = record {
        conn = t.conn;
        payload = if t.full then full else delta;
        ver = t.ver;
      } in
      if has_port r t.conn
      then elim (w.push_raw p) [
        | sent ↦ (commit_send r t.player_id t.conn seq t.full, none, p ∷ [])
        | gone ↦ (unregister r t.player_id t.conn, some push_failed, p ∷ [])
        | broken ↦ (r, some push_failed, p ∷ [])
      ]
      else (r, some no_port, [])

  unfoldable pub push_targets :
      Wire Time
      → ℕ
      → Bytes
      → Bytes
      → Registry Time
      → List Target
      → Registry Time × Option PublishError × List RawPush
  push_targets w seq full delta r [] = (r, none, [])
  push_targets w seq full delta r (t ∷ rest) =
      let (r', e, ps) = push_target w seq full delta r t in
      let (r'', e', ps') = push_targets w seq full delta r' rest in
      (r'', first_error e e', ps ++ ps')

module _ {Time : Type 0} ⦃ts : Timestamps Time⦄ where
  abbrev pub send_plan :
      Wire Time
      → Registry Time
      → Plan
      → Option (Bytes × Bytes)
      → Registry Time × Option PublishError × List RawPush
  send_plan w r plan none = (r, some encode_failed, [])
  send_plan w r plan (some (full, delta)) = push_targets w plan.seq full delta r plan.targets

  -- `PublishFrames`: the link moves on also where nothing was sent.
  unfoldable pub publish_frames :
      Engine
      → Wire Time
      → Registry Time
      → String
      → List String
      → Frame Time
      → Registry Time × Option PublishError × List RawPush
  unfolding build_plan encode_plan push_targets advance_link
  publish_frames en w r battle_id [] f = (r, none, [])
  publish_frames en w r battle_id (p ∷ ps) f =
      let plan = build_plan en r battle_id (p ∷ ps) f in
      elim plan.targets [
        | [] ↦ (advance_link r battle_id f, none, [])
        | t ∷ ts ↦
            let (r', e, pushes) = send_plan w r plan (encode_plan w battle_id f plan) in
            (advance_link r' battle_id f, e, pushes)
      ]

module _ {Time : Type 0} where
  -- `pushConn`, with the answer of the send function: nothing is sent to a player with no
  -- connection, which is no error.
  unfoldable pub push_conn :
      Registry Time → String → (Conn → Answer) → Registry Time × Option PublishError
  unfolding unregister
  push_conn r player_id send = elim (lookup player_id r.conns) [
    | none ↦ (r, none)
    | some c ↦
        if has_port r c
        then elim (send c) [
          | sent ↦ (r, none)
          | gone ↦ (unregister r player_id c, some push_failed)
          | broken ↦ (r, some push_failed)
        ]
        else (r, some no_port)
  ]
