-- ===== src/Registry/Plan.antt =====
-- What each connection is sent on a tick, and the payload version that it is sent in: the
-- registry's methods in delta.go. The version numbers are those of `FramePayloadVersion`, which
-- are the versions of the frame header.
pub mod Decide
pub mod Targets
pub mod Keyframes
pub mod Negotiate
use atlas_game_layout.Common.{
  ℕ, ◌+◌, ◌-◌, ◌%◌, ◌^◌, ◌≤◌, String, Bool, true, false, not, ◌&&◌, ◌||◌, List, [], ◌∷◌, Option,
  none, some, Map, lookup, insert, is_some, ◌==◌, nat_key, string_key, ltb, leb, if◌then◌else◌,
}
use atlas_game_layout.Frame.{Timestamps, Frame, Delta}
use atlas_game_layout.Delta.{diff}
use atlas_game_layout.Registry.State.{
  Engine, Conn, ClientState, new_client_state, Link, Registry, unspecified, protojson, protobuf,
  delta_version, conn_key,
}

-- `isDatagram`.
abbrev pub is_datagram : Engine → String → Bool
is_datagram en kind = kind == en.udp

pub record Target : Type 0 where
  pub player_id : String
  pub conn : Conn
  pub ver : ℕ
  pub full : Bool

pub record Plan : Type 0 where
  pub seq : ℕ
  pub targets : List Target
  pub need_full : Bool
  pub need_delta : Bool
  pub delta : Option Delta

-- `a + 1` on `uint64`.
abbrev pub next_u64 : ℕ → ℕ
next_u64 n = (n + 1) % 2 ^ 64

-- The test of `decide` on the state of the connection.
abbrev negotiated : Option ClientState → Bool
negotiated none = false
negotiated (some st) = st.payload_ver == delta_version

abbrev stale : Option ClientState → ℕ → Bool
stale none seq = true
stale (some st) seq = not (next_u64 st.last_seq == seq) || st.keyframe_requested

module _ {Time : Type 0} where
  -- `decide`: whether the connection gets the whole frame; the version follows.
  unfoldable pub decide_full :
      Engine → Registry Time → String → Option ClientState → ℕ → Bool → Bool
  decide_full en r kind st seq link_ok =
      if not r.delta || (is_datagram en kind || not (negotiated st))
      then true
      else let periodic = ltb 0 r.key_every && seq % r.key_every == 0 in
        not link_ok || (stale st seq || periodic)

  unfoldable pub decide : Engine → Registry Time → String → Option ClientState → ℕ → Bool → ℕ × Bool
  unfolding decide_full
  decide en r kind st seq link_ok =
      if decide_full en r kind st seq link_ok then (r.push_ver, true) else (delta_version, false)

  abbrev pub link_ok : Option (Link Time) → ℕ → Bool
  link_ok none seq = false
  link_ok (some l) seq = next_u64 l.seq == seq

  -- The loop of `buildPlan`: a player with no connection is no target.
  unfoldable pub plan_targets : Engine → Registry Time → ℕ → Bool → List String → List Target
  unfolding decide
  plan_targets en r seq ok [] = []
  plan_targets en r seq ok (player_id ∷ rest) =
      let targets = plan_targets en r seq ok rest in
      elim (lookup player_id r.conns) [
        | none ↦ targets
        | some c ↦
            let (ver, full) = decide en r c.kind (lookup player_id r.states) seq ok in
            record { player_id = player_id; conn = c; ver = ver; full = full } ∷ targets
      ]

abbrev pub any_full : List Target → Bool
any_full [] = false
any_full (t ∷ ts) = t.full || any_full ts

abbrev pub any_delta : List Target → Bool
any_delta [] = false
any_delta (t ∷ ts) = not t.full || any_delta ts

module _ {Time : Type 0} ⦃ts : Timestamps Time⦄ where
  -- `diffFrames(link.frame, f)`; without a link no target takes a delta.
  abbrev pub plan_delta : Option (Link Time) → Frame Time → Bool → Option Delta
  plan_delta none f need = none
  plan_delta (some l) f need = if need then some (diff l.frame f) else none

  -- `buildPlan`.
  unfoldable pub build_plan : Engine → Registry Time → String → List String → Frame Time → Plan
  build_plan en r battle_id players f =
      let link = lookup battle_id r.links in
      let targets = plan_targets en r f.frame_id (link_ok link f.frame_id) players in
      record {
        seq = f.frame_id;
        targets = targets;
        need_full = any_full targets;
        need_delta = any_delta targets;
        delta = plan_delta link f (any_delta targets);
      }

abbrev pub state_or_new : Option ClientState → ClientState
state_or_new none = new_client_state
state_or_new (some st) = st

abbrev pub is_current : Option Conn → Conn → Bool
is_current none c = false
is_current (some cur) c = cur == c

module _ {Time : Type 0} where
  -- `commitSend`.
  unfoldable pub commit_send : Registry Time → String → Conn → ℕ → Bool → Registry Time
  commit_send r player_id c seq full =
      let st = state_or_new (lookup player_id r.states) in
      if is_current (lookup player_id r.conns) c
      then record r {
        states =
            insert player_id
              (record st {
                last_seq = seq;
                keyframe_requested = if full then false else st.keyframe_requested;
              })
              r.states;
      }
      else r

  -- `advanceLink`.
  unfoldable pub advance_link : Registry Time → String → Frame Time → Registry Time
  advance_link r battle_id f = record r {
    links = insert battle_id (record { frame = f; seq = f.frame_id }) r.links;
  }

-- The loop of `highestAllowed`.
unfoldable pub highest : ℕ → ℕ → List ℕ → ℕ
highest best allowed [] = best
highest best allowed (v ∷ vs) = highest (if ltb best v && leb v allowed then v else best) allowed vs

unfoldable pub highest_allowed : List ℕ → ℕ → ℕ
unfolding highest
highest_allowed [] allowed = protojson
highest_allowed (v ∷ vs) allowed =
    let best = highest unspecified allowed (v ∷ vs) in
    if best == unspecified then protojson else best

-- `versionOfVer`.
unfoldable pub version_of_ver : ℕ → ℕ
version_of_ver ver = if ver == 3 then delta_version else if ver == 2 then protobuf else protojson

abbrev pub takes_delta : Engine → Option Conn → Bool
takes_delta en none = false
takes_delta en (some c) = not (is_datagram en c.kind)

-- Whether the last request is less than the interval ago.
abbrev too_soon : Option ℕ → ℕ → ℕ → Bool
too_soon none now interval = false
too_soon (some last) now interval = ltb (now - last) interval

module _ {Time : Type 0} where
  -- `allowedVersion`.
  unfoldable pub allowed_version : Registry Time → ℕ
  unfolding version_of_ver
  allowed_version r = if r.delta then delta_version else version_of_ver r.push_ver

  -- The version that is agreed on.
  unfoldable pub agreed : Engine → Registry Time → String → List ℕ → ℕ
  unfolding highest_allowed allowed_version
  agreed en r player_id accepted =
      let best = highest_allowed accepted (allowed_version r) in
      if best == delta_version
      then (if takes_delta en (lookup player_id r.conns) then best else protobuf)
      else best

  -- `NegotiatePayloadVersion`.
  unfoldable pub negotiate : Engine → Registry Time → String → List ℕ → Registry Time × ℕ
  unfolding agreed
  negotiate en r player_id accepted =
      let best = agreed en r player_id accepted in
      let st = state_or_new (lookup player_id r.states) in
      (record r { states = insert player_id (record st { payload_ver = best }) r.states }, best)

  -- `RequestKeyframe`, on a clock that does not run backwards.
  unfoldable pub request_keyframe : Registry Time → ℕ → String → Registry Time × Bool
  request_keyframe r now player_id =
      let st = state_or_new (lookup player_id r.states) in
      if not r.delta
      then (r, false)
      else if not (is_some (lookup player_id r.conns))
      then (r, false)
      else if too_soon st.last_keyframe_req now r.key_interval
      then (record r { states = insert player_id st r.states }, false)
      else (
        record r {
          states =
              insert player_id
                (record st { last_keyframe_req = some now; keyframe_requested = true }) r.states;
        },
        true,
      )
