-- ===== src/Registry/State.antt =====
-- The state of the registry. Times are nanoseconds, and the clock is an argument. What the frame
-- engine and the codecs do is a parameter: the kind of the datagram face, the decimal form of a
-- connection id, what a push answers, what an encoder gives.
use atlas_game_layout.Common.{
  ℕ, ◌*◌, String, Bool, true, false, ◌&&◌, List, [], Option, none, some, ◌≡◌, ◌↔◌, Map, Key, ◌==◌,
  nat_key, string_key, str_iff, if◌then◌else◌, arith,
}
use atlas_game_layout.Frame.{Frame}
use atlas_game_layout.EndedBook.{EndedBook, new_ended_book}

-- `transport.KindUDP` and `strconv.FormatUint`.
pub record Engine : Type 0 where
  pub udp : String
  pub format_uint : ℕ → String

pub record Endpoint : Type 0 where
  pub kind : String
  pub id : String

-- A connection is compared by its four fields.
pub record Conn : Type 0 where
  pub kind : String
  pub conn_id : ℕ
  pub peer : String
  pub battle_id : String

abbrev endpoint_beq : Endpoint → Endpoint → Bool
endpoint_beq a b = (a.kind == b.kind) && (a.id == b.id)

pub endpoint_beq_iff : (a b : Endpoint) → (endpoint_beq a b ≡ true) ↔ (a ≡ b)
endpoint_beq_iff a b = ground (arith, str_iff a.kind b.kind, str_iff a.id b.id)

instance abbrev pub endpoint_key : Key Endpoint
endpoint_key = record { beq = endpoint_beq; beq_iff = endpoint_beq_iff }

abbrev conn_beq : Conn → Conn → Bool
conn_beq a b =
    (a.kind == b.kind)
    && ((a.conn_id == b.conn_id) && ((a.peer == b.peer) && (a.battle_id == b.battle_id)))

pub conn_beq_iff : (a b : Conn) → (conn_beq a b ≡ true) ↔ (a ≡ b)
conn_beq_iff a b =
    ground (arith, str_iff a.kind b.kind, str_iff a.peer b.peer, str_iff a.battle_id b.battle_id)

instance abbrev pub conn_key : Key Conn
conn_key = record { beq = conn_beq; beq_iff = conn_beq_iff }

-- `Conn.Endpoint`.
unfoldable pub endpoint : Engine → Conn → Endpoint
endpoint en c =
    if c.peer == ""
    then record { kind = c.kind; id = en.format_uint c.conn_id }
    else record { kind = c.kind; id = c.peer }

-- `FramePayloadVersion` by its numbers.
abbrev pub unspecified : ℕ
unspecified = 0

abbrev pub protojson : ℕ
protojson = 1

abbrev pub protobuf : ℕ
protobuf = 2

abbrev pub delta_version : ℕ
delta_version = 3

-- `last_keyframe_req` is `none` for the zero time.
pub record ClientState : Type 0 where
  pub last_seq : ℕ
  pub payload_ver : ℕ
  pub keyframe_requested : Bool
  pub last_keyframe_req : Option ℕ

abbrev pub new_client_state : ClientState
new_client_state = record {
  last_seq = 0;
  payload_ver = unspecified;
  keyframe_requested = false;
  last_keyframe_req = none;
}

pub record EndpointRef : Type 0 where
  pub player_id : String
  pub battle_id : String

pub record Link (Time : Type 0) : Type 0 where
  pub frame : Frame Time
  pub seq : ℕ

pub record Registry (Time : Type 0) : Type 0 where
  pub conns : Map String Conn
  pub endpoints : Map Endpoint EndpointRef
  -- The kinds that have a port.
  pub ports : List String
  pub ended : EndedBook
  pub push_ver : ℕ
  pub delta : Bool
  pub key_every : ℕ
  pub key_interval : ℕ
  pub links : Map String (Link Time)
  pub states : Map String ClientState

-- 300 ticks, and 200 ms.
abbrev pub default_keyframe_every : ℕ
default_keyframe_every = 300

abbrev pub default_keyframe_interval : ℕ
default_keyframe_interval = 200 * 1000000

pub record DeltaConfig : Type 0 where
  pub keyframe_every : ℕ
  pub keyframe_min_interval : ℕ

unfoldable pub effective_every : DeltaConfig → ℕ
effective_every c = if c.keyframe_every == 0 then default_keyframe_every else c.keyframe_every

-- For intervals that are not negative.
unfoldable pub effective_interval : DeltaConfig → ℕ
effective_interval c =
    if c.keyframe_min_interval == 0 then default_keyframe_interval else c.keyframe_min_interval

module _ {Time : Type 0} where
  -- `NewRegistryWithTTL`.
  unfoldable pub new_registry : ℕ → Registry Time
  new_registry ttl = record {
    conns = [];
    endpoints = [];
    ports = [];
    ended = new_ended_book ttl;
    push_ver = 1;
    delta = false;
    key_every = 0;
    key_interval = 0;
    links = [];
    states = [];
  }

  -- `NewRegistryWithEncoding`, for an encoder that is there: `none` is the error.
  unfoldable pub new_registry_encoding : ℕ → ℕ → Option (Registry Time)
  unfolding new_registry
  new_registry_encoding ttl ver =
      if ver == 1
      then some (record (new_registry ttl) { push_ver = ver })
      else if ver == 2
      then some (record (new_registry ttl) { push_ver = ver })
      else none

  -- `NewRegistryProtobuf`.
  unfoldable pub new_registry_protobuf : ℕ → Option (Registry Time)
  unfolding new_registry_encoding
  new_registry_protobuf ttl = new_registry_encoding ttl 2

  -- `NewRegistryDelta`.
  unfoldable pub new_registry_delta : ℕ → DeltaConfig → Option (Registry Time)
  unfolding new_registry_protobuf effective_every effective_interval
  new_registry_delta ttl cfg = elim (new_registry_protobuf ttl) [
    | none ↦ none
    | some r ↦ some (record r {
      delta = true;
      key_every = effective_every cfg;
      key_interval = effective_interval cfg;
    })
  ]
