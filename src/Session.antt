-- ===== src/Session.antt =====
-- The sessions of a gateway, services/gateway/internal/session. The route table in Redis is a
-- parameter: a type of its states with the four commands, of which each may fail. Times are
-- nanoseconds and the clock is an argument; what a connection sends is left out.
pub mod Index
pub mod Takeover
pub mod Expiry
pub mod Sweep
pub mod Routes
use atlas_game_layout.Common.{
  ℕ, ◌+◌, ◌*◌, ◌/◌, String, Bool, true, false, not, ◌&&◌, ◌||◌, List, [], ◌∷◌, Option, none, some,
  Map, lookup, insert, delete, is_some, length, ◌==◌, nat_key, string_key, ltb, if◌then◌else◌,
}

pub record Route : Type 0 where
  pub instance_id : String
  pub token : String
  pub conn_id : ℕ
  pub kind : String
  pub updated_at : ℕ

pub record Conn : Type 0 where
  pub id : ℕ
  pub kind : String
  pub ref : String

pub record Session : Type 0 where
  pub player_id : String
  pub token : String
  pub conn : Option Conn
  pub last_heartbeat : ℕ

-- `Store`. `get` gives `none` on an error, and `some none` where there is no route; `get_set`
-- gives the route before, in the same way.
pub record Store (S : Type 0) : Type 0 where
  pub get_set : S → String → Route → ℕ → S × Option (Option Route)
  pub get : S → String → Option (Option Route)
  pub remove : S → String → S
  pub expire : S → String → ℕ → S × Bool

pub record Manager : Type 0 where
  pub instance_id : String
  pub ttl : ℕ
  pub sweep_interval : ℕ
  pub local : Map String Session
  pub refs : Map String String
  pub toks : Map String String

-- `Options.resolve`, for times that are not negative; the default lifetime is a parameter.
unfoldable pub resolve_ttl : ℕ → ℕ → ℕ
resolve_ttl default_ttl ttl = if ttl == 0 then default_ttl else ttl

abbrev pub min_sweep_interval : ℕ
min_sweep_interval = 1000000

unfoldable pub resolve_sweep : ℕ → ℕ → ℕ
resolve_sweep ttl interval =
    let sweep = if interval == 0 then ttl / 2 else interval in
    if ltb sweep min_sweep_interval then min_sweep_interval else sweep

-- `NewManager`.
unfoldable pub new_manager : ℕ → String → ℕ → ℕ → Manager
unfolding resolve_ttl resolve_sweep
new_manager default_ttl instance_id ttl interval =
    let effective = resolve_ttl default_ttl ttl in
    record {
      instance_id = instance_id;
      ttl = effective;
      sweep_interval = resolve_sweep effective interval;
      local = [];
      refs = [];
      toks = [];
    }

-- The identity of the connection of a session: empty where it has none.
abbrev pub ref_of : Session → String
ref_of s = elim s.conn [ none ↦ "" | some c ↦ c.ref ]

-- `dropStaleRefs`.
unfoldable pub drop_stale_refs : Map String String → Option Session → Session → Map String String
drop_stale_refs refs none next = refs
drop_stale_refs refs (some prev) next =
    if ref_of prev == ""
    then refs
    else if is_some next.conn && ref_of next == ref_of prev
    then refs
    else delete (ref_of prev) refs

-- `tokenIndexRemove` and `tokenIndexSet`.
unfoldable pub token_index_remove : Map String String → String → Map String String
token_index_remove toks token = if token == "" then toks else delete token toks

unfoldable pub token_index_set : Map String String → Session → Map String String
token_index_set toks s = if s.token == "" then toks else insert s.token s.player_id toks

abbrev pub drop_old_token : Map String String → Option Session → String → Map String String
drop_old_token toks none token = toks
drop_old_token toks (some prev) token =
    if prev.token == token then toks else token_index_remove toks prev.token

-- `bindLocal`: the new manager and the new session.
unfoldable pub bind_local : Manager → String → Conn → String → ℕ → Manager × Session
unfolding drop_stale_refs token_index_set token_index_remove
bind_local m player_id c token now =
    let prev = lookup player_id m.local in
    let next : Session = record {
      player_id = player_id;
      token = token;
      conn = some c;
      last_heartbeat = now;
    } in
    let refs = drop_stale_refs m.refs prev next in
    (
      record m {
        local = insert player_id next m.local;
        refs = if c.ref == "" then refs else insert c.ref player_id refs;
        toks = token_index_set (drop_old_token m.toks prev token) next;
      },
      next,
    )

abbrev pub conn_id_of : Option Conn → ℕ
conn_id_of none = 0
conn_id_of (some c) = c.id

abbrev kind_of : Option Conn → String
kind_of none = ""
kind_of (some c) = c.kind

-- The route that `persistRoute` writes; `UnixMilli` of a time in nanoseconds.
abbrev pub route_of : Manager → Session → ℕ → Route
route_of m s now = record {
  instance_id = m.instance_id;
  token = s.token;
  conn_id = conn_id_of s.conn;
  kind = kind_of s.conn;
  updated_at = now / 1000000;
}

pub data BindError : Type 0 where
  empty_player_or_conn empty_token store_failed : BindError

pub data BindResult : Type 0 where
  bound : Option Route → BindResult
  refused : BindError → BindResult

module _ {S : Type 0} (store : Store S) where
  -- `persistRoute`.
  unfoldable pub persist_route : S → Manager → Session → ℕ → S × BindResult
  persist_route s m next now =
      let (s', old) = store.get_set s next.player_id (route_of m next now) m.ttl in
      (s', elim old [ none ↦ refused store_failed | some r ↦ bound r ])

  -- `Bind`.
  unfoldable pub bind : S → Manager → String → Option Conn → String → ℕ → S × Manager × BindResult
  unfolding bind_local persist_route
  bind s m player_id none token now = (s, m, refused empty_player_or_conn)
  bind s m player_id (some c) token now =
      if player_id == ""
      then (s, m, refused empty_player_or_conn)
      else if token == ""
      then (s, m, refused empty_token)
      else let (m', next) = bind_local m player_id c token now in
        let (s', r) = persist_route s m' next now in (s', m', r)

  abbrev pub owns : Manager → ℕ → Route → Bool
  owns m conn_id r = r.instance_id == m.instance_id && r.conn_id == conn_id

  -- `deleteRouteIfOwned`.
  unfoldable pub delete_route_if_owned : S → Manager → String → ℕ → S
  delete_route_if_owned s m player_id conn_id = elim (store.get s player_id) [
    | none ↦ s
    | some o ↦ elim o [
      | none ↦ s
      | some r ↦ if owns m conn_id r then store.remove s player_id else s
    ]
  ]

  -- `routeTakenOver`.
  unfoldable pub route_taken_over : S → Manager → String → ℕ → Bool
  route_taken_over s m player_id conn_id = elim (store.get s player_id) [
    | none ↦ false
    | some o ↦ elim o [ none ↦ false | some r ↦ not (owns m conn_id r) ]
  ]

-- `dropConnRefs`.
unfoldable pub drop_conn_refs : Map String String → Session → Map String String
drop_conn_refs refs s = if ref_of s == "" then refs else delete (ref_of s) refs

-- A session goes, with what the two indexes hold of it.
unfoldable pub drop_session : Manager → String → Session → Manager
unfolding drop_conn_refs token_index_remove
drop_session m player_id s = record m {
  local = delete player_id m.local;
  refs = drop_conn_refs m.refs s;
  toks = token_index_remove m.toks s.token;
}

abbrev pub on_conn : Option Conn → ℕ → Bool
on_conn none conn_id = false
on_conn (some c) conn_id = c.id == conn_id

module _ {S : Type 0} (store : Store S) where
  -- `Unbind`.
  unfoldable pub unbind : S → Manager → String → ℕ → S × Manager
  unfolding drop_session delete_route_if_owned
  unbind s m player_id conn_id = elim (lookup player_id m.local) [
    | none ↦ (s, m)
    | some sess ↦
        if on_conn sess.conn conn_id
        then (delete_route_if_owned store s m player_id conn_id, drop_session m player_id sess)
        else (s, m)
  ]

  -- `Heartbeat`.
  unfoldable pub heartbeat : S → Manager → String → String → ℕ → S × Manager × Bool
  heartbeat s m player_id token now = elim (lookup player_id m.local) [
    | none ↦ (s, m, false)
    | some sess ↦
        let beaten : Session = record sess { last_heartbeat = now } in
        let (s', renewed) = store.expire s player_id m.ttl in
        if sess.token == token
        then (s', record m { local = insert player_id beaten m.local }, renewed)
        else (s, m, false)
  ]

  -- `Validate`: `none` is the error.
  unfoldable pub validate : S → String → String → Option Bool
  validate s player_id token = elim (store.get s player_id) [
    | none ↦ none
    | some o ↦ elim o [
      | none ↦ some false
      | some r ↦ if r.token == "" then some false else some (r.token == token)
    ]
  ]

-- `PlayerByRef` and `PlayerByToken`.
unfoldable pub player_by_ref : Manager → String → Option String
player_by_ref m ref = if ref == "" then none else lookup ref m.refs

unfoldable pub player_by_token : Manager → String → Option String
player_by_token m token = if token == "" then none else lookup token m.toks

-- `LocalSession` and `Count`.
unfoldable pub local_session : Manager → String → Option Session
local_session m player_id = lookup player_id m.local

unfoldable pub count : Manager → ℕ
count m = length m.local

-- The connection that `PushRaw` sends on: `none` is `ErrSessionNotFound`.
unfoldable pub push_target : Manager → String → Option Conn
push_target m player_id = elim (lookup player_id m.local) [ none ↦ none | some s ↦ s.conn ]
