-- ===== src/Placement/Candidates.antt =====
-- The candidates of a placement, services/matcher/internal/placement: `query` and what it calls in
-- placement.go and frames.go, and the filter of target.go. The lists of the registry, `url.Parse`
-- and the filter that prefers the own host are arguments.
use atlas_game_layout.Common.{
  ℕ, String, Bool, true, false, not, List, [], ◌∷◌, Option, none, some, length, member, leb, ◌==◌,
  ◌&&◌, ◌||◌, nat_key, string_key, if◌then◌else◌,
}

-- What the source reads of `registry.ServiceInstance`.
pub record ServiceInstance : Type 0 where
  pub id : String
  pub endpoints : List String

-- What the source makes of an instance, a `selector.Node`.
pub record Node : Type 0 where
  pub node_address : String
  pub instance_id : String

-- `url.Parse`: the scheme and the host.
abbrev pub Parse : Type 0
Parse = String → Option (String × String)

-- `grpcAddr`.
abbrev pub grpc_host : Option (String × String) → Option String
grpc_host none = none
grpc_host (some (scheme, host)) = if (scheme == "grpc") && not (host == "") then some host else none

abbrev pub or_next : Option String → Option String → Option String
or_next none next = next
or_next (some host) next = some host

unfoldable pub grpc_addr : Parse → List String → Option String
grpc_addr parse [] = none
grpc_addr parse (ep ∷ eps) = or_next (grpc_host (parse ep)) (grpc_addr parse eps)

-- Whether an instance may be taken: `ready` is none where the frame faces are not asked for.
abbrev pub is_allowed : Option (List String) → ServiceInstance → Bool
is_allowed none si = true
is_allowed (some ids) si = member si.id ids

-- `nodesOf`.
abbrev pub node_of : ServiceInstance → Option String → List Node → List Node
node_of si none rest = rest
node_of si (some addr) rest = record { node_address = addr; instance_id = si.id } ∷ rest

unfoldable pub nodes_of : Parse → List (Option ServiceInstance) → Option (List String) → List Node
unfolding grpc_addr
nodes_of parse [] ready = []
nodes_of parse (none ∷ list) ready = nodes_of parse list ready
nodes_of parse (some si ∷ list) ready =
    let rest = nodes_of parse list ready in
    if is_allowed ready si then node_of si (grpc_addr parse si.endpoints) rest else rest

-- `localFirst`.
abbrev pub Filter : Type 0
Filter = Option (List Node → List Node)

unfoldable pub local_first : Filter → List Node → List Node
local_first none nodes = nodes
local_first (some f) [] = []
local_first (some f) (n ∷ nodes) = f (n ∷ nodes)

-- `frameSchemes`.
abbrev pub frame_schemes : List String
frame_schemes = "ws" ∷ "kcp" ∷ "udp" ∷ []

-- `hasFrameFace`.
abbrev pub is_frame : Option (String × String) → Bool
is_frame none = false
is_frame (some (scheme, host)) = not (host == "") && member scheme frame_schemes

unfoldable pub has_frame_face : Parse → List String → Bool
has_frame_face parse [] = false
has_frame_face parse (ep ∷ eps) = is_frame (parse ep) || has_frame_face parse eps

-- The loop of `frameReady`: the instances with a frame face, here with doubles.
unfoldable pub frame_ids : Parse → List (Option ServiceInstance) → List String
unfolding has_frame_face
frame_ids parse [] = []
frame_ids parse (none ∷ list) = frame_ids parse list
frame_ids parse (some si ∷ list) =
    let rest = frame_ids parse list in
    if has_frame_face parse si.endpoints then si.id ∷ rest else rest

abbrev pub unless_empty : List String → Option (List String)
unless_empty [] = none
unless_empty (id ∷ ids) = some (id ∷ ids)

-- `frameReady`, of the registry's list of frame instances, none for an error.
unfoldable pub frame_ready : Parse → Option (List (Option ServiceInstance)) → Option (List String)
unfolding frame_ids
frame_ready parse none = none
frame_ready parse (some list) = unless_empty (frame_ids parse list)

-- `candidateSet`.
pub record CandidateSet : Type 0 where
  pub nodes : List Node
  pub registered : ℕ

-- `ready`.
unfoldable pub is_ready : CandidateSet → Bool
is_ready c = leb c.registered (length c.nodes)

-- `sig`.
abbrev append : String → String → String
append String.[] t = t
append (String.◌∷◌ c s) t = String.◌∷◌ c (append s t)

abbrev join_after : String → List Node → String
join_after s [] = s
join_after s (n ∷ nodes) = join_after (append s (append "," n.node_address)) nodes

unfoldable pub sig : List Node → String
sig [] = ""
sig (n ∷ nodes) = join_after n.node_address nodes

-- `query`, of the two lists of the registry, none for an error.
abbrev pub or_all : List Node → List Node → List Node
or_all [] eligible = eligible
or_all (n ∷ nodes) eligible = n ∷ nodes

abbrev pub faced :
    Parse → Filter → List (Option ServiceInstance) → Option (List String) → List Node → List Node
faced parse local list none eligible = eligible
faced parse local list (some ids) eligible =
    or_all (local_first local (nodes_of parse list (some ids))) eligible

unfoldable pub query :
    Parse
    → Filter
    → Option (List (Option ServiceInstance))
    → Option (List (Option ServiceInstance))
    → Option CandidateSet
unfolding frame_ready
query parse local none frames = none
query parse local (some list) frames =
    let eligible = local_first local (nodes_of parse list none) in
    some (record {
      nodes = faced parse local list (frame_ready parse frames) eligible;
      registered = length eligible;
    })

-- `TargetFilter`, of the target that the context carries, empty where there is none.
abbrev pub only_at : String → List Node → Option Node
only_at addr [] = none
only_at addr (n ∷ nodes) =
    let rest = only_at addr nodes in if n.node_address == addr then some n else rest

abbrev pub or_keep : Option Node → List Node → List Node
or_keep none nodes = nodes
or_keep (some n) nodes = n ∷ []

unfoldable pub target_filter : String → List Node → List Node
target_filter target nodes = if target == "" then nodes else or_keep (only_at target nodes) nodes
