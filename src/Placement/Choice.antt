-- ===== src/Placement/Choice.antt =====
-- Which nodes `query` of placement.go offers.
use atlas_game_layout.Common.{
  String, true, List, [], ◌∷◌, Option, none, some, ◌≡◌, ◌≢◌, ◌⊎◌, inl, inr, refl, All, nat_key,
  string_key, if_elim, arith, length, subst,
}
use atlas_game_layout.Placement.Candidates.{
  ServiceInstance, Node, Parse, Filter, CandidateSet, query, nodes_of, node_of, grpc_addr,
  local_first, frame_ready, faced, or_all, is_allowed,
}
use atlas_game_layout.Placement.Faces.{
  Has, IsGrpcAt, IsFrameReady, grpc_addr-IsGrpcAt, IsGrpcAt-grpc_addr, frame_ready-IsFrameReady,
  IsFrameReady-frame_ready,
}

-- The node is a listed instance at its gRPC address.
abbrev pub IsListed : Parse → List (Option ServiceInstance) → Node → Type 0
IsListed parse list n =
    (si : ServiceInstance) × Has list si
    × (si.id ≡ n.instance_id)
    × IsGrpcAt parse si.endpoints n.node_address

-- And its instance is listed with a frame face.
abbrev pub IsFaced :
    Parse → List (Option ServiceInstance) → Option (List (Option ServiceInstance)) → Node → Type 0
IsFaced parse list frames n = IsListed parse list n × IsFrameReady parse frames n.instance_id

-- The filter of the own host gives back some of the nodes that it is given, and some node where it
-- is given one.
abbrev pub Narrows : Filter → Type 1
Narrows none = Unit
Narrows (some f) =
    ((P : Node → Type 0) (nodes : List Node) → All P nodes → All P (f nodes))
    × ((n : Node) (nodes : List Node) → f (n ∷ nodes) ≢ [])

module _ (parse : Parse) where
  -- What `nodesOf` makes of an instance.
  abbrev IsTaken : List (Option ServiceInstance) → Option (List String) → Node → Type 0
  IsTaken list ready n =
      (si : ServiceInstance) × Has list si
      × (si.id ≡ n.instance_id)
      × IsGrpcAt parse si.endpoints n.node_address
      × (is_allowed ready si ≡ true)

  one_more :
      (x : Option ServiceInstance) (list : List (Option ServiceInstance))
      (ready : Option (List String)) (nodes : List Node)
      → All (IsTaken list ready) nodes
      → All (IsTaken (x ∷ list) ready) nodes
  one_more x list ready [] h = tt
  one_more x list ready (n ∷ nodes) h =
      let (si, has, same, at, ok) = h.0 in
      ((si, inr has, same, at, ok), one_more x list ready nodes h.1)

  node_of-IsTaken :
      (si : ServiceInstance) (list : List (Option ServiceInstance)) (ready : Option (List String))
      (addr : Option String) (nodes : List Node)
      → is_allowed ready si ≡ true
      → grpc_addr parse si.endpoints ≡ addr
      → All (IsTaken (some si ∷ list) ready) nodes
      → All (IsTaken (some si ∷ list) ready) (node_of si addr nodes)
  node_of-IsTaken si list ready none nodes ok at h = h
  node_of-IsTaken si list ready (some a) nodes ok at h =
      ((si, inl refl, refl, grpc_addr-IsGrpcAt parse si.endpoints a at, ok), h)

  nodes_of-IsTaken :
      (list : List (Option ServiceInstance)) (ready : Option (List String))
      → All (IsTaken list ready) (nodes_of parse list ready)
  unfolding nodes_of
  nodes_of-IsTaken [] ready = tt
  nodes_of-IsTaken (none ∷ list) ready =
      one_more none list ready (nodes_of parse list ready) (nodes_of-IsTaken list ready)
  nodes_of-IsTaken (some si ∷ list) ready =
      let nodes = nodes_of parse list ready in
      let rest = one_more (some si) list ready nodes (nodes_of-IsTaken list ready) in
      if_elim (All (IsTaken (some si ∷ list) ready)) (is_allowed ready si)
        {x = node_of si (grpc_addr parse si.endpoints) nodes} {y = nodes}
        (λ ok. node_of-IsTaken si list ready (grpc_addr parse si.endpoints) nodes ok refl rest)
        (λ no_face. rest)

  node_of-some :
      (si : ServiceInstance) (addr : Option String) (nodes : List Node)
      → nodes ≢ []
      → node_of si addr nodes ≢ []
  node_of-some si none nodes h e = h e
  node_of-some si (some a) nodes h e = ground (arith, e)

  -- An instance that may be taken, at a gRPC address, is not left out.
  nodes_of-some :
      (list : List (Option ServiceInstance)) (ready : Option (List String)) (si : ServiceInstance)
      (addr : String)
      → Has list si
      → IsGrpcAt parse si.endpoints addr
      → is_allowed ready si ≡ true
      → nodes_of parse list ready ≢ []
  unfolding nodes_of
  nodes_of-some [] ready si addr has at ok e = absurd has
  nodes_of-some (none ∷ list) ready si addr (inl bad) at ok e = absurd (ground arith)
  nodes_of-some (none ∷ list) ready si addr (inr has) at ok e =
      nodes_of-some list ready si addr has at ok e
  nodes_of-some (some x ∷ list) ready si addr (inl same) at ok e =
      let eq : x ≡ si = ground (arith, same) in
      ground (arith, e, eq, IsGrpcAt-grpc_addr parse si.endpoints addr at, ok)
  nodes_of-some (some x ∷ list) ready si addr (inr has) at ok e =
      let nodes = nodes_of parse list ready in
      let some_left = nodes_of-some list ready si addr has at ok in
      if_elim (λ l. l ≡ [] → ⊥) (is_allowed ready x)
        {x = node_of x (grpc_addr parse x.endpoints) nodes} {y = nodes}
        (λ t. node_of-some x (grpc_addr parse x.endpoints) nodes some_left) (λ f. some_left) e

  local_first-All :
      (local : Filter) (P : Node → Type 0) (nodes : List Node)
      → Narrows local
      → All P nodes
      → All P (local_first local nodes)
  unfolding local_first
  local_first-All none P nodes narrows h = h
  local_first-All (some f) P [] narrows h = tt
  local_first-All (some f) P (n ∷ nodes) narrows h = narrows.0 P (n ∷ nodes) h

  local_first-none :
      (local : Filter) (nodes : List Node)
      → Narrows local
      → local_first local nodes ≡ []
      → nodes ≡ []
  unfolding local_first
  local_first-none none nodes narrows e = e
  local_first-none (some f) [] narrows e = refl
  local_first-none (some f) (n ∷ nodes) narrows e = absurd (narrows.1 n nodes e)

  instances_of :
      (list : List (Option ServiceInstance)) (ready : Option (List String)) (nodes : List Node)
      → All (IsTaken list ready) nodes
      → All (IsListed parse list) nodes
  instances_of list ready [] h = tt
  instances_of list ready (n ∷ nodes) h =
      let (si, has, same, at, ok) = h.0 in ((si, has, same, at), instances_of list ready nodes h.1)

  ready_instances :
      (list : List (Option ServiceInstance)) (frames : Option (List (Option ServiceInstance)))
      (ids : List String) (nodes : List Node)
      → frame_ready parse frames ≡ some ids
      → All (IsTaken list (some ids)) nodes
      → All (IsFaced parse list frames) nodes
  ready_instances list frames ids [] e h = tt
  ready_instances list frames ids (n ∷ nodes) e h =
      let (si, has, same, at, ok) = h.0 in
      (
        (
          (si, has, same, at),
          subst (IsFrameReady parse frames) same
              (frame_ready-IsFrameReady parse frames ids si.id e ok),
        ),
        ready_instances list frames ids nodes e h.1,
      )

  -- No listed instance with a gRPC address has a frame face.
  abbrev pub IsFaceless :
      List (Option ServiceInstance) → Option (List (Option ServiceInstance)) → Type 0
  IsFaceless list frames =
      (si : ServiceInstance) (addr : String)
      → Has list si
      → IsGrpcAt parse si.endpoints addr
      → IsFrameReady parse frames si.id
      → ⊥

  -- The candidates have frame faces, or no instance has one and they are any instances.
  abbrev pub IsOffer :
      List (Option ServiceInstance) → Option (List (Option ServiceInstance)) → List Node → Type 0
  IsOffer list frames nodes =
      All (IsFaced parse list frames) nodes
      ⊎ (IsFaceless list frames × All (IsListed parse list) nodes)

  abbrev pub IsEmptyFor : List (Option ServiceInstance) → Type 0
  IsEmptyFor list =
      (si : ServiceInstance) (addr : String) → Has list si → IsGrpcAt parse si.endpoints addr → ⊥

  module _ (local : Filter) (list : List (Option ServiceInstance))
      (frames : Option (List (Option ServiceInstance))) (narrows : Narrows local) where
    eligible-IsListed : All (IsListed parse list) (local_first local (nodes_of parse list none))
    eligible-IsListed = instances_of list none (local_first local (nodes_of parse list none)) (
        local_first-All local (IsTaken list none) (nodes_of parse list none) narrows
          (nodes_of-IsTaken list none))

    unready-IsFaceless : frame_ready parse frames ≡ none → IsFaceless list frames
    unready-IsFaceless e si addr has at ready =
        let (ids, e', m) = IsFrameReady-frame_ready parse frames si.id ready in
        ground (arith, e, e')

    empty-IsFaceless :
        (ids : List String)
        → frame_ready parse frames ≡ some ids
        → local_first local (nodes_of parse list (some ids)) ≡ []
        → IsFaceless list frames
    empty-IsFaceless ids e none_left si addr has at ready =
        let (ids', e', m) = IsFrameReady-frame_ready parse frames si.id ready in
        nodes_of-some list (some ids) si addr has at (ground (arith, e, e', m))
          (local_first-none local (nodes_of parse list (some ids)) narrows none_left)

    or_all-IsOffer :
        (ids : List String) (nodes : List Node)
        → frame_ready parse frames ≡ some ids
        → local_first local (nodes_of parse list (some ids)) ≡ nodes
        → IsOffer list frames (or_all nodes (local_first local (nodes_of parse list none)))
    or_all-IsOffer ids [] e at = inr (empty-IsFaceless ids e at, eligible-IsListed)
    or_all-IsOffer ids (n ∷ nodes) e at = inl (
        ready_instances list frames ids (n ∷ nodes) e (
          subst (All (IsTaken list (some ids))) at (
            local_first-All local (IsTaken list (some ids)) (nodes_of parse list (some ids)) narrows
              (nodes_of-IsTaken list (some ids)))))

    faced-IsOffer :
        (ready : Option (List String))
        → frame_ready parse frames ≡ ready
        → IsOffer list frames
            (faced parse local list ready (local_first local (nodes_of parse list none)))
    faced-IsOffer none e = inr (unready-IsFaceless e, eligible-IsListed)
    faced-IsOffer (some ids) e =
        or_all-IsOffer ids (local_first local (nodes_of parse list (some ids))) e refl

    or_all-none : (nodes rest : List Node) → or_all nodes rest ≡ [] → rest ≡ []
    or_all-none [] rest e = e
    or_all-none (n ∷ nodes) rest e = absurd (ground arith)

    faced-none :
        (ready : Option (List String)) (rest : List Node)
        → faced parse local list ready rest ≡ []
        → rest ≡ []
    faced-none none rest e = e
    faced-none (some ids) rest e =
        or_all-none (local_first local (nodes_of parse list (some ids))) rest e

    faced-IsEmptyFor :
        (ready : Option (List String))
        → faced parse local list ready (local_first local (nodes_of parse list none)) ≡ []
        → IsEmptyFor list
    faced-IsEmptyFor ready e si addr has at = nodes_of-some list none si addr has at refl (
        local_first-none local (nodes_of parse list none) narrows
          (faced-none ready (local_first local (nodes_of parse list none)) e))

-- Whatever the registry lists, and where the filter of the own host only leaves nodes out and never
-- all of them: every candidate is a listed instance at the host of its first gRPC endpoint that has
-- one, and its id is that of a listed frame instance with a frame face, that is an endpoint with a
-- host under ws, kcp or udp; unless no listed instance with a gRPC address has such a face, and then
-- any listed instances are candidates. There are candidates wherever an instance with a gRPC
-- address is listed.
pub query-IsOffer :
    (parse : Parse) (local : Filter) (list : List (Option ServiceInstance))
    (frames : Option (List (Option ServiceInstance)))
    → Narrows local
    → (set : CandidateSet) × (query parse local (some list) frames ≡ some set)
      × IsOffer parse list frames set.nodes
      × (set.nodes ≡ [] → IsEmptyFor parse list)
unfolding query
query-IsOffer parse local list frames narrows =
    let ready = frame_ready parse frames in
    let rest = local_first local (nodes_of parse list none) in
    (
      record { nodes = faced parse local list ready rest; registered = length rest },
      refl,
      faced-IsOffer parse local list frames narrows ready refl,
      faced-IsEmptyFor parse local list frames narrows ready,
    )
