-- ===== src/Tests/Placements.antt =====
-- Two battle nodes, of which the second one's frame instance comes late.
use atlas_game_layout.Common.{
  if_elim, All, ℕ, zero, suc, ◌+◌, ◌*◌, String, true, false, List, [], ◌∷◌, Option, none, some, ◌≡◌,
  ◌≢◌, refl, times, member, nat_key, string_key, arith, ◌==◌, if◌then◌else◌,
}
use atlas_game_layout.Placement.{
  Filter, pin, target_filter, await, stops, is_ready, local_first, known, sig, warn_sole, store,
  ServiceInstance, Node, Parse, CandidateSet, Config, Planner, Round, new_planner, refresh, query,
  retarget, next, nodes_of,
}
use atlas_game_layout.Placement.Wait.{IsRefreshed, refresh-IsRefreshed}
use atlas_game_layout.Placement.Turns.{picks, picks_fair}
use atlas_game_layout.Placement.Choice.{IsEmptyFor, Narrows, IsOffer, query-IsOffer}
use atlas_game_layout.Placement.Targets.{addresses, retarget_lem, placed-target_filter}

abbrev parse : Parse
parse s =
    if s == "grpc://a:1"
    then some ("grpc", "a:1")
    else if s == "grpc://b:1"
    then some ("grpc", "b:1")
    else if s == "ws://a:2"
    then some ("ws", "a:2")
    else if s == "ws://b:2"
    then some ("ws", "b:2")
    else none

abbrev services_list : List (Option ServiceInstance)
services_list =
    some (record { id = "a"; endpoints = "bad" ∷ "grpc://a:1" ∷ [] })
    ∷ none
    ∷ some (record { id = "b"; endpoints = "grpc://b:1" ∷ [] })
    ∷ []

abbrev face : String → String → Option ServiceInstance
face id ep = some (record { id = id; endpoints = ep ∷ [] })

abbrev config : Config
config = record { parse = parse; local = none; cache_ttl = 1000; ready_timeout = 2000 }

-- The second instance has its frame face from the third turn on.
abbrev faces_at : ℕ → List (Option ServiceInstance)
faces_at zero = face "a" "ws://a:2" ∷ []
faces_at (suc zero) = face "a" "ws://a:2" ∷ []
faces_at (suc (suc n)) = face "a" "ws://a:2" ∷ face "b" "ws://b:2" ∷ []

abbrev rounds : ℕ → Round
rounds n = record {
  services = some services_list;
  frames = some (faces_at n);
  ended = false;
  now = 100 + n * 20;
  stored_at = 100 + n * 20;
}

refresh-IsRefreshed_example :
    (r : Planner × List Node) × (refresh config new_planner rounds 100 101 ≡ some r)
    × IsRefreshed config new_planner 2100 rounds r
refresh-IsRefreshed_example =
    refresh-IsRefreshed config new_planner rounds 100 20 100 (λ n. omega arith) (omega arith)
      (omega arith)

abbrev turned : Planner
turned = record { snapshot = []; loaded = 0; warned = 0; known_sig = ""; turn = 5 }

picks_fair_example : times 1 (picks turned 3 (4 * 3)) ≡ 4
picks_fair_example = picks_fair turned 3 4 1 (omega arith) (omega arith)

-- The filter of a host: its own nodes where it has one, else all.
abbrev own : List Node → List Node
own [] = []
own (n ∷ nodes) = let rest = own nodes in if n.node_address == "b:1" then n ∷ rest else rest

abbrev or_given : List Node → List Node → List Node
or_given [] nodes = nodes
or_given (n ∷ rest) nodes = n ∷ rest

own-All : (P : Node → Type 0) (nodes : List Node) → All P nodes → All P (own nodes)
own-All P [] h = tt
own-All P (n ∷ nodes) h =
    if_elim (All P) (n.node_address == "b:1") {x = n ∷ own nodes} {y = own nodes}
      (λ t. (h.0, own-All P nodes h.1)) (λ f. own-All P nodes h.1)

or_given-All :
    (P : Node → Type 0) (rest nodes : List Node)
    → All P rest
    → All P nodes
    → All P (or_given rest nodes)
or_given-All P [] nodes h all = all
or_given-All P (n ∷ rest) nodes h all = h

or_given-some : (n : Node) (rest nodes : List Node) → or_given rest (n ∷ nodes) ≢ []
or_given-some n [] nodes e = ground (arith, e)
or_given-some n (m ∷ rest) nodes e = ground (arith, e)

abbrev prefer_own : Filter
prefer_own = some (λ nodes. or_given (own nodes) nodes)

prefer_own-Narrows : Narrows prefer_own
prefer_own-Narrows = (
  (λ P nodes h. or_given-All P (own nodes) nodes (own-All P nodes h) h),
  λ n nodes. or_given-some n (own (n ∷ nodes)) nodes,
)

query-IsOffer_example :
    (set : CandidateSet) × (query parse prefer_own (some services_list) (some (faces_at 0))
      ≡ some set)
    × IsOffer parse services_list (some (faces_at 0)) set.nodes
    × (set.nodes ≡ [] → IsEmptyFor parse services_list)
query-IsOffer_example =
    query-IsOffer parse prefer_own services_list (some (faces_at 0)) prefer_own-Narrows

abbrev two_nodes : List Node
two_nodes =
    record { node_address = "a:1"; instance_id = "a" }
    ∷ record { node_address = "b:1"; instance_id = "b" }
    ∷ []

retarget_lem_example :
    (addr : String) × (retarget two_nodes "b:1" ≡ some addr)
    × (addr ≢ "b:1")
    × (member addr (addresses two_nodes) ≡ true)
retarget_lem_example = retarget_lem two_nodes "b:1" (omega arith) (refl, (refl, tt)) refl

-- The wait ends with both nodes, in the third turn.
waits_for_both :
    refresh config new_planner rounds 100 101
    ≡ some (
      record { snapshot = two_nodes; loaded = 140; warned = 2; known_sig = "a:1,b:1"; turn = 0 },
      two_nodes,
    )
unfolding refresh await query stops is_ready local_first nodes_of known sig new_planner warn_sole
    store
waits_for_both = refl

placed-target_filter_example :
    (member "b:1" (addresses two_nodes) ≡ true)
    × (member "b:1" (addresses two_nodes) ≡ true
        → (n : Node) × (target_filter "b:1" two_nodes ≡ n ∷ []) × (n.node_address ≡ "b:1"))
unfolding pin next
placed-target_filter_example = placed-target_filter turned two_nodes two_nodes "" (omega arith) refl
