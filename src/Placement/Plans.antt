-- ===== src/Placement/Plans.antt =====
-- The planner of services/matcher/internal/placement/placement.go: its snapshot of the candidates,
-- the wait until they are ready and the turns. The clock and the registry's answers in each turn of
-- the wait are arguments. The log lines are left out.
use atlas_game_layout.Common.{
  ℕ, zero, suc, ◌+◌, ◌%◌, ◌^◌, String, Bool, not, List, [], ◌∷◌, Option, none, some, length, ltb,
  leb, ◌==◌, ◌&&◌, ◌||◌, nat_key, string_key, if◌then◌else◌,
}
use atlas_game_layout.Placement.Candidates.{
  ServiceInstance, Node, Parse, Filter, CandidateSet, is_ready, sig, query,
}

-- The options of a `Planner`.
pub record Config : Type 0 where
  pub parse : Parse
  pub local : Filter
  pub cache_ttl : ℕ
  pub ready_timeout : ℕ

pub record Planner : Type 0 where
  pub snapshot : List Node
  pub loaded : ℕ
  pub warned : ℕ
  pub known_sig : String
  pub turn : ℕ

-- `New`.
unfoldable pub new_planner : Planner
new_planner = record { snapshot = []; loaded = 0; warned = 0; known_sig = ""; turn = 0 }

-- `next`: the cursor is a uint64.
unfoldable pub next : Planner → ℕ → Planner × ℕ
next p n = (record p { turn = (p.turn + 1) % 2 ^ 64 }, p.turn % n)

-- `fresh`.
unfoldable pub fresh : Config → Planner → ℕ → Option (List Node)
fresh cfg p now =
    if ltb 0 (length p.snapshot) && ltb now (p.loaded + cfg.cache_ttl)
    then some p.snapshot
    else none

-- `known`.
unfoldable pub known : Planner → String → Bool
known p s = not (s == "") && (p.known_sig == s)

-- `store`.
unfoldable pub store : Planner → CandidateSet → ℕ → Planner
store p set now = record p { snapshot = set.nodes; loaded = now; known_sig = sig set.nodes }

-- `warnSole`, without its line.
unfoldable pub warn_sole : Planner → CandidateSet → Planner
warn_sole p set = record p { warned = length set.nodes }

-- One turn of the loop of `refresh`: the registry's lists, none for an error, whether the context
-- has ended, the time that the condition reads, and the one that `store` does.
pub record Round : Type 0 where
  pub services : Option (List (Option ServiceInstance))
  pub frames : Option (List (Option ServiceInstance))
  pub ended : Bool
  pub now : ℕ
  pub stored_at : ℕ

-- The condition that ends the loop.
unfoldable pub stops : Planner → ℕ → CandidateSet → Round → Bool
stops p deadline set round =
    is_ready set || known p (sig set.nodes) || round.ended || leb deadline round.now

pub data Awaited : Type 0 where
  not_found : Awaited
  got : CandidateSet → ℕ → Awaited

-- The loop of `refresh` from turn `n`, on fuel.
abbrev pub awaited_or :
    Planner → ℕ → Round → ℕ → Option Awaited → Option CandidateSet → Option Awaited
awaited_or p deadline round n rest none = some not_found
awaited_or p deadline round n rest (some set) =
    if stops p deadline set round then some (got set n) else rest

unfoldable pub await : Config → Planner → ℕ → (ℕ → Round) → ℕ → ℕ → Option Awaited
await cfg p deadline rounds n zero = none
await cfg p deadline rounds n (suc fuel) =
    awaited_or p deadline (rounds n) n (await cfg p deadline rounds (suc n) fuel)
      (query cfg.parse cfg.local (rounds n).services (rounds n).frames)

-- `refresh`, which starts at `started`: none where the fuel runs out.
abbrev pub refreshed : Planner → (ℕ → Round) → Option Awaited → Option (Planner × List Node)
refreshed p rounds none = none
refreshed p rounds (some not_found) = some (p, p.snapshot)
refreshed p rounds (some (got set n)) =
    some (warn_sole (store p set (rounds n).stored_at) set, set.nodes)

unfoldable pub refresh : Config → Planner → (ℕ → Round) → ℕ → ℕ → Option (Planner × List Node)
refresh cfg p rounds started fuel =
    refreshed p rounds (await cfg p (started + cfg.ready_timeout) rounds 0 fuel)

-- `candidates`: the lock of the refresh is had at `locked`.
abbrev pub or_refresh :
    Config → Planner → (ℕ → Round) → ℕ → ℕ → Option (List Node) → Option (Planner × List Node)
or_refresh cfg p rounds started fuel (some nodes) = some (p, nodes)
or_refresh cfg p rounds started fuel none = refresh cfg p rounds started fuel

abbrev pub or_locked :
    Config → Planner → (ℕ → Round) → ℕ → ℕ → ℕ → Option (List Node) → Option (Planner × List Node)
or_locked cfg p rounds locked started fuel (some nodes) = some (p, nodes)
or_locked cfg p rounds locked started fuel none =
    or_refresh cfg p rounds started fuel (fresh cfg p locked)

unfoldable pub candidates :
    Config → Planner → (ℕ → Round) → ℕ → ℕ → ℕ → ℕ → Option (Planner × List Node)
candidates cfg p rounds now locked started fuel =
    or_locked cfg p rounds locked started fuel (fresh cfg p now)

-- `nodes[i]`, which is in range.
abbrev pub get_elem? {ℓ} : {A : Type ℓ} → List A → ℕ → Option A
get_elem? [] i = none
get_elem? (x ∷ xs) zero = some x
get_elem? (x ∷ xs) (suc i) = get_elem? xs i

abbrev pub address_of : Option Node → String
address_of none = ""
address_of (some n) = n.node_address

-- `Place`, of the candidates: the empty address where there are none.
abbrev pub placed : Planner → List Node → Planner × String
placed p [] = (p, "")
placed p (n ∷ nodes) =
    let (p', i) = next p (length (n ∷ nodes)) in (p', address_of (get_elem? (n ∷ nodes) i))

abbrev pub place_from : Option (Planner × List Node) → Option (Planner × String)
place_from none = none
place_from (some (p, nodes)) = some (placed p nodes)

unfoldable pub place : Config → Planner → (ℕ → Round) → ℕ → ℕ → ℕ → ℕ → Option (Planner × String)
unfolding next
place cfg p rounds now locked started fuel =
    place_from (candidates cfg p rounds now locked started fuel)

-- `Pin`: the target that the context carries after it, of the place and the target before it.
unfoldable pub pin : String → String → String
pin addr target = if addr == "" then target else addr

-- The index that `placeExcept` finds, 0 where there is none.
abbrev pub index_from : ℕ → String → List Node → ℕ
index_from i exclude [] = 0
index_from i exclude (n ∷ nodes) =
    let rest = index_from (suc i) exclude nodes in if n.node_address == exclude then i else rest

-- `placeExcept`, of the candidates.
unfoldable pub place_except : List Node → String → String
place_except nodes exclude =
    if ltb (length nodes) 2
    then ""
    else address_of (get_elem? nodes ((index_from 0 exclude nodes + 1) % length nodes))

-- `Retarget`, of the candidates and the target that the context carries: the new target.
unfoldable pub retarget : List Node → String → Option String
retarget nodes current =
    let addr = place_except nodes current in
    if (addr == "") || (addr == current) then none else some addr
