-- ===== src/Migration/Picker.antt =====
-- The choice of a node, services/battle/internal/migrate/plan.go. The nodes, the snapshot and the
-- plans of the package rebalance are arguments.
use atlas_game_layout.Common.{
  ℕ, String, Bool, true, false, not, List, [], ◌∷◌, Option, none, some, ◌≡◌, ◌↔◌, keep, first, sort,
  Order, Key, ltb, string_before, string_before_irrefl, string_before_trans, string_before_total,
  string_order, nat_order, nat_key, string_key, str_iff, nat_beq_iff, ◌==◌, ◌&&◌, arith,
  if◌then◌else◌,
}

-- What the source reads of `rebalance.Node`.
pub record Node : Type 0 where
  pub id : String
  pub proc_count : ℕ

abbrev node_beq : Node → Node → Bool
node_beq a b = (a.id == b.id) && (a.proc_count == b.proc_count)

pub node_beq_iff : (a b : Node) → (node_beq a b ≡ true) ↔ (a ≡ b)
node_beq_iff a b = ground (arith, str_iff a.id b.id, nat_beq_iff a.proc_count b.proc_count)

instance abbrev pub node_key : Key Node
node_key = record { beq = node_beq; beq_iff = node_beq_iff }

-- The `less` of `Select`.
unfoldable pub less : Node → Node → Bool
less a b =
    if not (a.proc_count == b.proc_count)
    then ltb a.proc_count b.proc_count
    else string_before a.id b.id

pub less_irrefl : (a : Node) → less a a ≡ false
unfolding less
less_irrefl a = ground (arith, string_before_irrefl a.id)

pub less_trans : (a b c : Node) → less a b ≡ true → less b c ≡ true → less a c ≡ true
unfolding less
less_trans a b c p q = ground (arith, string_before_trans a.id b.id c.id)

pub less_total : (a b : Node) → less a b ≡ false → less b a ≡ false → a ≡ b
unfolding less
less_total a b p q = ground (arith, string_before_total a.id b.id)

instance abbrev pub node_order : Order Node
node_order = record {
  before = less;
  before_irrefl = less_irrefl;
  before_trans = less_trans;
  before_total = less_total;
}

-- The candidates of `Select`.
abbrev pub is_candidate : String → Node → Bool
is_candidate exclude n = not (n.id == exclude) && not (n.id == "")

-- `Picker.Select`, none for `ErrNoTarget`.
abbrev pub id_of : Option Node → Option String
id_of none = none
id_of (some n) = some n.id

unfoldable pub select : List Node → String → Option String
unfolding less
select nodes exclude = id_of (first (sort (keep (is_candidate exclude) nodes)))

-- What the source reads of `rebalance.Plan`: the PID, and the node that it goes to.
pub record Plan : Type 0 where
  pub plan_pid : String
  pub to_node : String

-- `ChooseTarget`, with the plans of `ComputePlans` and `Picker`; none for `ErrNoTarget`.
unfoldable pub choose_target : List Plan → List Node → String → String → Option String
unfolding select
choose_target [] nodes pid from_node = select nodes from_node
choose_target (p ∷ ps) nodes pid from_node =
    let rest = choose_target ps nodes pid from_node in
    if p.plan_pid == pid then some p.to_node else rest

-- `AutoChooser.Choose`: whether the chooser is there with both its ports, the answer of the list of
-- nodes, and the plans for it.
unfoldable pub choose : Bool → Option (List Node) → List Plan → String → String → Option String
unfolding choose_target
choose ready none plans pid from_node = none
choose ready (some nodes) plans pid from_node =
    if ready then choose_target plans nodes pid from_node else none

-- `TargetOf`: the node and the one that it comes from; the PID is none where `NewPID` refuses it.
unfoldable pub target_of :
    String → Option String → List Plan → List Node → String → Option (String × String)
unfolding choose_target
target_of requested pid plans nodes from_node =
    if not (requested == "") then some (requested, from_node) else elim pid [
      | none ↦ none
      | some p ↦ elim (choose_target plans nodes p from_node) [
        | none ↦ none
        | some target ↦ some (target, from_node)
      ]
    ]
