-- ===== src/Graph.antt =====
-- crates/core/dytor/src/runtime/graph.rs: the search for cycles among the local dependences of a
-- context. The order in which a hash table is iterated is not specified, and is a parameter.
pub mod Chain
pub mod Clear
pub mod Found
pub mod Answers
pub mod Build
pub mod Decides
pub mod Examples
use dytor.Common.{
  ℕ, zero, suc, ◌≡◌, ◌↔◌, Bool, true, false, ◌||◌, List, [], ◌∷◌, Memᴰ, Option, none, some, length,
  ◌==◌, if◌then◌else◌,
}
use mathlib.Core.List.{foldl}

-- `ActorId`, the number in its `NonZeroU32`
abbrev pub ActorId : Type 0
ActorId = ℕ

pub record DependenceRelation : Type 0 where
  pub from : ActorId
  pub to : ActorId

pub data State : Type 0 where
  unvisited visiting visited : State

-- The map of nodes, with the children of each. The `Cell` of a node is named by the node's key.
abbrev pub Graph : Type 0
Graph = List (ActorId × List ActorId)

abbrev pub Cells : Type 0
Cells = ActorId → State

abbrev pub set_cell : Cells → ActorId → State → Cells
set_cell s a x v = if a == v then x else s v

abbrev pub contains : ActorId → List ActorId → Bool
contains a [] = false
contains a (c ∷ cs) = c == a || contains a cs

-- `HashSet::insert`
pub insert_child : ActorId → List ActorId → List ActorId
insert_child a cs = if contains a cs then cs else a ∷ cs

-- `graph.entry(a).or_default().children.insert(b)`
pub entry_insert : ActorId → ActorId → Graph → Graph
unfolding insert_child
entry_insert a b [] = (a, insert_child b []) ∷ []
entry_insert a b ((k, cs) ∷ g) =
    if k == a then (k, insert_child b cs) ∷ g else (k, cs) ∷ entry_insert a b g

-- `graph.entry(a).or_default()`
pub entry_default : ActorId → Graph → Graph
entry_default a [] = (a, []) ∷ []
entry_default a ((k, cs) ∷ g) = if k == a then (k, cs) ∷ g else (k, cs) ∷ entry_default a g

-- The body of the loop over the relations.
pub add_relation : Graph → DependenceRelation → Graph
unfolding entry_insert entry_default
add_relation g r = entry_default r.to (entry_insert r.from r.to g)

pub build : List DependenceRelation → Graph
unfolding add_relation
build = foldl add_relation []

abbrev pub keys : Graph → List ActorId
keys [] = []
keys ((k, _) ∷ g) = k ∷ keys g

-- `graph.get`
abbrev pub get : ActorId → Graph → Option (List ActorId)
get a [] = none
get a ((k, cs) ∷ g) = if k == a then some cs else get a g

-- The result of a search, with the cells that it leaves; `missing` is the panic of an `unwrap`.
pub data Answer : Type 0 where
  answers : Bool → Cells → Answer
  missing out_of_fuel : Answer

-- `for x in xs { if visit(x) { return true; } } false`
pub any_of : (ActorId → Cells → Answer) → List ActorId → Cells → Answer
any_of visit [] s = answers false s
any_of visit (x ∷ xs) s = elim (visit x s) [
  | answers true s' ↦ answers true s'
  | answers false s' ↦ any_of visit xs s'
  | missing ↦ missing
  | out_of_fuel ↦ out_of_fuel
]

-- What follows the loop over the children.
pub leave : ActorId → Answer → Answer
leave a (answers true s) = answers true s
leave a (answers false s) = answers false (set_cell s a visited)
leave a missing = missing
leave a out_of_fuel = out_of_fuel

-- The orders in which the map's keys and the set of children of a node are iterated.
pub record HashOrder : Type 0 where
  pub of_map : List ActorId → List ActorId
  pub of_set : ActorId → List ActorId → List ActorId
  pub of_map-mem : (a : ActorId) (xs : List ActorId) → Memᴰ a (of_map xs) ↔ Memᴰ a xs
  pub of_set-mem : (k a : ActorId) (xs : List ActorId) → Memᴰ a (of_set k xs) ↔ Memᴰ a xs

module _ (order : HashOrder) (g : Graph) where
  -- The fuel bounds the depth of the recursion.
  pub dfs : ℕ → ActorId → Cells → Answer
  unfolding any_of leave
  dfs zero a s = out_of_fuel
  dfs (suc fuel) a s = elim (get a g) [
    | none ↦ missing
    | some children ↦ elim (s a) [
      | visiting ↦ answers true s
      | visited ↦ answers false s
      | unvisited ↦ leave a (any_of (dfs fuel) (order.of_set a children) (set_cell s a visiting))
    ]
  ]

-- Every node may be open at once, and one more call sees that.
pub has_cycles : HashOrder → List DependenceRelation → Answer
unfolding build any_of dfs
has_cycles order relations =
    let g = build relations in
    any_of (dfs order g (suc (length g))) (order.of_map (keys g)) (λ _. unvisited)
