-- ===== src/Graph/Examples.antt =====
-- The tests of graph.rs, in one order of iteration.
use dytor.Common.{ℕ, ◌≡◌, ◌⊎◌, refl, true, false, List, [], ◌∷◌, Bool, ◌+◌}
use dytor.Graph.{
  ActorId, DependenceRelation, Cells, Answer, answers, missing, out_of_fuel, HashOrder, has_cycles,
}
use dytor.Graph.Chain.{Chain}
use dytor.Graph.Build.{Depends}
use dytor.Graph.Decides.{has_cycles-decides}

abbrev in_order : HashOrder
in_order = record {
  of_map = λ xs. xs;
  of_set = λ k xs. xs;
  of_map-mem = λ a xs. (λ m. m, λ m. m);
  of_set-mem = λ k a xs. (λ m. m, λ m. m);
}

-- The tests shift the numbers by one, so that none is zero.
abbrev edge : ℕ → ℕ → DependenceRelation
edge a b = record { from = a + 1; to = b + 1 }

abbrev verdict : Answer → Bool
verdict (answers b _) = b
verdict missing = false
verdict out_of_fuel = false

abbrev two_cycle : List DependenceRelation
two_cycle = edge 1 2 ∷ edge 2 1 ∷ []

abbrev diamond : List DependenceRelation
diamond = edge 1 2 ∷ edge 1 3 ∷ edge 2 4 ∷ edge 3 4 ∷ []

abbrev three_cycle : List DependenceRelation
three_cycle = edge 1 2 ∷ edge 2 3 ∷ edge 3 4 ∷ edge 3 1 ∷ []

test_2cycle : verdict (has_cycles in_order two_cycle) ≡ true
unfolding has_cycles
test_2cycle = refl

test_diamond : verdict (has_cycles in_order diamond) ≡ false
unfolding has_cycles
test_diamond = refl

test_3cycle_with_offshoot : verdict (has_cycles in_order three_cycle) ≡ true
unfolding has_cycles
test_3cycle_with_offshoot = refl

has_cycles-decides_example :
    ((t : Cells) × (has_cycles in_order three_cycle ≡ answers true t)
      × ((a : ActorId) × Chain (Depends three_cycle) a a))
    ⊎ ((t : Cells) × (has_cycles in_order three_cycle ≡ answers false t)
        × ((a : ActorId) → ¬ Chain (Depends three_cycle) a a))
has_cycles-decides_example = has_cycles-decides in_order three_cycle
