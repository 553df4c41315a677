-- ===== src/Graph/Decides.antt =====
-- `has_cycles` of graph.rs as a whole.
use dytor.Common.{suc, ◌≡◌, refl, true, false, List, [], ◌∷◌, arith, inl, inr, ◌⊎◌, length}
use dytor.Graph.{
  ActorId, Graph, DependenceRelation, unvisited, Cells, keys, build, answers, HashOrder, dfs,
  has_cycles,
}
use dytor.Graph.Chain.{Edge, Chain, one, more, map-Chain, Ends-acyclic}
use dytor.Graph.Clear.{Closed, any_of-clear, dfs-clear}
use dytor.Graph.Found.{any_of-found, dfs-found}
use dytor.Graph.Answers.{left, mem-keys, IsKey-keys, Returns, any_of-Returns, dfs-Returns}
use dytor.Graph.Build.{Depends, Edge-build, IsWhole-build}

abbrev blank : Cells
blank _ = unvisited

left-blank : (g : Graph) → left blank (keys g) ≡ length g
left-blank [] = refl
left-blank ((k, cs) ∷ g) = omega (arith, left-blank g)

Closed-blank : (order : HashOrder) (g : Graph) → Closed order g blank
Closed-blank order g v e = absurd (cc)

has_cycles-Returns :
    (order : HashOrder) (rs : List DependenceRelation) → Returns (has_cycles order rs)
unfolding has_cycles
has_cycles-Returns order rs =
    let g = build rs in
    let fuel = suc (length g) in
    any_of-Returns order g (IsWhole-build rs) (dfs order g fuel) fuel (dfs-clear order g fuel)
      (dfs-Returns order g (IsWhole-build rs) fuel) (order.of_map (keys g)) blank
      (Closed-blank order g) (λ x m. IsKey-keys g x ((order.of_map-mem x (keys g)).0 m))
      (omega (arith, left-blank g))

has_cycles-true :
    (order : HashOrder) (rs : List DependenceRelation) (t : Cells)
    → has_cycles order rs ≡ answers true t
    → (a : ActorId) × Chain (Depends rs) a a
unfolding has_cycles
has_cycles-true order rs t h =
    let g = build rs in
    let fuel = suc (length g) in
    let (a, p) =
      any_of-found order g (dfs order g fuel) (dfs-clear order g fuel) (dfs-found order g fuel)
        (order.of_map (keys g)) blank t (Closed-blank order g) (λ x m v o. absurd (cc)) h in
    (a, map-Chain (λ x y. (Edge-build rs x y).0) p)

first-Edge :
    (rs : List DependenceRelation) {a b : ActorId}
    → Chain (Edge (build rs)) a b
    → (c : ActorId) × Edge (build rs) a c
first-Edge rs (one e) = (_, e)
first-Edge rs (more e p) = (_, e)

has_cycles-false :
    (order : HashOrder) (rs : List DependenceRelation) (t : Cells)
    → has_cycles order rs ≡ answers false t
    → (a : ActorId) → ¬ Chain (Depends rs) a a
unfolding has_cycles
has_cycles-false order rs t h a p =
    let g = build rs in
    let fuel = suc (length g) in
    let all =
      any_of-clear order g (dfs order g fuel) (dfs-clear order g fuel) (order.of_map (keys g)) blank
        t (Closed-blank order g) h in
    let q = map-Chain (λ x y. (Edge-build rs x y).1) p in
    let (c, out) = first-Edge rs q in
    let key = (order.of_map-mem a (keys g)).1 (mem-keys g a (out.0, out.1)) in
    Ends-acyclic (all.closes a (all.done a key)) q

-- Whatever the order in which the map and the sets are iterated, the search returns, with no failed
-- lookup and within its bound on depth: it answers `true` and some actor depends on itself by a
-- chain of relations, or it answers `false` and none does.
pub has_cycles-decides :
    (order : HashOrder) (rs : List DependenceRelation)
    → ((t : Cells) × (has_cycles order rs ≡ answers true t)
        × ((a : ActorId) × Chain (Depends rs) a a))
      ⊎ ((t : Cells) × (has_cycles order rs ≡ answers false t)
          × ((a : ActorId) → ¬ Chain (Depends rs) a a))
has_cycles-decides order rs = decide (has_cycles-Returns order rs)
  where
    decide :
        Returns (has_cycles order rs)
        → ((t : Cells) × (has_cycles order rs ≡ answers true t)
            × ((a : ActorId) × Chain (Depends rs) a a))
          ⊎ ((t : Cells) × (has_cycles order rs ≡ answers false t)
              × ((a : ActorId) → ¬ Chain (Depends rs) a a))
    decide (true, t, e) = inl (t, e, has_cycles-true order rs t e)
    decide (false, t, e) = inr (t, e, has_cycles-false order rs t e)
