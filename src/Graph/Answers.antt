-- ===== src/Graph/Answers.antt =====
-- `dfs` of graph.rs returns: no lookup fails, and the recursion is no deeper than the nodes that are
-- not yet visited.
use mathlib.Core.List.Memᴰ
use dytor.Common.{
  ℕ, zero, suc, ◌+◌, ◌≤◌, ◌<◌, ◌≡◌, refl, sym, Bool, true, false, List, [], ◌∷◌, Memᴰ, some, arith,
  ℕ_discrete, inl, inr,
}
use dytor.Graph.{
  ActorId, Graph, State, unvisited, visiting, visited, Cells, set_cell, get, keys, Answer, answers,
  any_of, leave, HashOrder, dfs,
}
use dytor.Graph.Chain.{Edge}
use dytor.Graph.Clear.{is_visiting, Extends, Closed, Clears, State-cases, dfs-clear}

abbrev pub IsKey : Graph → ActorId → Type 0
IsKey g a = (cs : List ActorId) × (get a g ≡ some cs)

-- Every child is a node.
abbrev pub IsWhole : Graph → Type 0
IsWhole g = (a b : ActorId) → Edge g a b → IsKey g b

abbrev pub weight : State → ℕ
weight unvisited = 1
weight visiting = 0
weight visited = 0

abbrev pub left : Cells → List ActorId → ℕ
left s [] = 0
left s (k ∷ ks) = weight (s k) + left s ks

weight-le :
    (x y : State)
    → is_visiting y ≡ is_visiting x
    → (x ≡ visited → y ≡ visited)
    → weight y ≤ weight x
weight-le x y o c = ground arith

pub left-Extends : (s t : Cells) (ks : List ActorId) → Extends s t → left t ks ≤ left s ks
left-Extends s t [] x = omega arith
left-Extends s t (k ∷ ks) x =
    omega (arith, weight-le (s k) (t k) (x.open_same k) (x.closed k), left-Extends s t ks x)

left-open-le :
    (s : Cells) (a : ActorId) (ks : List ActorId) → left (set_cell s a visiting) ks ≤ left s ks
left-open-le s a [] = omega arith
left-open-le s a (k ∷ ks) = ground (arith, left-open-le s a ks)

left-open :
    (s : Cells) (a : ActorId) (ks : List ActorId)
    → s a ≡ unvisited
    → Memᴰ a ks
    → left (set_cell s a visiting) ks < left s ks
left-open s a [] u m = absurd (Memᴰ.not-nil m)
left-open s a (k ∷ ks) u m = elim (Memᴰ.cases_cons m) [
  | inl e ↦ ground (arith, left-open-le s a ks)
  | inr later ↦ ground (arith, left-open s a ks u later)
]

pub mem-keys : (g : Graph) (a : ActorId) → IsKey g a → Memᴰ a (keys g)
mem-keys [] a (cs, e) = absurd (cc)
mem-keys ((k, ds) ∷ g) a (cs, e) = elim (ℕ_discrete k a) [
  | yes same ↦ Memᴰ.head (sym same)
  | no other ↦ Memᴰ.tail (mem-keys g a (cs, ground arith))
]

pub IsKey-keys : (g : Graph) (a : ActorId) → Memᴰ a (keys g) → IsKey g a
IsKey-keys [] a m = absurd (Memᴰ.not-nil m)
IsKey-keys ((k, ds) ∷ g) a m = elim (ℕ_discrete k a) [
  | yes same ↦ (ds, ground arith)
  | no other ↦ elim (Memᴰ.cases_cons m) [
    | inl e ↦ absurd (other (sym e))
    | inr later ↦ let (cs, e) = IsKey-keys g a later in (cs, ground arith)
  ]
]

abbrev pub Returns : Answer → Type 0
Returns r = (b : Bool) × (t : Cells) × (r ≡ answers b t)

module _ (order : HashOrder) (g : Graph) (whole : IsWhole g) where
  pub any_of-Returns :
      (visit : ActorId → Cells → Answer) (bound : ℕ)
      → Clears order g visit
      → ((x : ActorId) (s : Cells)
          → Closed order g s
          → IsKey g x
          → left s (keys g) < bound
          → Returns (visit x s))
      → (xs : List ActorId) (s : Cells) → Closed order g s
      → ((x : ActorId) → Memᴰ x xs → IsKey g x)
      → left s (keys g) < bound
      → Returns (any_of visit xs s)
  unfolding any_of
  any_of-Returns visit bound keep run [] s c k room = (false, s, refl)
  any_of-Returns visit bound keep run (x ∷ xs) s c k room =
      after_first (run x s c (k x (Memᴰ.head refl)) room)
        (λ t c' small. any_of-Returns visit bound keep run xs t c' (λ y m. k y (Memᴰ.tail m)) small)
    where
      after_first :
          Returns (visit x s)
          → ((t : Cells) → Closed order g t → left t (keys g) < bound → Returns (any_of visit xs t))
          → Returns (any_of visit (x ∷ xs) s)
      after_first (true, t, e) next = (true, t, rw (e, any_of) refl)
      after_first (false, t, e) next =
          let first = keep x s t c e in
          rw (e, any_of)
            (next t first.closes (omega (arith, left-Extends s t (keys g) first.extends)))

  leave-Returns : (a : ActorId) (r : Answer) → Returns r → Returns (leave a r)
  unfolding leave
  leave-Returns a r (true, t, e) = (true, t, rw e refl)
  leave-Returns a r (false, t, e) = (false, set_cell t a visited, rw e refl)

  pub dfs-Returns :
      (fuel : ℕ) (a : ActorId) (s : Cells)
      → Closed order g s
      → IsKey g a
      → left s (keys g) < fuel
      → Returns (dfs order g fuel a s)
  unfolding dfs
  dfs-Returns zero a s c k room = absurd (omega arith)
  dfs-Returns (suc fuel) a s c (cs, e) room = elim (State-cases (s a)) [
    | inl u ↦
        rw (e, u, dfs)
          (leave-Returns a _ (
            any_of-Returns (dfs order g fuel) fuel (dfs-clear order g fuel) (dfs-Returns fuel)
              (order.of_set a cs) (set_cell s a visiting) (λ v o. c v (ground arith))
              (λ x m. whole a x (cs, e, (order.of_set-mem a x cs).0 m))
              (omega (arith, left-open s a (keys g) u (mem-keys g a (cs, e))))))
    | inr (inl o) ↦ (true, s, rw (e, o, dfs) refl)
    | inr (inr d) ↦ (false, s, rw (e, d, dfs) refl)
  ]
