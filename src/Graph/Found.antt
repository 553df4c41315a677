-- ===== src/Graph/Found.antt =====
-- What `dfs` of graph.rs has shown when it returns `true`.
use dytor.Common.{
  ℕ, zero, suc, ◌≡◌, refl, subst, true, false, List, [], ◌∷◌, Memᴰ, arith, Option-cases, ℕ_discrete,
  inl, inr,
}
use dytor.Graph.{
  ActorId, Graph, visiting, Cells, set_cell, get, Answer, answers, missing, out_of_fuel, any_of,
  leave, HashOrder, dfs,
}
use dytor.Graph.Chain.{Edge, Chain, one, snoc}
use dytor.Graph.Clear.{Extends, Closed, Clears, State-cases, Answer-cases, dfs-clear}

module _ (order : HashOrder) (g : Graph) where
  -- Every open node leads to `a`.
  abbrev pub Leads : Cells → ActorId → Type 0
  Leads s a = (v : ActorId) → s v ≡ visiting → Chain (Edge g) v a

  abbrev pub Cycle : Type 0
  Cycle = (v : ActorId) × Chain (Edge g) v v

  Leads-child :
      (s : Cells) (a b : ActorId) → Leads s a → Edge g a b → Leads (set_cell s a visiting) b
  Leads-child s a b l e v o = elim (ℕ_discrete a v) [
    | yes same ↦ subst (λ x. Chain (Edge g) x b) same (one e)
    | no other ↦ snoc (l v (ground arith)) e
  ]

  Leads-Extends : (s t : Cells) (b : ActorId) → Extends s t → Leads s b → Leads t b
  Leads-Extends s t b x l v o = l v (ground (arith, x.open_same v))

  pub any_of-found :
      (visit : ActorId → Cells → Answer)
      → Clears order g visit
      → ((x : ActorId) (s t : Cells)
          → Closed order g s
          → Leads s x
          → visit x s ≡ answers true t
          → Cycle)
      → (xs : List ActorId) (s t : Cells) → Closed order g s
      → ((x : ActorId) → Memᴰ x xs → Leads s x)
      → any_of visit xs s ≡ answers true t
      → Cycle
  unfolding any_of
  any_of-found visit keep find [] s t c l h = absurd (cc)
  any_of-found visit keep find (x ∷ xs) s t c l h = elim (Answer-cases (visit x s)) [
    | inl (u, e) ↦ find x s u c (l x (Memᴰ.head refl)) e
    | inr (inl (u, e)) ↦
        any_of-found visit keep find xs u t (keep x s u c e).closes
          (λ y m. Leads-Extends s u y (keep x s u c e).extends (l y (Memᴰ.tail m)))
          (rw (e, any_of) at h)
    | inr (inr (inl e)) ↦ absurd (cc (rw (e, any_of) at h))
    | inr (inr (inr e)) ↦ absurd (cc (rw (e, any_of) at h))
  ]

  leave-true :
      (a : ActorId) (r : Answer) (t : Cells) → leave a r ≡ answers true t → r ≡ answers true t
  unfolding leave
  leave-true a (answers true s) t h = h
  leave-true a (answers false s) t h = cc
  leave-true a missing t h = cc
  leave-true a out_of_fuel t h = cc

  pub dfs-found :
      (fuel : ℕ) (a : ActorId) (s t : Cells)
      → Closed order g s
      → Leads s a
      → dfs order g fuel a s ≡ answers true t
      → Cycle
  unfolding dfs
  dfs-found zero a s t c l h = absurd (cc)
  dfs-found (suc fuel) a s t c l h = elim (Option-cases (get a g)) [
    | inl e ↦ absurd (cc (rw (e, dfs) at h))
    | inr (cs, e) ↦ elim (State-cases (s a)) [
      | inl u ↦
          any_of-found (dfs order g fuel) (dfs-clear order g fuel) (dfs-found fuel)
            (order.of_set a cs) (set_cell s a visiting) t (λ v o. c v (ground arith))
            (λ x m. Leads-child s a x l (cs, e, (order.of_set-mem a x cs).0 m))
            (leave-true a _ t (rw (e, u, dfs) at h))
      | inr (inl o) ↦ (a, l a o)
      | inr (inr d) ↦ absurd (cc (rw (e, d, dfs) at h))
    ]
  ]
