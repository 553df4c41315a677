-- ===== src/Graph/Clear.antt =====
-- What `dfs` of graph.rs has shown when it returns `false`.
use dytor.Common.{
  ℕ, zero, suc, ◌≡◌, refl, ◌∙◌, subst, Bool, true, false, List, [], ◌∷◌, Memᴰ, some, arith,
  Memᴰ-cons, Option-cases, ℕ_discrete, inl, inr, ◌⊎◌,
}
use mathlib.Core.List.Memᴰ
use dytor.Graph.{
  ActorId, Graph, State, unvisited, visiting, visited, Cells, set_cell, get, Answer, answers,
  missing, out_of_fuel, any_of, leave, HashOrder, dfs,
}
use dytor.Graph.Chain.{Edge, Ends, ends}

abbrev pub is_visiting : State → Bool
is_visiting visiting = true
is_visiting unvisited = false
is_visiting visited = false

-- The nodes that are open stay the same, and none that is closed opens again.
pub record Extends (s s' : Cells) : Type 0 where
  pub open_same : (v : ActorId) → is_visiting (s' v) ≡ is_visiting (s v)
  pub closed : (v : ActorId) → s v ≡ visited → s' v ≡ visited

pub Extends-refl : (s : Cells) → Extends s s
Extends-refl s = record { open_same = λ v. refl; closed = λ v e. e }

pub Extends-trans : (s t u : Cells) → Extends s t → Extends t u → Extends s u
Extends-trans s t u f g = record {
  open_same = λ v. g.open_same v ∙ f.open_same v;
  closed = λ v e. g.closed v (f.closed v e);
}

-- Opening a node, a search that extends the cells, and closing the node.
pub Extends-visit :
    (s t : Cells) (a : ActorId)
    → s a ≡ unvisited
    → Extends (set_cell s a visiting) t
    → Extends s (set_cell t a visited)
Extends-visit s t a e f = record {
  open_same = λ v. ground (arith, f.open_same v);
  closed = λ v h. ground (arith, f.closed v);
}

pub State-cases : (x : State) → (x ≡ unvisited) ⊎ ((x ≡ visiting) ⊎ (x ≡ visited))
State-cases unvisited = inl refl
State-cases visiting = inr (inl refl)
State-cases visited = inr (inr refl)

pub Answer-cases :
    (r : Answer)
    → ((t : Cells) × (r ≡ answers true t))
      ⊎ (((t : Cells) × (r ≡ answers false t)) ⊎ ((r ≡ missing) ⊎ (r ≡ out_of_fuel)))
Answer-cases (answers true t) = inl (t, refl)
Answer-cases (answers false t) = inr (inl (t, refl))
Answer-cases missing = inr (inr (inl refl))
Answer-cases out_of_fuel = inr (inr (inr refl))

-- A loop that returns `false` had `false` from its first round, and from the others.
any_of-false :
    (visit : ActorId → Cells → Answer) (x : ActorId) (xs : List ActorId) (s s' : Cells)
    → any_of visit (x ∷ xs) s ≡ answers false s'
    → (t : Cells) × (visit x s ≡ answers false t) × (any_of visit xs t ≡ answers false s')
unfolding any_of
any_of-false visit x xs s s' h = elim (Answer-cases (visit x s)) [
  | inl (t, e) ↦ absurd (cc (rw (e, any_of) at h))
  | inr (inl (t, e)) ↦ (t, e, rw (e, any_of) at h)
  | inr (inr (inl e)) ↦ absurd (cc (rw (e, any_of) at h))
  | inr (inr (inr e)) ↦ absurd (cc (rw (e, any_of) at h))
]

module _ (order : HashOrder) (g : Graph) where
  abbrev pub Closed : Cells → Type 0
  Closed s = (v : ActorId) → s v ≡ visited → Ends (Edge g) v

  -- What a search from `a` has shown.
  pub record Cleared (a : ActorId) (s s' : Cells) : Type 0 where
    pub extends : Extends s s'
    pub closes : Closed s'
    pub done : s' a ≡ visited

  abbrev pub Clears : (ActorId → Cells → Answer) → Type 0
  Clears visit =
      (x : ActorId) (s s' : Cells) → Closed s → visit x s ≡ answers false s' → Cleared x s s'

  pub record AllCleared (xs : List ActorId) (s s' : Cells) : Type 0 where
    pub extends : Extends s s'
    pub closes : Closed s'
    pub done : (x : ActorId) → Memᴰ x xs → s' x ≡ visited

  AllCleared-cons :
      (x : ActorId) (xs : List ActorId) (s t s' : Cells)
      → Cleared x s t
      → AllCleared xs t s'
      → AllCleared (x ∷ xs) s s'
  AllCleared-cons x xs s t s' first rest = record {
    extends = Extends-trans s t s' first.extends rest.extends;
    closes = rest.closes;
    done = λ y m. elim ((Memᴰ-cons y x xs).0 m) [
      | inl e ↦ rw e (rest.extends.closed x first.done)
      | inr later ↦ rest.done y later
    ];
  }

  pub any_of-clear :
      (visit : ActorId → Cells → Answer) (keep : Clears visit) (xs : List ActorId) (s s' : Cells)
      → Closed s
      → any_of visit xs s ≡ answers false s'
      → AllCleared xs s s'
  unfolding any_of
  any_of-clear visit keep [] s s' c h =
      subst (λ t. AllCleared [] s t) (cc)
        (record { extends = Extends-refl s; closes = c; done = λ x m. absurd (Memᴰ.not-nil m) })
  any_of-clear visit keep (x ∷ xs) s s' c h =
      let (t, e, rest) = any_of-false visit x xs s s' h in
      let first = keep x s t c e in
      AllCleared-cons x xs s t s' first (any_of-clear visit keep xs t s' first.closes rest)

  leave-clear :
      (a : ActorId) (s s' : Cells) (children : List ActorId)
      → get a g ≡ some children
      → s a ≡ unvisited
      → (r : Answer) → leave a r ≡ answers false s'
      → ((t : Cells)
          → r ≡ answers false t
          → AllCleared (order.of_set a children) (set_cell s a visiting) t)
      → Cleared a s s'
  unfolding leave
  leave-clear a s s' cs e u (answers false t) h k =
      let f = k t refl in
      subst (Cleared a s) (cc) (record {
        extends = Extends-visit s t a u f.extends;
        closes = λ v e'. elim (ℕ_discrete a v) [
          | yes same ↦ subst (Ends (Edge g)) same (
              ends λ b (ds, p, m).
                f.closes b (f.done b ((order.of_set-mem a b cs).1 (subst (Memᴰ b) (cc) m))))
          | no other ↦ f.closes v (ground arith)
        ];
        done = ground arith;
      })
  leave-clear a s s' cs e u (answers true t) h k = cc
  leave-clear a s s' cs e u missing h k = cc
  leave-clear a s s' cs e u out_of_fuel h k = cc

  pub dfs-clear : (fuel : ℕ) → Clears (dfs order g fuel)
  unfolding dfs
  dfs-clear zero a s s' c h = cc
  dfs-clear (suc fuel) a s s' c h = elim (Option-cases (get a g)) [
    | inl e ↦ absurd (cc (rw (e, dfs) at h))
    | inr (cs, e) ↦ elim (State-cases (s a)) [
      | inl u ↦ leave-clear a s s' cs e u _ (rw (e, u, dfs) at h) λ t r.
          any_of-clear (dfs order g fuel) (dfs-clear fuel) (order.of_set a cs)
            (set_cell s a visiting) t (λ v o. c v (ground arith)) r
      | inr (inl v) ↦ absurd (cc (rw (e, v, dfs) at h))
      | inr (inr d) ↦
          subst (Cleared a s) (cc (rw (e, d, dfs) at h))
            (record { extends = Extends-refl s; closes = c; done = d })
    ]
  ]
