-- ===== src/Calls/Distinct.antt =====
-- When calls through local keys (lookup.rs) borrow an actor that is borrowed already, and when not.
use mathlib.Core.List.Memᴰ
use dytor.Common.{
  ℕ, ◌≡◌, ◌≢◌, refl, sym, subst, true, false, List, [], ◌∷◌, some, ◌<◌, ◌++◌, Memᴰ, Option, Exec,
  returns, arith, inl, inr, ℕ_discrete, ◌==◌, if◌then◌else◌, All,
}
use dytor.Arena.{Arena}
use dytor.Context.{ControlBlock}
use dytor.Graph.{ActorId, DependenceRelation, HashOrder, contains, Cells, answers, has_cycles}
use dytor.Graph.Decides.{has_cycles-decides}
use dytor.Graph.Chain.{Chain, one, more, snoc}
use dytor.Graph.Build.{Depends}
use dytor.Registry.{VTable}
use dytor.Object.{Memory, uninit}
use dytor.Lookup.{AcyclicLocalKey, InitArgs, ActorTree}
use dytor.Lookup.Local.{acyclic_local_key_iff}
use dytor.Runtime.{ContextConstructorArgs}
use dytor.Runtime.Create.{InitData, InitStage, Context, construct_all, init_data, create_context}
use dytor.Runtime.Acyclic.{create_context-decides}
use dytor.Calls.{
  Held, Borrow, Borrows, actors, distinct, Asks, none_asked, asked, runs, calls, calls_captured,
  ends, idle, after, Reach, BorrowReach, steps, borrows,
}

-- Every borrow is reached from each one before it by a chain of relations.
abbrev Chained : List DependenceRelation → List Borrow → Type 0
Chained rs [] = Unit
Chained rs (b ∷ bs) = All (λ c. Chain (Depends rs) c.actor b.actor) bs × Chained rs bs

module _ (R : ActorId → ActorId → Type 0) where
  All-snoc :
      (a b : ActorId) (bs : List Borrow)
      → R a b
      → All (λ c. Chain R c.actor a) bs
      → All (λ c. Chain R c.actor b) bs
  All-snoc a b [] r h = tt
  All-snoc a b (c ∷ bs) r h = (snoc h.0 r, All-snoc a b bs r h.1)

  All-absent :
      (acyclic : (a : ActorId) → ¬ Chain R a a) (b : ActorId) (bs : List Borrow)
      → All (λ c. Chain R c.actor b) bs
      → contains b (actors bs) ≡ false
  All-absent acyclic b [] h = refl
  All-absent acyclic b (c ∷ bs) h = elim (ℕ_discrete c.actor b) [
    | yes e ↦ absurd (acyclic b (subst (λ x. Chain R x b) e h.0))
    | no e ↦ ground (arith, All-absent acyclic b bs h.1)
  ]

Chained-distinct :
    (rs : List DependenceRelation)
    → ((a : ActorId) → ¬ Chain (Depends rs) a a)
    → (bs : List Borrow) → Chained rs bs
    → distinct (actors bs) ≡ true
unfolding distinct
Chained-distinct rs acyclic [] h = refl
Chained-distinct rs acyclic (b ∷ bs) h =
    rw (All-absent (Depends rs) acyclic b.actor bs h.0, Chained-distinct rs acyclic bs h.1) refl

module _ {Meta : Type 0} where
  -- The relation of a key is among those that `has_cycles` is given.
  Asks-Depends :
      {held : List (Held Meta)} {rs : List DependenceRelation} (h : Held Meta)
      → Asks held rs
      → Memᴰ h held
      → Depends rs h.asker h.leads_to
  Asks-Depends h none_asked m = absurd (Memᴰ.not-nil m)
  Asks-Depends h (asked args args' found id key k before e) m =
      let (id', key', single, _, _, _, grown) =
        (acyclic_local_key_iff ((id, key) ∷ found) args args' k).0 e in
      let leads : id' ≡ id = ground arith in
      let old_relation : Memᴰ h _ → Depends args.dependence_relations h.asker h.leads_to =
        λ old. Asks-Depends h before old in
      subst (λ (x : InitArgs). Depends x.dependence_relations h.asker h.leads_to) (sym grown)
        (elim (Memᴰ.cases_cons m) [
          | inl same ↦ Memᴰ.append_right args.dependence_relations (Memᴰ.head (ground arith))
          | inr old ↦
              Memᴰ.append_left (record { from = args.actor_being_constructed; to = id' } ∷ [])
                (old_relation old)
        ])

  Reach-Chained :
      (arena : Arena) {held : List (Held Meta)} {rs : List DependenceRelation} {bs : List Borrow}
      → Asks held rs
      → Reach false arena held bs
      → Chained rs bs
  Reach-Chained arena asks idle = tt
  Reach-Chained arena asks (after r (runs a o)) = (tt, tt)
  Reach-Chained arena {rs = rs} asks (after r (calls {b} {bs} {h} m e)) =
      let before = Reach-Chained arena asks r in
      let step : Depends rs b.actor h.leads_to =
        subst (λ x. Depends rs x h.leads_to) e (Asks-Depends h asks m) in
      ((one step, All-snoc (Depends rs) b.actor h.leads_to bs step before.0), before)
  Reach-Chained arena asks (after r (calls_captured c m k e)) = absurd (cc)
  Reach-Chained arena asks (after r ends) = (Reach-Chained arena asks r).1

module _ {V D M Meta : Type 0} (deserialize : VTable → V → Option D)
    (initialise : VTable → InitStage → D → InitData M → Exec (Option (InitData M))) where
  -- In a context that `create_context` returned, if the constructors left the relations that their
  -- queries for local keys add, each actor calls only through keys that it asked for itself, and no
  -- closure that is given to `call` captures a key, then however deep the calls of `call` are nested, no
  -- actor is borrowed twice at once.
  pub call-distinct :
      (order : HashOrder) (info : ContextConstructorArgs V) (block : ControlBlock)
      (tree : ActorTree) (init : InitData M) (memory : Memory) (ctx : Context M × ControlBlock)
      (held : List (Held Meta)) (bs : List Borrow)
      → info.tree ≡ some tree
      → construct_all deserialize initialise info.arena info.resource_map info.actors
          (init_data info tree block, uninit)
        ≡ returns (init, memory)
      → create_context deserialize initialise order info block ≡ returns ctx
      → Asks held init.dependence_relations
      → Reach false ctx.0.arena held bs
      → distinct (actors bs) ≡ true
  call-distinct order info block tree init memory ctx held bs has_tree made created asks reach =
      elim (create_context-decides deserialize initialise order info block tree init memory has_tree
        made) [
          | inl (cycle, panic) ↦ absurd (cc)
          | inr (acyclic, _) ↦
              Chained-distinct init.dependence_relations acyclic bs
                (Reach-Chained ctx.0.arena asks reach)
        ]

-- The relations that these queries add.
abbrev pub relations_of : {Meta : Type 0} → List (Held Meta) → List DependenceRelation
relations_of [] = []
relations_of (h ∷ held) = record { from = h.asker; to = h.leads_to } ∷ relations_of held

-- What two actors ask for, if `x` asks for `z` and for `y`, and `y` for `z`.
abbrev pub two_ways :
    {Meta : Type 0}
    → ActorId
    → ActorId
    → ActorId
    → (k k' k'' : AcyclicLocalKey Meta) → List (Held Meta)
two_ways x y z k k' k'' =
    record { asker = x; leads_to = z; key = k }
    ∷ record { asker = x; leads_to = y; key = k' }
    ∷ record { asker = y; leads_to = z; key = k'' }
    ∷ []

-- Along a chain whose steps make a measure smaller, it gets smaller.
pub Chain-less :
    {R : ActorId → ActorId → Type 0} (f : ActorId → ℕ)
    → ((a b : ActorId) → R a b → f b < f a)
    → {a b : ActorId} → Chain R a b
    → f b < f a
Chain-less f d (one r) = d _ _ r
Chain-less f d (more r p) = omega (arith, d _ _ r, Chain-less f d p)

module _ {Meta : Type 0} where
  two_ways-acyclic :
      (x y z a : ActorId) (k k' k'' : AcyclicLocalKey Meta)
      → x ≢ y
      → x ≢ z
      → y ≢ z
      → ¬ Chain (Depends (relations_of (two_ways x y z k k' k''))) a a
  two_ways-acyclic x y z a k k' k'' xy xz yz p =
      let f : ActorId → ℕ = λ v. if v == x then 2 else if v == y then 1 else 0 in
      let d : (a b : ActorId) → Depends (relations_of (two_ways x y z k k' k'')) a b → f b < f a =
        λ a b m. elim (Memᴰ.cases_cons m) [
          | inl e ↦ ground arith
          | inr m ↦ elim (Memᴰ.cases_cons m) [
            | inl e ↦ ground arith
            | inr m ↦ elim (Memᴰ.cases_cons m) [
              | inl e ↦ ground arith
              | inr m ↦ absurd (Memᴰ.not-nil m)
            ]
          ]
        ] in
      absurd (omega (arith, Chain-less f d p))

  two_ways-has_cycles :
      (order : HashOrder) (x y z : ActorId) (k k' k'' : AcyclicLocalKey Meta)
      → x ≢ y
      → x ≢ z
      → y ≢ z
      → (t : Cells) × (has_cycles order (relations_of (two_ways x y z k k' k'')) ≡ answers false t)
  two_ways-has_cycles order x y z k k' k'' xy xz yz =
      elim (has_cycles-decides order (relations_of (two_ways x y z k k' k''))) [
        | inl (t, e, (a, cycle)) ↦ absurd (two_ways-acyclic x y z a k k' k'' xy xz yz cycle)
        | inr (t, e, acyclic) ↦ (t, e)
      ]

  -- `borrow_mut` does not give that: if `x` holds local keys to `z` and to another actor `y`, which
  -- holds one to `z`, the search finds no cycle in these relations, and a state can be reached in which
  -- `z` is borrowed twice at once.
  pub borrow_mut-twice :
      (order : HashOrder) (arena : Arena) (x y z : ActorId) (k k' k'' : AcyclicLocalKey Meta)
      → x ≢ y
      → x ≢ z
      → y ≢ z
      → ((t : Cells) × (has_cycles order (relations_of (two_ways x y z k k' k''))
            ≡ answers false t))
        × ((s : Borrows) × BorrowReach false arena (two_ways x y z k k' k'') s
            × (distinct (actors (s.running ++ s.kept)) ≡ false))
  unfolding distinct
  borrow_mut-twice order arena x y z k k' k'' xy xz yz = (
    two_ways-has_cycles order x y z k k' k'' xy xz yz,
    (
      _,
      after
          (after (after (after idle (steps (runs x 0))) (borrows (Memᴰ.head refl) refl))
            (steps (calls (Memᴰ.tail (Memᴰ.head refl)) refl)))
          (steps (calls (Memᴰ.tail (Memᴰ.tail (Memᴰ.head refl))) refl)),
      ground arith,
    ),
  )

  -- That `call` takes an `Fn` does not keep actors from being borrowed twice either: if `x` holds local
  -- keys to `z` and to another actor `y`, which holds one to `z`, and the closures that are given to
  -- `call` capture keys, the search finds no cycle in these relations, and by calls alone a state can be
  -- reached in which `z` is borrowed twice at once.
  pub call-twice :
      (order : HashOrder) (arena : Arena) (x y z : ActorId) (k k' k'' : AcyclicLocalKey Meta)
      → x ≢ y
      → x ≢ z
      → y ≢ z
      → ((t : Cells) × (has_cycles order (relations_of (two_ways x y z k k' k''))
            ≡ answers false t))
        × ((bs : List Borrow) × Reach true arena (two_ways x y z k k' k'') bs
            × (distinct (actors bs) ≡ false))
  unfolding distinct
  call-twice order arena x y z k k' k'' xy xz yz = (
    two_ways-has_cycles order x y z k k' k'' xy xz yz,
    (
      _,
      after
          (after (after (after idle (runs x 0)) (calls (Memᴰ.head refl) refl))
            (calls_captured refl (Memᴰ.head refl) (Memᴰ.tail (Memᴰ.head refl)) refl))
          (calls (Memᴰ.tail (Memᴰ.tail (Memᴰ.head refl))) refl),
      ground arith,
    ),
  )
