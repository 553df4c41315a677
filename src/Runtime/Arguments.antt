-- ===== src/Runtime/Arguments.antt =====
-- What `create_context_args` of runtime/mod.rs hands to the threads.
use mathlib.Core.List.Memᴰ
use dytor.Common.{
  none, ℕ, zero, suc, ◌+◌, ◌<◌, ◌≡◌, refl, sym, ap, arith, List, [], ◌∷◌, ◌++◌, Memᴰ, some, returns,
  assert, >>=-eq-returns, length, u32_mod, unwrap, subst, ◌⊎◌, inl, inr, ◌==◌, ◌∙◌,
}
use dytor.Arena.{Arena, Offset, from_layouts}
use dytor.Context.{ContextId, clone}
use dytor.Graph.{ActorId}
use dytor.Registry.{TypeId, VTable, Registry, by_name}
use dytor.Lookup.{ActorData, ActorTree}
use dytor.Config.{ActorConfig}
use dytor.Shutdown.{links}
use dytor.Runtime.{
  upto, ContextConstructorArgs, ActorConstructorInfo, look_up, look_up_all, layouts, place,
  allocate_actors, id_of, in_context, Made, make_args,
}
use dytor.Runtime.Distributed.{IsIn, id_of-lt}

-- An actor of the id and the table stands in the list.
abbrev HasActor : {V : Type 0} → ActorId → VTable → List (ActorConstructorInfo V) → Type 0
HasActor id v [] = ⊥
HasActor id v (a ∷ actors) = ((a.id ≡ id) × (a.vtable ≡ v)) ⊎ HasActor id v actors

-- The tree has an actor of the id and the table in the context.
abbrev pub InTree : ActorTree → ActorId → VTable → ContextId → Type 0
InTree tree id v c =
    (o : Offset) × Memᴰ
      (record { id = id; vtable = v; loc = record { context_id = c; offset = o } }) tree

id_of-eq : (i c : ℕ) → i + 1 < u32_mod → id_of i ≡ returns c → i + 0 + 1 ≡ c
id_of-eq i c few h = let e = id_of-lt i few in ground arith

module _ {V : Type 0} where
  place-HasActor :
      (id : ActorId) (v : VTable) (actors : List (ActorConstructorInfo V)) (os : List Offset)
      → HasActor id v actors
      → HasActor id v (place actors os)
  unfolding place
  place-HasActor id v (a ∷ actors) (o ∷ os) (inl e) = inl e
  place-HasActor id v (a ∷ actors) (o ∷ os) (inr h) = inr (place-HasActor id v actors os h)
  place-HasActor id v (a ∷ actors) [] h = h
  place-HasActor id v [] os h = absurd h

  in_context-InTree :
      (id : ActorId) (v : VTable) (c : ContextId) (actors : List (ActorConstructorInfo V))
      → HasActor id v actors
      → InTree (in_context c actors) id v c
  unfolding in_context
  in_context-InTree id v c [] h = absurd h
  in_context-InTree id v c (a ∷ actors) (inl (p, q)) = (a.offset, Memᴰ.head (rw (p, q) refl))
  in_context-InTree id v c (a ∷ actors) (inr h) =
      let (o, m) = in_context-InTree id v c actors h in (o, Memᴰ.tail m)

  pub look_up_lem :
      (r : Registry) (c : ActorId × ActorConfig V) (info : ActorConstructorInfo V)
      → look_up r c ≡ returns info
      → (t : TypeId) × (v : VTable) × (by_name r c.1.typename ≡ some (t, v))
        × (info.id ≡ c.0)
        × (info.vtable ≡ v)
  unfolding look_up
  look_up_lem r (id, cfg) info h =
      let ((t, v), p, q) = >>=-eq-returns (unwrap (by_name r cfg.typename)) _ h in
      (t, v, ground arith, ground arith, ground arith)

  look_up_all-HasActor :
      (r : Registry) (configs : List (ActorId × ActorConfig V))
      (infos : List (ActorConstructorInfo V)) (id : ActorId) (cfg : ActorConfig V)
      → look_up_all r configs ≡ returns infos
      → Memᴰ (id, cfg) configs
      → (t : TypeId) × (v : VTable) × (by_name r cfg.typename ≡ some (t, v)) × HasActor id v infos
  unfolding look_up_all look_up
  look_up_all-HasActor r [] infos id cfg h m = absurd (Memᴰ.not-nil m)
  look_up_all-HasActor r (c ∷ configs) infos id cfg h m =
      let (info, p, q) = >>=-eq-returns (look_up r c) _ h in
      let (rest, s, u) = >>=-eq-returns (look_up_all r configs) _ q in
      let same : info ∷ rest ≡ infos = cc in
      elim (Memᴰ.cases_cons m) [
        | inl e ↦
            let (t, v, b, i, j) = look_up_lem r c info p in
            (
              t,
              v,
              rw (ap (λ x. x.1) e) b,
              subst (HasActor id v) same (inl (i ∙ sym (ap (λ x. x.0) e), j)),
            )
        | inr later ↦
            let (t, v, b, k) = look_up_all-HasActor r configs rest id cfg s later in
            (t, v, b, subst (HasActor id v) same (inr k))
      ]

  allocate_actors-HasActor :
      (r : Registry) (alloc : ℕ → ℕ) (configs : List (ActorId × ActorConfig V))
      (x : Arena × List (ActorConstructorInfo V)) (id : ActorId) (cfg : ActorConfig V)
      → allocate_actors r alloc configs ≡ returns x
      → Memᴰ (id, cfg) configs
      → (t : TypeId) × (v : VTable) × (by_name r cfg.typename ≡ some (t, v)) × HasActor id v x.1
  unfolding allocate_actors
  allocate_actors-HasActor r alloc configs x id cfg h m =
      let (infos, p, q) = >>=-eq-returns (look_up_all r configs) _ h in
      let (made, s, u) = >>=-eq-returns (from_layouts alloc (layouts infos)) _ q in
      let (_, _, w) = >>=-eq-returns (assert (length made.1 == length infos)) _ u in
      let e : ◌≡◌ {A = Arena × List (ActorConstructorInfo V)} (made.0, place infos made.1) x = cc in
      let (t, v, b, k) = look_up_all-HasActor r configs infos id cfg p m in
      (t, v, b, subst (λ y. HasActor id v y.1) e (place-HasActor id v infos made.1 k))

  -- The arguments for the thread of the context of index `i`.
  abbrev pub new_args :
      Registry
      → ℕ
      → ℕ
      → ContextId
      → Arena × List (ActorConstructorInfo V)
      → ContextConstructorArgs V
  new_args r n i id x = record {
    id = id;
    actors = x.1;
    arena = x.0;
    links = links n i;
    tree = none;
    make_tx = upto n;
    resource_map = r.resource_constructors;
  }

  -- What a round of the loop over the contexts adds.
  pub make_args-cons :
      (r : Registry) (alloc : ℕ → ℕ → ℕ) (n i : ℕ) (configs : List (ActorId × ActorConfig V))
      (groups : List (List (ActorId × ActorConfig V))) (made made' : Made V)
      → make_args r alloc n i (configs ∷ groups) made ≡ returns made'
      → (id : ContextId) × (x : Arena × List (ActorConstructorInfo V)) × (next : Made V) × (id_of i
          ≡ returns id)
        × (allocate_actors r (alloc i) configs ≡ returns x)
        × (next.tree ≡ made.tree ++ in_context id x.1)
        × (next.control_block ≡ clone made.control_block)
        × (make_args r alloc n (suc i) groups next ≡ returns made')
        × (next.constructor_args ≡ made.constructor_args ++ new_args r n i id x ∷ [])
  unfolding make_args
  make_args-cons r alloc n i configs groups made made' h =
      let (id, p, q) = >>=-eq-returns (id_of i) _ h in
      let (x, s, u) = >>=-eq-returns (allocate_actors r (alloc i) configs) _ q in
      (id, x, _, p, s, refl, refl, u, refl)

  pub make_args-nil :
      (r : Registry) (alloc : ℕ → ℕ → ℕ) (n i : ℕ) (made made' : Made V)
      → make_args r alloc n i [] made ≡ returns made'
      → made ≡ made'
  unfolding make_args
  make_args-nil r alloc n i made made' h = cc

  pub make_args-counts :
      (r : Registry) (alloc : ℕ → ℕ → ℕ) (n i : ℕ) (groups : List (List (ActorId × ActorConfig V)))
      (made made' : Made V)
      → make_args r alloc n i groups made ≡ returns made'
      → made.control_block.unhandled_events + length groups < u32_mod
      → made'.control_block ≡ record (made.control_block) {
        unhandled_events = made.control_block.unhandled_events + length groups;
      }
  make_args-counts r alloc n i [] made made' h few =
      let e = make_args-nil r alloc n i made made' h in ground arith
  make_args-counts r alloc n i (g ∷ groups) made made' h few =
      let (id, x, next, p, q, t, b, s, _) = make_args-cons r alloc n i g groups made made' h in
      ground (arith, make_args-counts r alloc n (suc i) groups next made' s)

  make_args-keeps :
      (r : Registry) (alloc : ℕ → ℕ → ℕ) (n i : ℕ) (groups : List (List (ActorId × ActorConfig V)))
      (made made' : Made V) (a : ActorData)
      → make_args r alloc n i groups made ≡ returns made'
      → Memᴰ a made.tree
      → Memᴰ a made'.tree
  make_args-keeps r alloc n i [] made made' a h m =
      subst (λ x. Memᴰ a x.tree) (make_args-nil r alloc n i made made' h) m
  make_args-keeps r alloc n i (g ∷ groups) made made' a h m =
      let (id, x, next, p, q, t, b, s, _) = make_args-cons r alloc n i g groups made made' h in
      make_args-keeps r alloc n (suc i) groups next made' a s
        (subst (Memᴰ a) (sym t) (Memᴰ.append_left (in_context id x.1) m))

  pub make_args-InTree :
      (r : Registry) (alloc : ℕ → ℕ → ℕ) (n i : ℕ) (groups : List (List (ActorId × ActorConfig V)))
      (made made' : Made V) (j : ℕ) (id : ActorId) (cfg : ActorConfig V)
      → make_args r alloc n i groups made ≡ returns made'
      → i + length groups < u32_mod
      → IsIn j (id, cfg) groups
      → (t : TypeId) × (v : VTable) × (by_name r cfg.typename ≡ some (t, v))
        × InTree made'.tree id v (i + j + 1)
  make_args-InTree r alloc n i [] made made' j id cfg h few m = absurd m
  make_args-InTree r alloc n i (g ∷ groups) made made' zero id cfg h few m =
      let (c, x, next, p, q, e, b, s, _) = make_args-cons r alloc n i g groups made made' h in
      let (t, v, k, a) = allocate_actors-HasActor r (alloc i) g x id cfg q m in
      let (o, l) = in_context-InTree id v c x.1 a in
      let named : i + 0 + 1 ≡ c = id_of-eq i c (omega arith) p in
      (
        t,
        v,
        k,
        rw named (
          o,
          make_args-keeps r alloc n (suc i) groups next made' _ s
              (subst (Memᴰ _) (sym e) (Memᴰ.append_right made.tree l)),
        ),
      )
  make_args-InTree r alloc n i (g ∷ groups) made made' (suc j) id cfg h few m =
      let (c, x, next, p, q, e, b, s, _) = make_args-cons r alloc n i g groups made made' h in
      let along : i + suc j + 1 ≡ suc i + j + 1 = omega arith in
      rw along (make_args-InTree r alloc n (suc i) groups next made' j id cfg s (omega arith) m)
