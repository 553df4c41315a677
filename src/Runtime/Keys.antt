-- ===== src/Runtime/Keys.antt =====
-- The keys that a query hands out (lookup.rs) lead to the objects that the threads construct
-- (runtime/mod.rs).
use mathlib.Core.List.Memᴰ
use dytor.Common.{
  ℕ, suc, ◌+◌, ◌<◌, ◌≤◌, ◌≡◌, refl, sym, ap, ◌∙◌, subst, arith, List, [], ◌∷◌, Memᴰ, Option, some,
  Exec, returns, length, u32_mod, inl, inr, Bool-cases, ◌==◌, ==_iff,
}
use native.Mathlib.Nat.{mod-eq_of_lt}
use dytor.Arena.{offset}
use dytor.Arena.Fits.{Packed}
use dytor.Context.{Key, Loc}
use dytor.Graph.{ActorId}
use dytor.Registry.{TypeId, VTable, Registry, layout}
use dytor.Lookup.{ActorData, ActorTree, lookup_type}
use dytor.Config.{ActorConfig, Config}
use dytor.Object.{Object, Memory, uninit}
use dytor.Runtime.{
  ActorConstructorInfo, ContextConstructorArgs, layouts, id_of, Made, make_args, with_tree,
  create_context_args,
}
use dytor.Runtime.Create.{InitData, InitStage, construct_all}
use dytor.Runtime.Distributed.{id_of-lt}
use dytor.Runtime.Arguments.{make_args-cons, make_args-nil, new_args}
use dytor.Runtime.Launch.{create_context_args-Launched, nothing_made}
use dytor.Runtime.Homes.{
  HasLayouts, Fitting, IsPlaced, Homes, Homes-start, Homes-round, allocate_actors-IsPlaced,
}
use dytor.Runtime.Objects.{Holds, object_of, AllHold, Packed-le}
use dytor.Runtime.Placed.{offsets}
use dytor.Runtime.Tables.{IsTable, make_args-IsTable}
use dytor.Runtime.Dropped.{construct_all-drop_all}

mem-lookup_type :
    (t : TypeId) (tree : ActorTree) (id : ActorId) (key : Key (Unit {0}))
    → Memᴰ (id, key) (lookup_type t tree)
    → (e : ActorData) × Memᴰ e tree × (e.id ≡ id) × (e.loc ≡ key.loc) × (e.vtable.type_id ≡ t)
unfolding lookup_type
mem-lookup_type t [] id key m = absurd (Memᴰ.not-nil m)
mem-lookup_type t (e ∷ tree) id key m = elim (Bool-cases (e.vtable.type_id == t)) [
  | inl here ↦ elim (Memᴰ.cases_cons (rw here at m)) [
    | inl same ↦ (
      e,
      Memᴰ.head refl,
      ap (λ x. x.0) (sym same),
      ap (λ x. x.1.loc) (sym same),
      (==_iff e.vtable.type_id t).0 here,
    )
    | inr later ↦
        let (d, k, x, y, z) = mem-lookup_type t tree id key later in (d, Memᴰ.tail k, x, y, z)
  ]
  | inr other ↦
      let (d, k, x, y, z) = mem-lookup_type t tree id key (rw other at m) in
      (d, Memᴰ.tail k, x, y, z)
]

AllHold-mem :
    {V : Type 0} (base : ℕ) (actors : List (ActorConstructorInfo V)) (m : Memory)
    (a : ActorConstructorInfo V)
    → AllHold base actors m
    → Memᴰ a actors
    → Holds m (base + a.offset) a.vtable.size (object_of a)
AllHold-mem base [] m a all k = absurd (Memᴰ.not-nil k)
AllHold-mem base (b ∷ actors) m a all k = elim (Memᴰ.cases_cons k) [
  | inl e ↦ subst (λ c. Holds m (base + c.offset) c.vtable.size (object_of c)) (sym e) all.0
  | inr later ↦ AllHold-mem base actors m a all.1 later
]

Packed-inside :
    {V : Type 0} (base capacity from : ℕ) (actors : List (ActorConstructorInfo V))
    (a : ActorConstructorInfo V)
    → Packed base capacity from (layouts actors) (offsets actors)
    → Memᴰ a actors
    → a.offset ≤ capacity
Packed-inside base capacity from [] a p k = absurd (Memᴰ.not-nil k)
Packed-inside base capacity from (b ∷ actors) a p k = elim (Memᴰ.cases_cons k) [
  | inl e ↦
      let after =
        Packed-le base capacity (b.offset + (layout b.vtable).size) (layouts actors)
          (offsets actors) p.2 in
      omega (arith, after, ap (λ x. x.offset) e)
  | inr later ↦ Packed-inside base capacity (b.offset + (layout b.vtable).size) actors a p.2 later
]

at_key :
    (m : Memory) (base size : ℕ) {o o' : ℕ} {x y : Object}
    → o ≡ o'
    → x ≡ y
    → Holds m (base + o) size x
    → Holds m (base + o') size y
at_key m base size p q there = rw (← p, ← q) there

module _ {V : Type 0} (r : Registry) (valid : HasLayouts r) (alloc : ℕ → ℕ → ℕ)
    (fits : (i : ℕ) → Fitting (alloc i)) where
  make_args-Homes :
      (n i : ℕ) (groups : List (List (ActorId × ActorConfig V))) (made made' : Made V)
      → make_args r alloc n i groups made ≡ returns made'
      → i + length groups < u32_mod
      → Homes i made
      → Homes (i + length groups) made'
  make_args-Homes n i [] made made' h few homes =
      let e : i + 0 ≡ i = omega arith in
      rw e (subst (Homes i) (make_args-nil r alloc n i made made' h) homes)
  make_args-Homes n i (g ∷ groups) made made' h few homes =
      let (id, x, next, p, q, t, b, s, args_are) =
        make_args-cons r alloc n i g groups made made' h in
      let named : id ≡ suc i = next_id id p in
      let ok = allocate_actors-IsPlaced r valid (alloc i) g x (fits i) q in
      let round = Homes-round i made next (new_args r n i id x) homes named ok t args_are in
      let along : i + suc (length groups) ≡ suc i + length groups = omega arith in
      rw along (make_args-Homes n (suc i) groups next made' s (omega arith) round)
    where
      next_id : (id : ℕ) → id_of i ≡ returns id → id ≡ suc i
      next_id id p = let e = id_of-lt i (omega arith) in ground arith

  mem-with_tree :
      (tree : ActorTree) (cs : List (ContextConstructorArgs V)) (c : ContextConstructorArgs V)
      → Memᴰ c (with_tree tree cs)
      → (d : ContextConstructorArgs V) × Memᴰ d cs × (c ≡ record d { tree = some tree })
  unfolding with_tree
  mem-with_tree tree [] c m = absurd (Memᴰ.not-nil m)
  mem-with_tree tree (d ∷ cs) c m = elim (Memᴰ.cases_cons m) [
    | inl e ↦ (d, Memᴰ.head refl, e)
    | inr later ↦ let (b, k, e) = mem-with_tree tree cs c later in (b, Memᴰ.tail k, e)
  ]

  -- Let all tables of the registry have valid layouts, the allocator return blocks within the address
  -- space, and the contexts be fewer than 2^32. Where an entry of the tree that `create_context_args`
  -- gave to any thread says that an actor stands, in the context that it names, is the object of that
  -- actor, of the type of its table, once the thread of the context has constructed its actors; and the table is
  -- one that the registry has for a name.
  pub entry-Holds :
      {D M : Type 0} (deserialize : VTable → V → Option D)
      (initialise : VTable → InitStage → D → InitData M → Exec (Option (InitData M)))
      (config : Config V) (args : List (ContextConstructorArgs V)) (block : _)
      (asking home : ContextConstructorArgs V) (tree : ActorTree) (e : ActorData)
      (init init' : InitData M) (m : Memory)
      → create_context_args r alloc config ≡ returns (args, block)
      → length config.contexts < u32_mod
      → Memᴰ asking args
      → asking.tree ≡ some tree
      → Memᴰ e tree
      → Memᴰ home args
      → e.loc.context_id ≡ home.id
      → construct_all deserialize initialise home.arena home.resource_map home.actors (init, uninit)
        ≡ returns (init', m)
      → Holds m
          (offset home.arena e.loc.offset)
          e.vtable.size
          (record { actor = e.id; type_id = e.vtable.type_id })
        × IsTable r e.vtable
  unfolding offset
  entry-Holds deserialize initialise config args block asking home tree e init init' m h few ask
        has_tree ke at_home same made =
      let l = create_context_args-Launched r alloc config args block h in
      let homes =
        make_args-Homes (length config.contexts) 0 l.groups nothing_made l.made l.looped
          (omega (arith, l.many)) Homes-start in
      let (_, _, asks) =
        mem-with_tree l.made.tree l.made.constructor_args asking
          (subst (Memᴰ asking) l.args_are ask) in
      let (d, kd, is_home) =
        mem-with_tree l.made.tree l.made.constructor_args home
          (subst (Memᴰ home) l.args_are at_home) in
      let tree_is : tree ≡ l.made.tree = cc (ap (λ x. x.tree) asks) in
      let at : e.loc.context_id ≡ d.id = same ∙ ap (λ x. x.id) is_home in
      let (a, ka, ia, va, oa) = homes.homes d e kd (subst (Memᴰ e) tree_is ke) at in
      let ok : IsPlaced home.arena home.actors =
        subst (λ x. IsPlaced x.arena x.actors) (sym is_home) (homes.placed d kd) in
      let (all, _) =
        construct_all-drop_all deserialize initialise home.arena home.resource_map home.actors init
          init' m ok.room ok.packed ok.layouts_valid made in
      let ka' : Memᴰ a home.actors = subst (λ x. Memᴰ a x.actors) (sym is_home) ka in
      let there = AllHold-mem home.arena.base home.actors m a all ka' in
      let object_is : object_of a ≡ record { actor = e.id; type_id = e.vtable.type_id } =
        ground arith in
      let inside =
        Packed-inside home.arena.base home.arena.capacity 0 home.actors a ok.packed ka' in
      let ptr : offset home.arena e.loc.offset ≡ home.arena.base + e.loc.offset =
        mod-eq_of_lt (omega (arith, ok.room)) in
      let held = at_key m home.arena.base a.vtable.size oa object_is there in
      (
        rw (ptr, ← ap (λ v. v.size) va) held,
        make_args-IsTable r alloc (length config.contexts) 0 l.groups nothing_made l.made e l.looped
            (λ x k. absurd (Memᴰ.not-nil k)) (subst (Memᴰ e) tree_is ke),
      )

  -- Under the same conditions a key that a lookup by type finds leads to the object of that actor, of
  -- that type.
  pub lookup_type-Holds :
      {D M : Type 0} (deserialize : VTable → V → Option D)
      (initialise : VTable → InitStage → D → InitData M → Exec (Option (InitData M)))
      (config : Config V) (args : List (ContextConstructorArgs V)) (block : _)
      (asking home : ContextConstructorArgs V) (tree : ActorTree) (t : TypeId) (id : ActorId)
      (key : Key (Unit {0})) (init init' : InitData M) (m : Memory)
      → create_context_args r alloc config ≡ returns (args, block)
      → length config.contexts < u32_mod
      → Memᴰ asking args
      → asking.tree ≡ some tree
      → Memᴰ (id, key) (lookup_type t tree)
      → Memᴰ home args
      → key.loc.context_id ≡ home.id
      → construct_all deserialize initialise home.arena home.resource_map home.actors (init, uninit)
        ≡ returns (init', m)
      → (v : VTable) × IsTable r v
        × (v.type_id ≡ t)
        × Holds m (offset home.arena key.loc.offset) v.size (record { actor = id; type_id = t })
  lookup_type-Holds deserialize initialise config args block asking home tree t id key init init' m
        h few ask has_tree found at_home same made =
      let (e, ke, ie, le, te) = mem-lookup_type t tree id key found in
      let (there, is_table) =
        entry-Holds deserialize initialise config args block asking home tree e init init' m h few
          ask has_tree ke at_home (ap (λ x. x.context_id) le ∙ same) made in
      (
        e.vtable,
        is_table,
        te,
        subst
            (λ (x : Loc × ActorId × TypeId).
              Holds m (offset home.arena x.0.offset) e.vtable.size
                (record { actor = x.1; type_id = x.2 }))
            (λ i. (le i, ie i, te i)) there,
      )
