-- ===== src/Runtime/Homes.antt =====
-- `create_context_args` of runtime/mod.rs: the tree that it makes and the actors that it hands to the
-- threads are the same, and the actors of each thread are placed apart.
use mathlib.Core.List.Memᴰ
use dytor.Common.{
  ℕ, suc, ◌+◌, ◌<◌, ◌≤◌, ◌≡◌, refl, sym, ap, ◌∙◌, subst, arith, List, [], ◌∷◌, ◌++◌, Memᴰ, some,
  Exec, returns, assert, unwrap, >>=-eq-returns, to_u32-returns, ltb, All, usize_mod, u32_mod, inl,
  inr, ◌⊎◌,
}
use dytor.Arena.{
  Arena, Offset, Layout, IsLayout, compute_space_required, advance_all, empty_space, from_layouts,
}
use dytor.Arena.Fits.{Packed}
use dytor.Context.{ContextId}
use dytor.Graph.{ActorId}
use dytor.Registry.{TypeId, VTable, layout, Registry, by_name}
use dytor.Lookup.{ActorData}
use dytor.Config.{ActorConfig}
use dytor.Runtime.{
  ActorConstructorInfo, ContextConstructorArgs, look_up, look_up_all, layouts, place,
  allocate_actors, in_context, Made,
}
use dytor.Runtime.Placed.{IsFound, none_found, one_found, offsets, allocate_actors-Packed}
use dytor.Runtime.Launch.{nothing_made}

-- Every table in the registry has a valid layout.
abbrev pub HasLayouts : Registry → Type 0
HasLayouts r =
    (name : _) (t : TypeId) (v : VTable) → by_name r name ≡ some (t, v) → IsLayout (layout v)

-- The allocator's blocks lie within the address space, for the sizes that an arena can have.
abbrev pub Fitting : (ℕ → ℕ) → Type 0
Fitting alloc = (size : ℕ) → size < u32_mod → alloc size + size < usize_mod

pub compute_space_required-lt :
    (ls : List Layout) (capacity : ℕ)
    → compute_space_required ls ≡ returns capacity
    → capacity < u32_mod
unfolding compute_space_required
compute_space_required-lt ls capacity h =
    let (s, _, q) = >>=-eq-returns (advance_all empty_space ls) _ h in
    let (small, e) = to_u32-returns s.res capacity q in omega arith

-- The actors stand aligned and apart in their arena.
pub record IsPlaced {V : Type 0} (arena : Arena) (actors : List (ActorConstructorInfo V))
    : Type 0 where
  pub room : arena.base + arena.capacity < usize_mod
  pub packed : Packed arena.base arena.capacity 0 (layouts actors) (offsets actors)
  pub layouts_valid : All IsLayout (layouts actors)

module _ {V : Type 0} (r : Registry) (valid : HasLayouts r) where
  look_up-found :
      (id : ActorId) (cfg : ActorConfig V) (info : ActorConstructorInfo V)
      → look_up r (id, cfg) ≡ returns info
      → (t : TypeId) × (v : VTable) × (by_name r cfg.typename ≡ some (t, v))
        × (record { id = id; offset = 0; vtable = v; cfg = cfg } ≡ info)
  unfolding look_up
  look_up-found id cfg info h =
      let ((t, v), p, q) = >>=-eq-returns (unwrap (by_name r cfg.typename)) _ h in
      (t, v, ground arith, cc)

  look_up_all-returns :
      (configs : List (ActorId × ActorConfig V)) (infos : List (ActorConstructorInfo V))
      → look_up_all r configs ≡ returns infos
      → IsFound r configs infos × All IsLayout (layouts infos)
  unfolding look_up_all
  look_up_all-returns [] infos h =
      let e : [] ≡ infos = cc in
      subst (λ l. IsFound r [] l × All IsLayout (layouts l)) e (none_found, tt)
  look_up_all-returns ((id, cfg) ∷ configs) infos h =
      let (info, p, q) = >>=-eq-returns (look_up r (id, cfg)) _ h in
      let (rest, s, u) = >>=-eq-returns (look_up_all r configs) _ q in
      let (t, v, b, made) = look_up-found id cfg info p in
      let (found, ok) = look_up_all-returns configs rest s in
      let same : record { id = id; offset = 0; vtable = v; cfg = cfg } ∷ rest ≡ infos =
        rw made (cc) in
      subst (λ l. IsFound r ((id, cfg) ∷ configs) l × All IsLayout (layouts l)) same
        (one_found b found, (valid cfg.typename t v b, ok))

  layouts-place :
      (infos : List (ActorConstructorInfo V)) (os : List Offset)
      → layouts (place infos os) ≡ layouts infos
  unfolding place
  layouts-place [] [] = refl
  layouts-place [] (o ∷ os) = refl
  layouts-place (a ∷ infos) [] = refl
  layouts-place (a ∷ infos) (o ∷ os) = ap (λ ls. layout a.vtable ∷ ls) (layouts-place infos os)

  pub allocate_actors-IsPlaced :
      (alloc : ℕ → ℕ) (configs : List (ActorId × ActorConfig V))
      (x : Arena × List (ActorConstructorInfo V))
      → Fitting alloc
      → allocate_actors r alloc configs ≡ returns x
      → IsPlaced x.0 x.1
  unfolding allocate_actors from_layouts
  allocate_actors-IsPlaced alloc configs x fits h =
      let (infos, p, h1) = >>=-eq-returns (look_up_all r configs) _ h in
      let (made, q, h2) = >>=-eq-returns (from_layouts alloc (layouts infos)) _ h1 in
      let (capacity, c, q1) = >>=-eq-returns (compute_space_required (layouts infos)) _ q in
      let (_, b, q2) = >>=-eq-returns (assert (ltb 0 (alloc capacity))) _ q1 in
      let small = compute_space_required-lt (layouts infos) capacity c in
      let pos : 0 < alloc capacity = ground arith in
      let (found, ok) = look_up_all-returns configs infos p in
      let (os, e, kept, packed) =
        allocate_actors-Packed r alloc capacity configs infos found ok c pos
          (fits capacity small) in
      let same : ◌≡◌ {A = Exec (Arena × List (ActorConstructorInfo V))}
          (returns (record { base = alloc capacity; capacity = capacity }, place infos os))
          (returns x) =
        sym e ∙ h in
      let eq : ◌≡◌ {A = Arena × List (ActorConstructorInfo V)}
          (record { base = alloc capacity; capacity = capacity }, place infos os) x =
        cc in
      subst (λ y. IsPlaced y.0 y.1) eq
        (record {
          room = fits capacity small;
          packed = rw kept packed;
          layouts_valid = rw (layouts-place infos os) ok;
        })

-- The actor of the tree's entry is among those of the arguments, at the same offset.
abbrev pub Matches : {V : Type 0} → ActorData → List (ActorConstructorInfo V) → Type 0
Matches {V} e actors =
    (a : ActorConstructorInfo V) × Memᴰ a actors
    × (a.id ≡ e.id)
    × (a.vtable ≡ e.vtable)
    × (a.offset ≡ e.loc.offset)

-- What the loop over the contexts has made before that of index `i`.
pub record Homes {V : Type 0} (i : ℕ) (made : Made V) : Type 0 where
  pub ids : (c : ContextConstructorArgs V) → Memᴰ c made.constructor_args → c.id ≤ i
  pub entries : (e : ActorData) → Memᴰ e made.tree → e.loc.context_id ≤ i
  pub placed :
      (c : ContextConstructorArgs V) → Memᴰ c made.constructor_args → IsPlaced c.arena c.actors
  pub homes :
      (c : ContextConstructorArgs V) (e : ActorData)
      → Memᴰ c made.constructor_args
      → Memᴰ e made.tree
      → e.loc.context_id ≡ c.id
      → Matches e c.actors

pub mem-in_context :
    {V : Type 0} (c : ContextId) (actors : List (ActorConstructorInfo V)) (e : ActorData)
    → Memᴰ e (in_context c actors)
    → (e.loc.context_id ≡ c) × Matches e actors
unfolding in_context
mem-in_context c [] e m = absurd (Memᴰ.not-nil m)
mem-in_context c (a ∷ actors) e m = elim (Memᴰ.cases_cons m) [
  | inl same ↦ rw same (refl, (a, Memᴰ.head refl, refl, refl, refl))
  | inr later ↦
      let (p, (b, k, x, y, z)) = mem-in_context c actors e later in (p, (b, Memᴰ.tail k, x, y, z))
]

mem-last : {A : Type 0} {x : A} (xs : List A) (y : A) → Memᴰ x (xs ++ y ∷ []) → Memᴰ x xs ⊎ (x ≡ y)
mem-last xs y m = elim (Memᴰ.append_cases xs m) [
  | inl k ↦ inl k
  | inr k ↦ elim (Memᴰ.cases_cons k) [
    | inl e ↦ inr e
    | inr none_left ↦ absurd (Memᴰ.not-nil none_left)
  ]
]

pub Homes-start : {V : Type 0} → Homes 0 (nothing_made {V = V})
Homes-start = record {
  ids = λ c m. absurd (Memᴰ.not-nil m);
  entries = λ e m. absurd (Memᴰ.not-nil m);
  placed = λ c m. absurd (Memᴰ.not-nil m);
  homes = λ c e m. absurd (Memᴰ.not-nil m);
}

module _ {V : Type 0} (i : ℕ) (made next : Made V) (new : ContextConstructorArgs V)
    (before : Homes i made) (own : new.id ≡ suc i) (ok : IsPlaced new.arena new.actors)
    (tree_is : next.tree ≡ made.tree ++ in_context new.id new.actors)
    (args_are : next.constructor_args ≡ made.constructor_args ++ new ∷ []) where
  arg_cases :
      (c : ContextConstructorArgs V)
      → Memᴰ c next.constructor_args
      → Memᴰ c made.constructor_args ⊎ (c ≡ new)
  arg_cases c m = mem-last made.constructor_args new (subst (Memᴰ c) args_are m)

  entry_cases :
      (e : ActorData)
      → Memᴰ e next.tree
      → Memᴰ e made.tree ⊎ ((e.loc.context_id ≡ new.id) × Matches e new.actors)
  entry_cases e m = elim (Memᴰ.append_cases made.tree (subst (Memᴰ e) tree_is m)) [
    | inl k ↦ inl k
    | inr k ↦ inr (mem-in_context new.id new.actors e k)
  ]

  pub Homes-round : Homes (suc i) next
  Homes-round = record {
    ids = λ c m. elim (arg_cases c m) [
      | inl k ↦ omega (arith, before.ids c k)
      | inr e ↦ rw e (omega arith)
    ];
    entries = λ e m. elim (entry_cases e m) [
      | inl k ↦ omega (arith, before.entries e k)
      | inr (p, _) ↦ omega arith
    ];
    placed = λ c m. elim (arg_cases c m) [ inl k ↦ before.placed c k | inr e ↦ rw e ok ];
    homes = λ c e m k same. elim (arg_cases c m) [
      | inl mc ↦ elim (entry_cases e k) [
        | inl me ↦ before.homes c e mc me same
        | inr (p, _) ↦ absurd (omega (arith, before.ids c mc))
      ]
      | inr is_new ↦ elim (entry_cases e k) [
        | inl me ↦ absurd (omega (arith, before.entries e me, ap (λ x. x.id) is_new))
        | inr (p, found) ↦ rw is_new found
      ]
    ];
  }
