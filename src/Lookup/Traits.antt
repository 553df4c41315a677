-- ===== src/Lookup/Traits.antt =====
-- Lookups by trait (lookup.rs) in a registry that `Registry::get` (registry.rs) built.
use mathlib.Core.List.Memᴰ
use dytor.Common.{
  ℕ, ◌≡◌, refl, sym, ◌∙◌, ap, subst, arith, List, [], ◌∷◌, Memᴰ, some, returns, inl, inr,
  Option-cases, Bool-cases, ◌==◌, ==_iff, ==_refl,
}
use dytor.Common.Dict.{nat_eq}
use dytor.Context.{Key}
use dytor.Graph.{ActorId}
use dytor.Lookup.{ActorData, ActorTree, find_type, lookup_among, lookup_trait}
use dytor.Registry.{
  TypeId, TraitId, InterfaceMetadata, Registry, ActorType, ListNode, actor, get_registry,
}
use dytor.Registry.Traits.{
  implementors, declared, get_registry-implementors, declared-mem, mem-declared,
}

-- A list that `find` looks through.
find_type-some :
    (t : TypeId) (types : List InterfaceMetadata) (x : InterfaceMetadata)
    → Memᴰ x types
    → x.type_id ≡ t
    → (y : InterfaceMetadata) × (find_type t types ≡ some y)
unfolding find_type
find_type-some t [] x mem e = absurd (Memᴰ.not-nil mem)
find_type-some t (y ∷ types) x mem e = elim (Bool-cases (y.type_id == t)) [
  | inl same ↦ (y, rw same)
  | inr other ↦ elim (Memᴰ.cases_cons mem) [
    | inl q ↦ absurd (ground (arith, ==_refl t))
    | inr later ↦ let (z, f) = find_type-some t types x later e in (z, rw other f)
  ]
]

find_type-mem :
    (t : TypeId) (types : List InterfaceMetadata) (x : InterfaceMetadata)
    → find_type t types ≡ some x
    → Memᴰ x types × (x.type_id ≡ t)
unfolding find_type
find_type-mem t [] x e = cc
find_type-mem t (y ∷ types) x e = elim (Bool-cases (y.type_id == t)) [
  | inl same ↦
      let found : some y ≡ some x = rw same at e in
      let q : x ≡ y = cc in (Memᴰ.head q, ap (λ z. z.type_id) q ∙ (==_iff y.type_id t).0 same)
  | inr other ↦ let (mem, f) = find_type-mem t types x (rw other at e) in (Memᴰ.tail mem, f)
]

lookup_among-mem :
    (types : List InterfaceMetadata) (tree : ActorTree) (id : ActorId) (key : Key ℕ)
    → Memᴰ (id, key) (lookup_among types tree)
    → (a : ActorData) × (x : InterfaceMetadata) × Memᴰ a tree
      × (find_type a.vtable.type_id types ≡ some x)
      × (id ≡ a.id)
      × (key ≡ record { loc = a.loc; meta = x.dyn_meta })
unfolding lookup_among
lookup_among-mem types [] id key h = absurd (Memᴰ.not-nil h)
lookup_among-mem types (a ∷ tree) id key h =
    elim (Option-cases (find_type a.vtable.type_id types)) [
      | inl e ↦
          let (b, x, m, f, i, k) = lookup_among-mem types tree id key (rw (e, lookup_among) at h) in
          (b, x, Memᴰ.tail m, f, i, k)
      | inr (x, e) ↦ elim (Memᴰ.cases_cons (rw (e, lookup_among) at h)) [
        | inl q ↦ (a, x, Memᴰ.head refl, e, ap (λ p. p.0) q, ap (λ p. p.1) q)
        | inr after ↦
            let (b, y, m, f, i, k) = lookup_among-mem types tree id key after in
            (b, y, Memᴰ.tail m, f, i, k)
      ]
    ]

mem-lookup_among :
    (types : List InterfaceMetadata) (tree : ActorTree) (a : ActorData) (x : InterfaceMetadata)
    → Memᴰ a tree
    → find_type a.vtable.type_id types ≡ some x
    → Memᴰ (a.id, record { loc = a.loc; meta = x.dyn_meta }) (lookup_among types tree)
unfolding lookup_among
mem-lookup_among types [] a x m e = absurd (Memᴰ.not-nil m)
mem-lookup_among types (b ∷ tree) a x m e = elim (Memᴰ.cases_cons m) [
  | inl q ↦
      let found : find_type b.vtable.type_id types ≡ some x =
        subst (λ c. find_type c.vtable.type_id types ≡ some x) q e in
      rw (found, lookup_among)
        (Memᴰ.head (λ i. ((q i).id, record { loc = (q i).loc; meta = x.dyn_meta })))
  | inr after ↦
      let rest = mem-lookup_among types tree a x after e in
      elim (Option-cases (find_type b.vtable.type_id types)) [
        | inl f ↦ rw (f, lookup_among) rest
        | inr (y, f) ↦ rw (f, lookup_among) (Memᴰ.tail rest)
      ]
]

module _ (nodes : List ListNode) (r : Registry) (built : get_registry nodes ≡ returns r)
    (tr : TraitId) (tree : ActorTree) where
  types-eq : implementors r tr ≡ declared tr nodes
  types-eq = get_registry-implementors nodes r tr built

  -- In a registry that was built without a panic, a lookup by trait finds each actor whose type was
  -- registered with the trait, with its id and place and the metadata of such a registration.
  pub lookup_trait_complete :
      (a : ActorData) (t : ActorType) (meta : InterfaceMetadata)
      → Memᴰ a tree
      → Memᴰ (actor t) nodes
      → Memᴰ (tr, meta) t.traits
      → meta.type_id ≡ a.vtable.type_id
      → (x : InterfaceMetadata) × (u : ActorType) × Memᴰ (actor u) nodes
        × Memᴰ (tr, x) u.traits
        × (x.type_id ≡ a.vtable.type_id)
        × Memᴰ (a.id, record { loc = a.loc; meta = x.dyn_meta }) (lookup_trait r tr tree)
  unfolding lookup_trait
  lookup_trait_complete a t meta m listed declares same =
      let among : Memᴰ meta (implementors r tr) =
        subst (Memᴰ meta) (sym types-eq) (declared-mem tr nodes t meta listed declares) in
      let (x, found) = find_type-some a.vtable.type_id (implementors r tr) meta among same in
      let (inside, typed) = find_type-mem a.vtable.type_id (implementors r tr) x found in
      let (u, by_u, with_x) = mem-declared tr nodes x (subst (Memᴰ x) types-eq inside) in
      (x, u, by_u, with_x, typed, mem-lookup_among (implementors r tr) tree a x m found)

  -- In a registry that was built without a panic, what a lookup by trait finds is the id and the place
  -- of an actor, and the metadata with which the actor's type was registered for the trait.
  pub lookup_trait_sound :
      (id : ActorId) (key : Key ℕ)
      → Memᴰ (id, key) (lookup_trait r tr tree)
      → (a : ActorData) × (t : ActorType) × (meta : InterfaceMetadata) × Memᴰ a tree
        × (id ≡ a.id)
        × (key ≡ record { loc = a.loc; meta = meta.dyn_meta })
        × Memᴰ (actor t) nodes
        × Memᴰ (tr, meta) t.traits
        × (meta.type_id ≡ a.vtable.type_id)
  unfolding lookup_trait
  lookup_trait_sound id key h =
      let (a, x, m, found, i, k) = lookup_among-mem (implementors r tr) tree id key h in
      let (among, same) = find_type-mem a.vtable.type_id (implementors r tr) x found in
      let (t, listed, declares) = mem-declared tr nodes x (subst (Memᴰ x) types-eq among) in
      (a, t, x, m, i, k, listed, declares, same)
