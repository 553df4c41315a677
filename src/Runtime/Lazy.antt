-- ===== src/Runtime/Lazy.antt =====
-- Resources (context.rs, runtime/mod.rs, registry.rs) are constructed at the first access, and once.
use dytor.Common.{
  ℕ, ◌≡◌, refl, sym, ◌∙◌, ap, List, [], ◌∷◌, Memᴰ, Option, none, some, Exec, returns, panics,
  Option-cases, Bool-cases, inl, inr, ◌==◌, ==_iff, ==_refl, if◌then◌else◌,
}
use dytor.Common.Dict.{nat_eq, Dict, get, insert, get-insert}
use dytor.Registry.{TypeId, empty_registry, Registry, ListNode, resource, get_registry}
use dytor.Registry.Constructors.{call_all-resource}
use dytor.Runtime.Resources.{
  LazyResource, pending, ready, poisoned, Resources, resource_map, settle, force, get_resource,
  get_resources,
}

insert-same :
    {A : Type 0} (t : TypeId) (v : A) (d : Dict TypeId A) → get t d ≡ some v → insert t v d ≡ d
unfolding get insert
insert-same t v [] e = cc
insert-same t v ((u, w) ∷ d) e = elim (Bool-cases (u == t)) [
  | inl same ↦
      let found : some w ≡ some v = rw same at e in
      let value : w ≡ v = cc in
      let key = (==_iff u t).0 same in rw same (λ i. (sym key i, sym value i) ∷ d)
  | inr other ↦ rw other (ap (λ rest. (u, w) ∷ rest) (insert-same t v d (rw other at e)))
]

panics-returns : {A : Type 0} {a : A} → panics ≡ returns a → ⊥
panics-returns e = cc

module _ {W S : Type 0} (construct : ℕ → W → Option S × W) where
  -- An access that finds the value changes nothing.
  get_resource-ready :
      (id : TypeId) (s : S) (state : Resources S × W)
      → get id state.0 ≡ some (ready s)
      → get_resource construct id state ≡ (returns s, state.0, state.1)
  unfolding get_resource
  get_resource-ready id s (resources, w) e =
      rw (e, get_resource) (ap (λ m. (returns s, m, w)) (insert-same id (ready s) resources e))

  -- A value stays, whichever resource is accessed.
  get_resource-kept :
      (id other : TypeId) (s : S) (state : Resources S × W)
      → get id state.0 ≡ some (ready s)
      → get id (get_resource construct other state).1 ≡ some (ready s)
  unfolding get_resource
  get_resource-kept id other s (resources, w) e = elim (Option-cases (get other resources)) [
    | inl f ↦ rw (f, get_resource) e
    | inr (l, f) ↦
        rw (f, get_resource) (get-insert other id (force construct l w).1 resources ∙ inserted l f)
  ]
    where
      inserted :
          (l : LazyResource S)
          → get other resources ≡ some l
          → (if other == id then some (force construct l w).1 else get id resources)
            ≡ some (ready s)
      inserted l f = elim (Bool-cases (other == id)) [
        | inr apart ↦ rw apart e
        | inl same ↦
            let both : some l ≡ some (ready s) =
              sym f ∙ ap (λ k. get k resources) ((==_iff other id).0 same) ∙ e in
            let value : l ≡ ready s = cc in rw (same, value) refl
      ]

  get_resources-kept :
      (ids : List TypeId) (id : TypeId) (s : S) (state : Resources S × W)
      → get id state.0 ≡ some (ready s)
      → get id (get_resources construct ids state).0 ≡ some (ready s)
  unfolding get_resources
  get_resources-kept [] id s state e = e
  get_resources-kept (other ∷ ids) id s state e =
      let accessed = get_resource construct other state in
      get_resources-kept ids id s (accessed.1, accessed.2) (get_resource-kept id other s state e)

  settle-returns :
      (x : Option S × W) (s : S)
      → (settle construct x).0 ≡ returns s
      → (settle construct x).1 ≡ ready s
  settle-returns (none, w) s e = absurd (panics-returns e)
  settle-returns (some v, w) s e = cc

  force-returns :
      (l : LazyResource S) (w : W) (s : S)
      → (force construct l w).0 ≡ returns s
      → (force construct l w).1 ≡ ready s
  force-returns (pending f) w s e = settle-returns (construct f w) s e
  force-returns (ready v) w s e = cc
  force-returns poisoned w s e = absurd (panics-returns e)

  -- The access that returns a value leaves it in the map.
  get_resource-returns :
      (id : TypeId) (s : S) (resources resources' : Resources S) (w w' : W)
      → get_resource construct id (resources, w) ≡ (returns s, resources', w')
      → get id resources' ≡ some (ready s)
  unfolding get_resource
  get_resource-returns id s resources resources' w w' h = elim (Option-cases (get id resources)) [
    | inl f ↦
        let none_found : ◌≡◌ {A = Exec S × Resources S × W} (panics, resources, w)
            (returns s, resources', w') =
          rw (f, get_resource) at h in
        absurd (panics-returns (ap (λ x. x.0) none_found))
    | inr (l, f) ↦
        let found : ◌≡◌ {A = Exec S × Resources S × W}
            (
              (force construct l w).0,
              insert id (force construct l w).1 resources,
              (force construct l w).2,
            )
            (returns s, resources', w') =
          rw (f, get_resource) at h in
        ap (get id) (sym (ap (λ x. x.1) found))
        ∙ get-insert id id (force construct l w).1 resources
        ∙ rw (==_refl id) (ap some (force-returns l w s (ap (λ x. x.0) found)))
  ]

  -- Once an access to a resource has returned a value, then after any further accesses, to any
  -- resources, each access to it returns that value, and constructs nothing: the map and what the
  -- constructors can change stay as they are.
  get_resource-once :
      (id : TypeId) (s : S) (resources resources' : Resources S) (w w' : W) (ids : List TypeId)
      → get_resource construct id (resources, w) ≡ (returns s, resources', w')
      → get_resource construct id (get_resources construct ids (resources', w')) ≡ (
        returns s,
        (get_resources construct ids (resources', w')).0,
        (get_resources construct ids (resources', w')).1,
      )
  get_resource-once id s resources resources' w w' ids h =
      get_resource-ready id s (get_resources construct ids (resources', w')) (
        get_resources-kept ids id s (resources', w')
          (get_resource-returns id s resources resources' w w' h))

get-resource_map :
    (S : Type 0) (t : TypeId) (f : ℕ) (constructors : Dict TypeId ℕ)
    → get t constructors ≡ some f
    → get t (resource_map {S = S} constructors) ≡ some (pending f)
unfolding get resource_map
get-resource_map S t f [] e = cc
get-resource_map S t f ((u, g) ∷ constructors) e = elim (Bool-cases (u == t)) [
  | inl same ↦ let found : some g ≡ some f = rw same at e in rw same (ap some (ap pending (cc)))
  | inr other ↦ rw other (get-resource_map S t f constructors (rw other at e))
]

get_resource-makes :
    {W S : Type 0} (construct : ℕ → W → Option S × W) (t : TypeId) (f : ℕ) (w w' : W) (s : S)
    (resources : Resources S)
    → get t resources ≡ some (pending f)
    → construct f w ≡ (some s, w')
    → get_resource construct t (resources, w) ≡ (returns s, insert t (ready s) resources, w')
unfolding get_resource
get_resource-makes construct t f w w' s resources waits makes = rw (waits, get_resource, makes) refl

-- In a process whose registry was built without a panic from nodes with the constructor `f` for a
-- resource, if `f` makes a value, then the first access to the resource returns it, and leaves what `f`
-- leaves; and after any further accesses, to any resources, each access to it returns that value, and
-- constructs nothing: the map and what the constructors can change stay as they are.
pub get_resource-get_registry :
    {W S : Type 0} (construct : ℕ → W → Option S × W) (nodes : List ListNode) (r : Registry)
    (t : TypeId) (f : ℕ) (w w' : W) (s : S) (ids : List TypeId)
    → get_registry nodes ≡ returns r
    → Memᴰ (resource t f) nodes
    → construct f w ≡ (some s, w')
    → (resources : Resources S) × (get_resource construct t
          (resource_map r.resource_constructors, w)
        ≡ (returns s, resources, w'))
      × (get_resource construct t (get_resources construct ids (resources, w')) ≡ (
        returns s,
        (get_resources construct ids (resources, w')).0,
        (get_resources construct ids (resources, w')).1,
      ))
unfolding get_registry
get_resource-get_registry {S = S} construct nodes r t f w w' s ids built listed makes =
    let constructors = r.resource_constructors in
    let waits =
      get-resource_map S t f constructors
        (call_all-resource nodes empty_registry r t f built listed) in
    let first = get_resource-makes construct t f w w' s (resource_map constructors) waits makes in
    (_, first, get_resource-once construct t s (resource_map constructors) _ w w' ids first)
