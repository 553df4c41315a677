-- ===== src/Replay/Sources.antt =====
-- `Synchronizer::init` of crates/examples/replay/src/synchronizer.rs: the accessors that the task is
-- given, one for each producer.
use mathlib.Core.List.Memᴰ
use dytor.Common.{
  ℕ, ◌≡◌, ◌↔◌, refl, sym, subst, arith, List, [], ◌∷◌, Memᴰ, Option, some, Exec, returns, panics,
  ◌>>=◌, >>=-eq-returns, unwrap, get_elem?, inl, inr, ◌⊎◌, ◌∙◌,
}
use dytor.Context.{as_index, Key, ControlBlock}
use dytor.Graph.{ActorId}
use dytor.Registry.{TypeId, TraitId, Registry, get_registry}
use dytor.Registry.Macros.{Declaration, nodes_of}
use dytor.Lookup.{ActorTree, Found, Accessor, accessor_for_key, all_accessors, lookup_trait}
use dytor.Lookup.Declared.{IsDeclared, lookup_trait_iff}
use dytor.Runtime.Resources.{Resources, get_resource}

module _ {W S : Type 0} (construct : ℕ → W → Option S × W) where
  -- `init`, for the trait `Producer` and the type `TokioSingleThread`: the sources and the runtime that
  -- the task is spawned on, with the control block, and the resources that it leaves.
  unfoldable pub init :
      Registry
      → TraitId
      → TypeId
      → ActorTree
      → List ℕ
      → ControlBlock
      → Resources S × W
      → Exec (List (Accessor ℕ) × S × ControlBlock) × Resources S × W
  unfolding all_accessors lookup_trait get_resource
  init r producer wrapper tree make_tx block resources =
      elim (all_accessors make_tx (lookup_trait r producer tree) block) [
        | panics ↦ (panics, resources.0, resources.1)
        | returns sources ↦
            let got = get_resource construct wrapper resources in
            (got.0 >>= (λ runtime. returns (sources.0, runtime, sources.1)), got.1, got.2)
      ]

Exec-cases : {A : Type 0} (e : Exec A) → (e ≡ panics) ⊎ ((a : A) × (e ≡ returns a))
Exec-cases panics = inl refl
Exec-cases (returns a) = inr (a, refl)

module _ {Meta : Type 0} where
  -- The accessor leads to the object of the key, over the queue of its context.
  abbrev pub Leads : List ℕ → Key Meta → Accessor Meta → Type 0
  Leads make_tx key acc =
      (get_elem? make_tx (as_index key.loc.context_id) ≡ some acc.ctx_queue)
      × (acc.offset ≡ key.loc.offset)
      × (acc.metadata ≡ key.meta)

  abbrev pub LeadsFrom : List ℕ → Found Meta → Accessor Meta → Type 0
  LeadsFrom make_tx found acc =
      (id : ActorId) × (key : Key Meta) × Memᴰ (id, key) found × Leads make_tx key acc

  accessor_for_key-Leads :
      (make_tx : List ℕ) (key : Key Meta) (b : ControlBlock) (x : Accessor Meta × ControlBlock)
      → accessor_for_key make_tx key b ≡ returns x
      → Leads make_tx key x.0
  unfolding accessor_for_key
  accessor_for_key-Leads make_tx key b x h =
      let (queue, p, q) =
        >>=-eq-returns (unwrap (get_elem? make_tx (as_index key.loc.context_id))) _ h in
      (ground arith, ground arith, ground arith)

  Leads-eq :
      (make_tx : List ℕ) (key : Key Meta) (acc acc' : Accessor Meta)
      → Leads make_tx key acc
      → Leads make_tx key acc'
      → acc ≡ acc'
  Leads-eq make_tx key acc acc' (q, o, m) (q', o', m') =
      let queue : acc.ctx_queue ≡ acc'.ctx_queue = cc in
      λ i. record { offset = (o ∙ sym o') i; metadata = (m ∙ sym m') i; ctx_queue = queue i }

  all_accessors-mem :
      (make_tx : List ℕ) (found : Found Meta) (b b' : ControlBlock) (accs : List (Accessor Meta))
      (acc : Accessor Meta)
      → all_accessors make_tx found b ≡ returns (accs, b')
      → Memᴰ acc accs ↔ LeadsFrom make_tx found acc
  unfolding all_accessors
  all_accessors-mem make_tx [] b b' accs acc h =
      let none_made : accs ≡ [] = cc in
      (λ m. absurd (Memᴰ.not-nil (subst (Memᴰ acc) none_made m)), λ t. absurd (Memᴰ.not-nil t.2))
  all_accessors-mem make_tx ((id, key) ∷ found) b b' accs acc h =
      let (x, p, q) = >>=-eq-returns (accessor_for_key make_tx key b) _ h in
      let (y, r, e) = >>=-eq-returns (all_accessors make_tx found x.1) _ q in
      let made : x.0 ∷ y.0 ≡ accs = cc in
      let leads = accessor_for_key-Leads make_tx key b x p in
      let rest = all_accessors-mem make_tx found x.1 y.1 y.0 acc r in
      (
        λ m. elim (Memᴰ.cases_cons (subst (Memᴰ acc) (sym made) m)) [
          | inl same ↦ (id, key, Memᴰ.head refl, subst (Leads make_tx key) (sym same) leads)
          | inr later ↦ let (i, k, inside, l) = rest.0 later in (i, k, Memᴰ.tail inside, l)
        ],
        λ t. subst (Memᴰ acc) made (elim (Memᴰ.cases_cons t.2) [
          | inl same ↦ Memᴰ.head (
              Leads-eq make_tx key acc x.0
                (subst (λ (w : _ × Key Meta). Leads make_tx w.1 acc) same t.3) leads)
          | inr later ↦ Memᴰ.tail (rest.1 (t.0, t.1, later, t.3))
        ]),
      )

-- In a process whose registry was built without a panic from the uses of the macros: when `init` of the
-- synchronizer returns, the task is given an accessor to each actor whose type is declared with the
-- trait of producers, over the queue of its context, and no others.
pub init-accessors :
    {W S : Type 0} (construct : ℕ → W → Option S × W) (metadata : TraitId → TypeId → ℕ)
    (ds : List Declaration) (r : Registry) (producer : TraitId) (wrapper : TypeId)
    (tree : ActorTree) (make_tx : List ℕ) (b b' : ControlBlock) (resources : Resources S × W)
    (sources : List (Accessor ℕ)) (runtime : S) (acc : Accessor ℕ)
    → get_registry (nodes_of metadata ds) ≡ returns r
    → (init construct r producer wrapper tree make_tx b resources).0
      ≡ returns (sources, runtime, b')
    → Memᴰ acc sources ↔ (
        (id : ActorId) × (key : Key ℕ) × IsDeclared metadata ds producer tree id key
        × Leads make_tx key acc)
unfolding init
init-accessors construct metadata ds r producer wrapper tree make_tx b b' resources sources runtime
      acc built h =
    let found = lookup_trait r producer tree in
    let all : all_accessors make_tx found b ≡ returns (sources, b') =
      elim (Exec-cases (all_accessors make_tx found b)) [
        | inl e ↦ absurd (cc (rw (init, e) at h))
        | inr (x, e) ↦
            let (s, p, q) =
              >>=-eq-returns (get_resource construct wrapper resources).0 _ (rw (init, e) at h) in
            e ∙ ground arith
      ] in
    let both = all_accessors-mem make_tx found b b' sources acc all in
    (
      λ m.
          let (id, key, inside, leads) = both.0 m in
          (id, key, (lookup_trait_iff metadata ds r built producer tree id key).0 inside, leads),
      λ t.
          both.1
            (t.0, t.1, (lookup_trait_iff metadata ds r built producer tree t.0 t.1).1 t.2, t.3),
    )
