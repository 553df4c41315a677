-- ===== src/Runtime/Returns.antt =====
-- `create_context_args` of runtime/mod.rs: on which configurations it returns.
use dytor.Common.{
  ℕ, suc, ◌+◌, ◌*◌, ◌<◌, ◌≤◌, ◌≡◌, refl, ◌∙◌, subst, arith, true, List, [], ◌∷◌, ◌++◌, length,
  returns, All, u32_mod, some, get_elem?, Memᴰ,
}
use dytor.Context.{ContextId, as_index, ControlBlock, release, clone}
use dytor.Graph.{ActorId}
use dytor.Registry.{Registry}
use dytor.Config.{ActorConfig, Config, children, has_no_children, imported_scopes, actors_in}
use dytor.Runtime.{
  ContextConstructorArgs, named_from, empty_groups, Made, make_args, create_context_args,
  distribute, with_tree, in_context,
}
use dytor.Runtime.Distributed.{id_of-lt, distribute-length, IsIn, distribute-IsIn}
use dytor.Runtime.Arguments.{new_args}
use dytor.Runtime.Launch.{length-empty_groups, nothing_made}
use dytor.Runtime.Configured.{
  Answers, Allocates, IsOccupied, HasSize, HasSize-IsOccupied, IsConfigured, AreGroups,
  distribute-AreGroups, allocate_actors-returns,
}

zero_plus : (k : ℕ) → k ≡ 0 + k
zero_plus k = omega arith

empty_groups-AreGroups :
    {A : Type 0} (V : Type 0) (r : Registry) (n bytes widest : ℕ) (xs : List A)
    → AreGroups {V = V} r n bytes widest 0 (empty_groups xs)
empty_groups-AreGroups V r n bytes widest [] = tt
empty_groups-AreGroups V r n bytes widest (x ∷ xs) =
    ((tt, omega arith), empty_groups-AreGroups V r n bytes widest xs)

-- Every list has its item, if each index has one.
All-IsIn :
    {A : Type 0} (P : List A → Type 0) (gs : List (List A))
    → ((j : ℕ) → j < length gs → (x : A) × IsIn j x gs × ((g : List A) → Memᴰ x g → P g))
    → All P gs
All-IsIn P [] h = tt
All-IsIn P (g ∷ gs) h =
    let (x, m, p) = h 0 (omega arith) in (p g m, All-IsIn P gs (λ j lt. h (suc j) (omega arith)))

any-IsOccupied :
    {V : Type 0} (r : Registry) (gs : List (List (ActorId × ActorConfig V)))
    → All (IsOccupied r 0) gs
any-IsOccupied r [] = tt
any-IsOccupied r (g ∷ gs) = (λ infos found. omega arith, any-IsOccupied r gs)

module _ {V : Type 0} (r : Registry) (n bytes widest : ℕ) (alloc : ℕ → ℕ → ℕ) (least : ℕ)
    (answers : (i : ℕ) → Allocates least (alloc i)) (one : 1 ≤ widest) where
  make_args-returns :
      (k i m : ℕ) (gs : List (List (ActorId × ActorConfig V))) (made : Made V)
      → i + length gs < u32_mod
      → m * bytes + 2 * widest < u32_mod
      → AreGroups r n bytes widest m gs
      → All (IsOccupied r least) gs
      → (made' : Made V) × (make_args r alloc k i gs made ≡ returns made')
  unfolding make_args
  make_args-returns k i m [] made few small all occupied = (made, refl)
  make_args-returns k i m (g ∷ gs) made few small ((configured, short), all) (occupied, rest) =
      let (x, e) =
        allocate_actors-returns r n bytes widest (alloc i) least m g (answers i) occupied one small
          short configured in
      let next : Made V = record {
        constructor_args = made.constructor_args ++ new_args r k i (i + 1) x ∷ [];
        tree = made.tree ++ in_context (i + 1) x.1;
        control_block = clone made.control_block;
      } in
      let (made', q) = make_args-returns k (suc i) m gs next (omega arith) small all rest in
      (made', rw (id_of-lt i (omega arith), e) q)

  create_context_args-returns_from :
      (config : Config V)
      → has_no_children (children config.root) ≡ true
      → imported_scopes config.root ≡ []
      → named_from 0 config.contexts ≡ true
      → length config.contexts ≡ n
      → n < u32_mod
      → length (actors_in config.root) < u32_mod
      → length (actors_in config.root) * bytes + 2 * widest < u32_mod
      → All (IsConfigured r n bytes widest) (actors_in config.root)
      → ((groups : List (List (ActorId × ActorConfig V)))
          → distribute 0 (actors_in config.root) (empty_groups config.contexts) ≡ returns groups
          → All (IsOccupied r least) groups)
      → (args : List (ContextConstructorArgs V)) × (block : ControlBlock) × (create_context_args r
            alloc config
          ≡ returns (args, block))
  unfolding create_context_args
  create_context_args-returns_from config no_inner no_imports named many few few_actors small all
        occupied =
      let (groups, p, ok) =
        distribute-AreGroups r n bytes widest 0 0 (actors_in config.root)
          (empty_groups config.contexts) (omega arith) all
          (omega (arith, length-empty_groups (ℕ × ActorConfig V) config.contexts))
          (empty_groups-AreGroups V r n bytes widest config.contexts) in
      let count : length groups ≡ n =
        distribute-length 0 (actors_in config.root) (empty_groups config.contexts) groups p
        ∙ length-empty_groups (ℕ × ActorConfig V) config.contexts
        ∙ many in
      let (made, q) =
        make_args-returns (length config.contexts) 0 (0 + length (actors_in config.root)) groups
          nothing_made (omega arith)
          (subst (λ j. j * bytes + 2 * widest < u32_mod)
            (zero_plus (length (actors_in config.root))) small)
          ok (occupied groups p) in
      (
        with_tree made.tree made.constructor_args,
        release made.control_block,
        rw (no_inner, no_imports, named, p, q) refl,
      )

module _ {V : Type 0} (r : Registry) (n bytes widest : ℕ) (alloc : ℕ → ℕ → ℕ) where
  -- With an allocator that returns a block for the size 0 too, no context needs an actor.
  pub create_context_args-returns_any :
      (answers : (i : ℕ) → Answers (alloc i)) (one : 1 ≤ widest) (config : Config V)
      → has_no_children (children config.root) ≡ true
      → imported_scopes config.root ≡ []
      → named_from 0 config.contexts ≡ true
      → length config.contexts ≡ n
      → n < u32_mod
      → length (actors_in config.root) < u32_mod
      → length (actors_in config.root) * bytes + 2 * widest < u32_mod
      → All (IsConfigured r n bytes widest) (actors_in config.root)
      → (args : List (ContextConstructorArgs V)) × (block : ControlBlock) × (create_context_args r
            alloc config
          ≡ returns (args, block))
  create_context_args-returns_any answers one config no_inner no_imports named many few few_actors
        small all =
      create_context_args-returns_from r n bytes widest alloc 0 (λ i size low. answers i size) one
        config no_inner no_imports named many few few_actors small all
        (λ groups p. any-IsOccupied r groups)

  -- Let the configuration have no inner scopes and no imports, contexts that are named 1 to `n`, and
  -- actors of types that the registry knows with valid layouts, each in one of these contexts, and in
  -- each of these contexts one whose size is not 0; let there be fewer than 2^32 actors and contexts, let
  -- the actors' sizes and alignments be bounded so that all of them together need less than 2^32
  -- bytes, and let the allocator return blocks for sizes other than 0. Then `create_context_args`
  -- returns.
  pub create_context_args-returns :
      (answers : (i : ℕ) → Allocates 1 (alloc i)) (one : 1 ≤ widest) (config : Config V)
      → has_no_children (children config.root) ≡ true
      → imported_scopes config.root ≡ []
      → named_from 0 config.contexts ≡ true
      → length config.contexts ≡ n
      → n < u32_mod
      → length (actors_in config.root) < u32_mod
      → length (actors_in config.root) * bytes + 2 * widest < u32_mod
      → All (IsConfigured r n bytes widest) (actors_in config.root)
      → ((c : ContextId)
          → 1 ≤ c
          → c ≤ n
          → (k : ℕ) × (a : ActorConfig V) × (get_elem? (actors_in config.root) k ≡ some a)
            × (a.context ≡ c)
            × HasSize r a)
      → (args : List (ContextConstructorArgs V)) × (block : ControlBlock) × (create_context_args r
            alloc config
          ≡ returns (args, block))
  create_context_args-returns answers one config no_inner no_imports named many few few_actors small
        all sized =
      create_context_args-returns_from r n bytes widest alloc 1 answers one config no_inner
        no_imports named many few few_actors small all
        (λ groups p. All-IsIn (IsOccupied r 1) groups (λ j lt. occupant groups p j lt))
    where
      occupant :
          (groups : List (List (ActorId × ActorConfig V)))
          → distribute 0 (actors_in config.root) (empty_groups config.contexts) ≡ returns groups
          → (j : ℕ) → j < length groups
          → (x : ActorId × ActorConfig V) × IsIn j x groups
            × ((g : List (ActorId × ActorConfig V)) → Memᴰ x g → IsOccupied r 1 g)
      occupant groups p j lt =
          let count : length groups ≡ n =
            distribute-length 0 (actors_in config.root) (empty_groups config.contexts) groups p
            ∙ length-empty_groups (ℕ × ActorConfig V) config.contexts
            ∙ many in
          let (k, a, at, here, size) = sized (suc j) (omega arith) (omega arith) in
          let index : as_index a.context ≡ j = rw here (omega arith) in
          (
            (0 + k + 1, a),
            subst (λ i. IsIn i (0 + k + 1, a) groups) index
                (distribute-IsIn 0 (actors_in config.root) (empty_groups config.contexts) groups k a
                  p at (omega arith)),
            λ g m. HasSize-IsOccupied r (0 + k + 1, a) g size m,
          )
