-- ===== src/Runtime/Launch.antt =====
-- `create_context_args` of runtime/mod.rs as a whole.
use mathlib.Core.List.Memᴰ
use dytor.Common.{
  ℕ, suc, ◌+◌, ◌<◌, ◌≡◌, refl, ap, arith, List, [], ◌∷◌, Memᴰ, some, returns, assert,
  >>=-eq-returns, get_elem?, length, u32_mod, subst, inl, inr, ◌==◌, ◌∙◌,
}
use dytor.Context.{ContextId, as_index, ControlBlock, new_block, release}
use dytor.Registry.{TypeId, VTable, Registry, by_name}
use dytor.Lookup.{ActorTree}
use dytor.Config.{ActorConfig, Config, children, has_no_children, imported_scopes, actors_in}
use dytor.Shutdown.{start}
use dytor.Runtime.{
  ContextConstructorArgs, named_from, distribute, empty_groups, Made, make_args, with_tree,
  create_context_args,
}
use dytor.Runtime.Distributed.{distribute-IsIn, distribute-length}
use dytor.Runtime.Arguments.{InTree, make_args-counts, make_args-InTree}

pub length-empty_groups :
    {A : Type 0} (B : Type 0) (xs : List A) → length (empty_groups {A = A} {B = B} xs) ≡ length xs
length-empty_groups B [] = refl
length-empty_groups B (x ∷ xs) = ap suc (length-empty_groups B xs)

module _ {V : Type 0} where
  mem-with_tree :
      (tree : ActorTree) (cs : List (ContextConstructorArgs V)) (c : ContextConstructorArgs V)
      → Memᴰ c (with_tree tree cs)
      → c.tree ≡ some tree
  unfolding with_tree
  mem-with_tree tree [] c m = absurd (Memᴰ.not-nil m)
  mem-with_tree tree (d ∷ cs) c m = elim (Memᴰ.cases_cons m) [
    | inl e ↦ ap (λ x. x.tree) e
    | inr later ↦ mem-with_tree tree cs c later
  ]

  abbrev pub nothing_made : Made V
  nothing_made = record { constructor_args = []; tree = []; control_block = new_block }

  -- What `create_context_args` did when it returned.
  pub record Launched (r : Registry) (alloc : ℕ → ℕ → ℕ) (config : Config V)
      (args : List (ContextConstructorArgs V)) (block : ControlBlock) : Type 0 where
    pub groups : List (List (ℕ × ActorConfig V))
    pub made : Made V
    pub distributed :
        distribute 0 (actors_in config.root) (empty_groups config.contexts) ≡ returns groups
    pub looped : make_args r alloc (length config.contexts) 0 groups nothing_made ≡ returns made
    pub args_are : args ≡ with_tree made.tree made.constructor_args
    pub block_is : block ≡ release made.control_block
    pub many : length groups ≡ length config.contexts

  pub create_context_args-Launched :
      (r : Registry) (alloc : ℕ → ℕ → ℕ) (config : Config V)
      (args : List (ContextConstructorArgs V)) (block : ControlBlock)
      → create_context_args r alloc config ≡ returns (args, block)
      → Launched r alloc config args block
  unfolding create_context_args
  create_context_args-Launched r alloc config args block h =
      let (_, _, h1) = >>=-eq-returns (assert (has_no_children (children config.root))) _ h in
      let (_, _, h2) = >>=-eq-returns (assert (length (imported_scopes config.root) == 0)) _ h1 in
      let (_, _, h3) = >>=-eq-returns (assert (named_from 0 config.contexts)) _ h2 in
      let (groups, p, h4) =
        >>=-eq-returns (distribute 0 (actors_in config.root) (empty_groups config.contexts)) _ h3 in
      let (made, q, h5) =
        >>=-eq-returns (make_args r alloc (length config.contexts) 0 groups nothing_made) _ h4 in
      record {
        groups = groups;
        made = made;
        distributed = p;
        looped = q;
        args_are = ground arith;
        block_is = ground arith;
        many =
            distribute-length 0 (actors_in config.root) (empty_groups config.contexts) groups p
            ∙ length-empty_groups (ℕ × ActorConfig V) config.contexts;
      }

  -- When `create_context_args` returns, for at least one context and fewer than 2^32 - 1, the control
  -- block is that in which the threads start: it counts one event for each context and is not freed.
  pub create_context_args-start :
      (M : Type 0) (r : Registry) (alloc : ℕ → ℕ → ℕ) (config : Config V)
      (args : List (ContextConstructorArgs V)) (block : ControlBlock)
      → create_context_args r alloc config ≡ returns (args, block)
      → 0 < length config.contexts
      → 1 + length config.contexts < u32_mod
      → block ≡ (start {M = M} (length config.contexts)).block
  create_context_args-start M r alloc config args block h some_there few =
      let l = create_context_args-Launched r alloc config args block h in
      let many : 1 + length l.groups < u32_mod = rw l.many few in
      let counted =
        make_args-counts r alloc (length config.contexts) 0 l.groups nothing_made l.made l.looped
          many in
      l.block_is ∙ rw (counted, l.many) (ground arith)

  -- When `create_context_args` returns, with fewer than 2^32 contexts and actors, the thread of every
  -- context is given a tree with every configured actor: under the id after its index, with the table
  -- that the registry has for its type's name, in the context that the configuration says.
  pub create_context_args-InTree :
      (r : Registry) (alloc : ℕ → ℕ → ℕ) (config : Config V)
      (args : List (ContextConstructorArgs V)) (block : ControlBlock) (k : ℕ) (c : ActorConfig V)
      (arg : ContextConstructorArgs V)
      → create_context_args r alloc config ≡ returns (args, block)
      → length config.contexts < u32_mod
      → length (actors_in config.root) < u32_mod
      → get_elem? (actors_in config.root) k ≡ some c
      → 0 < c.context
      → Memᴰ arg args
      → (tree : ActorTree) × (t : TypeId) × (v : VTable) × (arg.tree ≡ some tree)
        × (by_name r c.typename ≡ some (t, v))
        × InTree tree (k + 1) v c.context
  create_context_args-InTree r alloc config args block k c arg h few few_actors at pos m =
      let l = create_context_args-Launched r alloc config args block h in
      let inside =
        distribute-IsIn 0 (actors_in config.root) (empty_groups config.contexts) l.groups k c
          l.distributed at (omega arith) in
      let (t, v, b, there) =
        make_args-InTree r alloc (length config.contexts) 0 l.groups nothing_made l.made
          (as_index c.context) (0 + k + 1) c l.looped (omega (arith, l.many)) inside in
      (
        l.made.tree,
        t,
        v,
        mem-with_tree l.made.tree l.made.constructor_args arg (subst (Memᴰ arg) l.args_are m),
        b,
        at_place (omega arith) (omega arith) there,
      )
    where
      at_place :
          {tree : ActorTree} {i j : ℕ} {v : VTable} {x y : ContextId}
          → i ≡ j
          → x ≡ y
          → InTree tree i v x
          → InTree tree j v y
      at_place e f there = rw (← e, ← f) there
