-- ===== src/Runtime/Run.antt =====
-- `run` of crates/core/dytor/src/runtime/mod.rs: the threads that it spawns, as the state in which the
-- step relation of the module Shutdown starts.
use mathlib.Core.List.{append_assoc, append-nil}
use dytor.Common.{
  ℕ, zero, suc, ◌+◌, ◌<◌, ◌≡◌, refl, sym, ap, ◌∙◌, subst, arith, List, [], ◌∷◌, ◌++◌, some, Exec,
  returns, ◌>>=◌, unwrap, get_elem?, length, u32_mod,
}
use dytor.Context.{ControlBlock}
use dytor.Graph.{ActorId}
use dytor.Registry.{Registry}
use dytor.Lookup.{ActorTree}
use dytor.Config.{ActorConfig, Config}
use dytor.Shutdown.{Ctx, initialising, fresh, System, start, links}
use dytor.Runtime.{ContextConstructorArgs, upto, Made, make_args, with_tree, create_context_args}
use dytor.Runtime.Create.{init_data}
use dytor.Runtime.Arguments.{make_args-cons, make_args-nil, new_args}
use dytor.Runtime.Distributed.{id_of-lt}
use dytor.Runtime.Launch.{nothing_made, create_context_args-Launched, create_context_args-start}

-- A thread at the start of `run_thread(args)`: the data of its context is what `create_context` starts
-- with.
abbrev pub spawned : {V M : Type 0} → ContextConstructorArgs V → ControlBlock → Ctx M
spawned args block = record {
  pc = initialising;
  data_of = (init_data args [] block).data_of;
  queue = [];
  accessors = 0;
  in_flight = [];
}

-- The threads of the arguments that are left, from that of index `i` on.
unfoldable pub spawn_all :
    {V M : Type 0} → ControlBlock → ℕ → List (ContextConstructorArgs V) → ℕ → Ctx M
spawn_all block i [] j = fresh (i + j)
spawn_all block i (a ∷ args) zero = spawned a block
spawn_all block i (a ∷ args) (suc j) = spawn_all block (suc i) args j

-- `run`, up to the point at which all threads are spawned; the main thread runs the first one.
unfoldable pub run : {V M : Type 0} → Registry → (ℕ → ℕ → ℕ) → Config V → Exec (System M)
unfolding spawn_all
run r alloc config = do
  made ← create_context_args r alloc config
  fst ← unwrap (get_elem? made.0 0)
  returns (record { block = made.1; ctxs = spawn_all made.1 0 made.0 })

module _ {V : Type 0} where
  -- The arguments are those for the contexts from index `i` on, of `n` in all.
  abbrev pub Numbered : ℕ → ℕ → List (ContextConstructorArgs V) → Type 0
  Numbered n i [] = Unit
  Numbered n i (a ∷ args) =
      (a.id ≡ suc i) × (a.links ≡ links n i) × (a.make_tx ≡ upto n) × Numbered n (suc i) args

  make_args-Numbered :
      (r : Registry) (alloc : ℕ → ℕ → ℕ) (n i : ℕ) (groups : List (List (ActorId × ActorConfig V)))
      (made made' : Made V)
      → make_args r alloc n i groups made ≡ returns made'
      → i + length groups < u32_mod
      → (args : List (ContextConstructorArgs V)) × (made'.constructor_args
          ≡ made.constructor_args ++ args)
        × Numbered n i args
        × (length args ≡ length groups)
  make_args-Numbered r alloc n i [] made made' h few = (
    [],
    ap (λ m. m.constructor_args) (sym (make_args-nil r alloc n i made made' h))
        ∙ sym (append-nil made.constructor_args),
    tt,
    refl,
  )
  make_args-Numbered r alloc n i (g ∷ groups) made made' h few =
      let (id, x, next, p, q, t, b, s, added) = make_args-cons r alloc n i g groups made made' h in
      let (args, e, numbered, many) =
        make_args-Numbered r alloc n (suc i) groups next made' s (omega arith) in
      let same : id ≡ i + 1 = cc (id_of-lt i (omega arith)) in
      let named : id ≡ suc i = omega arith in
      (
        new_args r n i id x ∷ args,
        e
            ∙ ap (λ xs. xs ++ args) added
            ∙ append_assoc made.constructor_args (new_args r n i id x ∷ []) args,
        (named, refl, refl, numbered),
        ap suc many,
      )

  with_tree-Numbered :
      (tree : ActorTree) (n i : ℕ) (args : List (ContextConstructorArgs V))
      → Numbered n i args
      → Numbered n i (with_tree tree args)
  unfolding with_tree
  with_tree-Numbered tree n i [] h = tt
  with_tree-Numbered tree n i (a ∷ args) (p, q, t, h) =
      (p, q, t, with_tree-Numbered tree n (suc i) args h)

  spawn_all-fresh :
      {M : Type 0} (block : ControlBlock) (n i j : ℕ) (args : List (ContextConstructorArgs V))
      → Numbered n i args
      → spawn_all {M = M} block i args j ≡ fresh (i + j)
  unfolding spawn_all
  spawn_all-fresh block n i j [] h = refl
  spawn_all-fresh block n i zero (a ∷ args) (p, q, t, h) =
      let z : a.id ≡ suc (i + 0) = omega arith in
      ap
        (λ k. record {
          pc = initialising;
          data_of = record { id = k; local_queue = []; unsent_messages = [] };
          queue = [];
          accessors = 0;
          in_flight = [];
        })
        z
  spawn_all-fresh block n i (suc j) (a ∷ args) (p, q, t, h) =
      spawn_all-fresh block n (suc i) j args h ∙ ap fresh (omega arith)

  Numbered-at :
      (n i j : ℕ) (args : List (ContextConstructorArgs V)) (a : ContextConstructorArgs V)
      → Numbered n i args
      → get_elem? args j ≡ some a
      → (a.links ≡ links n (i + j)) × (a.make_tx ≡ upto n)
  Numbered-at n i j [] a h e = absurd (cc)
  Numbered-at n i zero (b ∷ args) a (p, q, t, h) e =
      let same : b ≡ a = cc in let z : i + 0 ≡ i = omega arith in rw (← same, z) (q, t)
  Numbered-at n i (suc j) (b ∷ args) a (p, q, t, h) e =
      let (l, m) = Numbered-at n (suc i) j args a h e in
      let z : i + suc j ≡ suc i + j = omega arith in rw z (l, m)

  first_of :
      (args : List (ContextConstructorArgs V)) (i : ℕ) (a : ContextConstructorArgs V)
      → get_elem? args i ≡ some a
      → (b : ContextConstructorArgs V) × (get_elem? args 0 ≡ some b)
  first_of [] i a e = absurd (cc)
  first_of (b ∷ args) i a e = (b, refl)

  -- There are arguments for a first thread.
  pub create_context_args-some :
      (r : Registry) (alloc : ℕ → ℕ → ℕ) (config : Config V)
      (args : List (ContextConstructorArgs V)) (block : ControlBlock)
      → create_context_args r alloc config ≡ returns (args, block)
      → 0 < length config.contexts
      → length config.contexts < u32_mod
      → (a : ContextConstructorArgs V) × (get_elem? args 0 ≡ some a)
  unfolding with_tree
  create_context_args-some r alloc config args block h some_there few =
      let l = create_context_args-Launched r alloc config args block h in
      let (made_args, e, _, many) =
        make_args-Numbered r alloc (length config.contexts) 0 l.groups nothing_made l.made l.looped
          (omega (arith, l.many)) in
      let all : args ≡ with_tree l.made.tree made_args =
        l.args_are ∙ ap (with_tree l.made.tree) e in
      not_empty l.made.tree args made_args all (omega (arith, many, l.many))
    where
      not_empty :
          (tree : ActorTree) (args made_args : List (ContextConstructorArgs V))
          → args ≡ with_tree tree made_args
          → 0 < length made_args
          → (a : ContextConstructorArgs V) × (get_elem? args 0 ≡ some a)
      not_empty tree args [] e h = absurd (omega arith)
      not_empty tree args (b ∷ made_args) e h = (_, ap (λ xs. get_elem? xs 0) e)

  -- When `create_context_args` returns, for at least one context and fewer than 2^32 - 1, `run` spawns
  -- the threads of the state in which the step relation starts, for as many contexts; and each thread is
  -- given the links that the step relation has for its index, and a queue for each context.
  pub run-start :
      (M : Type 0) (r : Registry) (alloc : ℕ → ℕ → ℕ) (config : Config V)
      (args : List (ContextConstructorArgs V)) (block : ControlBlock) (i : ℕ)
      (a : ContextConstructorArgs V)
      → create_context_args r alloc config ≡ returns (args, block)
      → 0 < length config.contexts
      → 1 + length config.contexts < u32_mod
      → get_elem? args i ≡ some a
      → (run r alloc config ≡ returns (start {M = M} (length config.contexts)))
        × (a.links ≡ links (length config.contexts) i)
        × (a.make_tx ≡ upto (length config.contexts))
  unfolding run
  run-start M r alloc config args block i a h some_there few at =
      let n = length config.contexts in
      let l = create_context_args-Launched r alloc config args block h in
      let (made_args, e, numbered, many) =
        make_args-Numbered r alloc n 0 l.groups nothing_made l.made l.looped
          (omega (arith, l.many)) in
      let all : Numbered n 0 args = subst (Numbered n 0) (sym l.args_are) (
        with_tree-Numbered l.made.tree n 0 l.made.constructor_args
          (subst (Numbered n 0) (sym e) numbered)) in
      let counted = create_context_args-start M r alloc config args block h some_there few in
      let threads : spawn_all {M = M} block 0 args ≡ fresh = λ k j.
        let z : 0 + j ≡ j = omega arith in
        (spawn_all-fresh {M = M} block n 0 j args all ∙ ap (fresh {M = M}) z) k in
      let (first, head) = first_of args i a at in
      let (own_links, own_make_tx) = Numbered-at n 0 i args a all at in
      (
        rw (h, head) (λ k. returns (record { block = counted k; ctxs = threads k })),
        own_links ∙ (let z : 0 + i ≡ i = omega arith in ap (links n) z),
        own_make_tx,
      )
