-- ===== src/App.antt =====
-- crates/examples/app/src/main.rs: the configuration that the application runs, which the libraries that
-- it opens register the actors for. The value that configures an actor is a parameter.
pub mod Main
pub mod Examples
use dytor.Common.{
  ℕ, suc, ◌+◌, ◌*◌, ◌<◌, ◌≤◌, ◌≡◌, refl, arith, List, [], ◌∷◌, Memᴰ, none, returns, u32_mod,
}
use dytor.Arena.{IsLayout}
use dytor.Context.{ControlBlock}
use dytor.Registry.{VTable, layout, Registry, ActorType, ListNode, actor, get_registry}
use dytor.Registry.Found.{by_name-get_registry}
use dytor.Config.{ActorConfig, Config, scope, no_children}
use dytor.Runtime.{ContextConstructorArgs, named_from, create_context_args}
use dytor.Runtime.Configured.{Answers, IsConfigured}
use dytor.Runtime.Returns.{create_context_args-returns_any}

-- The field `dytor` of the configuration in `main`, over `SerdeValue::Unit`.
unfoldable pub main_config : {V : Type 0} → V → Config V
main_config unit = record {
  root =
      scope none no_children
        (record { typename = "Synchronizer"; config = unit; context = 1 }
          ∷ record { typename = "IntervalUnitProducer"; config = unit; context = 1 }
          ∷ record { typename = "IntervalUnitConsumer"; config = unit; context = 1 }
          ∷ [])
        [];
  contexts = record { id = 1; thread_affinity = none } ∷ [];
}

-- The queued type has the name, and a valid layout within the bounds.
abbrev pub IsSmall : ℕ → ℕ → List ListNode → ActorType → Type 0
IsSmall bytes widest nodes t =
    Memᴰ (actor t) nodes
    × IsLayout (layout t.vtable)
    × ((layout t.vtable).size + (layout t.vtable).align ≤ bytes)
    × ((layout t.vtable).align ≤ widest)

module _ {V : Type 0} (unit : V) (nodes : List ListNode) (r : Registry)
    (built : get_registry nodes ≡ returns r) (bytes widest : ℕ) where
  actor-IsConfigured :
      (t : ActorType)
      → IsSmall bytes widest nodes t
      → IsConfigured {V = V} r 1 bytes widest
          (record { typename = t.name; config = unit; context = 1 })
  actor-IsConfigured t (listed, valid, small, narrow) = (
    t.vtable.type_id,
    t.vtable,
    by_name-get_registry nodes r t built listed,
    valid,
    small,
    narrow,
    omega arith,
    omega arith,
  )

  -- If the registry was built without a panic from nodes among which are types of the three names, with
  -- valid layouts that together need less than 2^32 bytes, and the allocator returns blocks, then
  -- `create_context_args` returns for the configuration of `main`.
  pub main_config-returns :
      (synchronizer producer consumer : ActorType) (alloc : ℕ → ℕ → ℕ)
      → synchronizer.name ≡ "Synchronizer"
      → producer.name ≡ "IntervalUnitProducer"
      → consumer.name ≡ "IntervalUnitConsumer"
      → IsSmall bytes widest nodes synchronizer
      → IsSmall bytes widest nodes producer
      → IsSmall bytes widest nodes consumer
      → 1 ≤ widest
      → 3 * bytes + 2 * widest < u32_mod
      → ((i : ℕ) → Answers (alloc i))
      → (args : List (ContextConstructorArgs V)) × (block : ControlBlock) × (create_context_args r
            alloc
            (main_config unit)
          ≡ returns (args, block))
  unfolding main_config named_from
  main_config-returns synchronizer producer consumer alloc s p c small_s small_p small_c one room
        answers =
      create_context_args-returns_any r 1 bytes widest alloc answers one (main_config unit) refl
        refl refl refl (omega arith) (omega arith) (omega arith)
        (
          rw (← s) (actor-IsConfigured synchronizer small_s),
          (
            rw (← p) (actor-IsConfigured producer small_p),
            (rw (← c) (actor-IsConfigured consumer small_c), tt),
          ),
        )
