-- ===== src/Runtime/Resources.antt =====
-- The resources of a process: `resource_map` in `create_context_args` (runtime/mod.rs) and
-- `InitArgs::get_resource` (context.rs). The contexts share the map; a `LazyLock` lets one thread at a
-- time construct its value, so that the accesses take effect one after another.
use dytor.Common.{ℕ, List, [], ◌∷◌, Option, none, some, Exec, returns, panics}
use dytor.Common.Dict.{nat_eq, Dict, get, insert}
use dytor.Registry.{TypeId}

-- `LazyResource`: a constructor that was not called yet, a value, or the lock of one that panicked.
pub data LazyResource (S : Type 0) : Type 0 where
  pending : ℕ → LazyResource S
  ready : S → LazyResource S
  poisoned : LazyResource S

abbrev pub Resources : Type 0 → Type 0
Resources S = Dict TypeId (LazyResource S)

unfoldable pub resource_map : {S : Type 0} → Dict TypeId ℕ → Resources S
resource_map [] = []
resource_map ((type_id, f) ∷ constructors) = (type_id, pending f) ∷ resource_map constructors

-- The registered closures: what the call of one returns, if it does not panic, and how it changes what
-- it may read and write.
module _ {W S : Type 0} (construct : ℕ → W → Option S × W) where
  -- The constructor's outcome, in the lock.
  abbrev pub settle : Option S × W → Exec S × LazyResource S × W
  settle (none, w) = (panics, poisoned, w)
  settle (some s, w) = (returns s, ready s, w)

  -- `LazyLock::force`
  abbrev pub force : LazyResource S → W → Exec S × LazyResource S × W
  force (pending f) w = settle (construct f w)
  force (ready s) w = (returns s, ready s, w)
  force poisoned w = (panics, poisoned, w)

  -- The type of a value is that of its key, so that the downcast succeeds.
  unfoldable pub get_resource : TypeId → Resources S × W → Exec S × Resources S × W
  unfolding get insert
  get_resource id (resources, w) = elim (get id resources) [
    | none ↦ (panics, resources, w)
    | some l ↦ let forced = force l w in (forced.0, insert id forced.1 resources, forced.2)
  ]

  -- The map after accesses of any threads.
  unfoldable pub get_resources : List TypeId → Resources S × W → Resources S × W
  unfolding get_resource
  get_resources [] state = state
  get_resources (id ∷ ids) state =
      let accessed = get_resource id state in get_resources ids (accessed.1, accessed.2)
