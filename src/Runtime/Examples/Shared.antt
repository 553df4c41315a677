-- ===== src/Runtime/Examples/Shared.antt =====
-- A process with one resource, whose constructor counts its calls.
use mathlib.Core.List.Memᴰ
use dytor.Common.{ℕ, ◌+◌, ◌≡◌, refl, [], ◌∷◌, Option, some, returns}
use dytor.Registry.{Registry, empty_registry, resource, get_registry}
use dytor.Runtime.Resources.{Resources, resource_map, get_resource, get_resources}
use dytor.Runtime.Lazy.{get_resource-get_registry}

abbrev counts : ℕ → ℕ → Option ℕ × ℕ
counts f w = (some (f + w), w + 1)

abbrev known : Registry
known = record empty_registry { resource_constructors = (9, 3) ∷ [] }

get_registry-known : get_registry (resource 9 3 ∷ []) ≡ returns known
unfolding get_registry
get_registry-known = refl

get_resource-get_registry_example :
    (resources : Resources ℕ) × (get_resource counts 9 (resource_map known.resource_constructors, 0)
      ≡ (returns 3, resources, 1))
    × (get_resource counts 9 (get_resources counts (8 ∷ 9 ∷ []) (resources, 1)) ≡ (
      returns 3,
      (get_resources counts (8 ∷ 9 ∷ []) (resources, 1)).0,
      (get_resources counts (8 ∷ 9 ∷ []) (resources, 1)).1,
    ))
get_resource-get_registry_example =
    get_resource-get_registry counts (resource 9 3 ∷ []) known 9 3 0 1 3 (8 ∷ 9 ∷ [])
      get_registry-known (Memᴰ.head refl) refl
