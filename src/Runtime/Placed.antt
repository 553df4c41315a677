-- ===== src/Runtime/Placed.antt =====
-- `allocate_actors` of runtime/mod.rs: every configured actor gets a place in the arena.
use dytor.Common.{
  subst, ℕ, suc, ◌+◌, ◌<◌, ◌≡◌, refl, ap, arith, List, [], ◌∷◌, length, true, some, returns, All,
  usize_mod, ◌==◌, ==_iff,
}
use dytor.Arena.{IsLayout, Offset, compute_space_required}
use dytor.Arena.Fits.{Packed}
use dytor.Arena.Access.{from_layouts-Packed}
use dytor.Graph.{ActorId}
use dytor.Registry.{TypeId, VTable, layout, Registry, by_name}
use dytor.Config.{ActorConfig}
use dytor.Runtime.{ActorConstructorInfo, look_up, look_up_all, layouts, place, allocate_actors}

-- The actors of `configs`, each with the table of its type's name and no offset yet.
pub data IsFound {V : Type 0} (r : Registry)
    : List (ActorId × ActorConfig V) → List (ActorConstructorInfo V) → Type 0 where
  none_found : IsFound r [] []
  one_found :
      {id : ActorId} {cfg : ActorConfig V} {t : TypeId} {v : VTable}
      {configs : List (ActorId × ActorConfig V)} {infos : List (ActorConstructorInfo V)}
      → by_name r cfg.typename ≡ some (t, v)
      → IsFound r configs infos
      → IsFound r
          ((id, cfg) ∷ configs)
          (record { id = id; offset = 0; vtable = v; cfg = cfg } ∷ infos)

module _ {V : Type 0} (r : Registry) where
  look_up_all-IsFound :
      {configs : List (ActorId × ActorConfig V)} {infos : List (ActorConstructorInfo V)}
      → IsFound r configs infos
      → look_up_all r configs ≡ returns infos
  unfolding look_up_all look_up
  look_up_all-IsFound none_found = refl
  look_up_all-IsFound (one_found e f) = rw (e, look_up_all-IsFound f) refl

length-Packed :
    {V : Type 0} (base capacity from : ℕ) (infos : List (ActorConstructorInfo V)) (os : List Offset)
    → Packed base capacity from (layouts infos) os
    → length os ≡ length infos
length-Packed base capacity from [] [] p = refl
length-Packed base capacity from (a ∷ infos) (o ∷ os) p =
    ap suc (length-Packed base capacity (o + (layout a.vtable).size) infos os p.2)
length-Packed base capacity from [] (o ∷ os) p = absurd p
length-Packed base capacity from (a ∷ infos) [] p = absurd p

abbrev pub offsets : {V : Type 0} → List (ActorConstructorInfo V) → List Offset
offsets [] = []
offsets (a ∷ actors) = a.offset ∷ offsets actors

pub place-Packed :
    {V : Type 0} (base capacity from : ℕ) (infos : List (ActorConstructorInfo V)) (os : List Offset)
    → Packed base capacity from (layouts infos) os
    → Packed base capacity from (layouts (place infos os)) (offsets (place infos os))
unfolding place
place-Packed base capacity from [] [] p = p
place-Packed base capacity from (a ∷ infos) (o ∷ os) (x, y, p) =
    (x, y, place-Packed base capacity (o + (layout a.vtable).size) infos os p)
place-Packed base capacity from [] (o ∷ os) p = absurd p
place-Packed base capacity from (a ∷ infos) [] p = absurd p

offsets-place :
    {V : Type 0} (infos : List (ActorConstructorInfo V)) (os : List Offset)
    → length os ≡ length infos
    → offsets (place infos os) ≡ os
unfolding place
offsets-place [] [] e = refl
offsets-place (a ∷ infos) (o ∷ os) e = ap (λ xs. o ∷ xs) (offsets-place infos os (omega arith))
offsets-place [] (o ∷ os) e = absurd (omega arith)
offsets-place (a ∷ infos) [] e = absurd (omega arith)

-- If the name of every configured actor is known, with the tables in `infos`, and the allocator
-- returns a block for the space that their layouts require, within the address space, then
-- `allocate_actors` returns that block, and the actors as configured, each with its table and an
-- offset at which it stands aligned, apart from the others and within the block.
pub allocate_actors-Packed :
    {V : Type 0} (r : Registry) (alloc : ℕ → ℕ) (capacity : ℕ)
    (configs : List (ActorId × ActorConfig V)) (infos : List (ActorConstructorInfo V))
    → IsFound r configs infos
    → All IsLayout (layouts infos)
    → compute_space_required (layouts infos) ≡ returns capacity
    → 0 < alloc capacity
    → alloc capacity + capacity < usize_mod
    → (os : List Offset) × (allocate_actors r alloc configs
        ≡ returns (record { base = alloc capacity; capacity = capacity }, place infos os))
      × (offsets (place infos os) ≡ os)
      × Packed (alloc capacity) capacity 0 (layouts (place infos os)) os
unfolding allocate_actors
allocate_actors-Packed r alloc capacity configs infos found w h pos room =
    let (os, e, packed) = from_layouts-Packed alloc capacity (layouts infos) w h pos room in
    let same = length-Packed (alloc capacity) capacity 0 infos os packed in
    let t : (length os == length infos) ≡ true = (==_iff (length os) (length infos)).1 same in
    let kept = offsets-place infos os same in
    (
      os,
      rw (look_up_all-IsFound r found, e, t) refl,
      kept,
      subst (Packed (alloc capacity) capacity 0 (layouts (place infos os))) kept
          (place-Packed (alloc capacity) capacity 0 infos os packed),
    )
