-- ===== src/Runtime/Dropped.antt =====
-- What becomes of the objects of a context (runtime/mod.rs, context.rs) when it is dropped.
use native.Mathlib.Nat.{mod-eq_of_lt}
use dytor.Common.{
  ℕ, zero, suc, ◌+◌, ◌%◌, ◌<◌, ◌≤◌, ◌≡◌, refl, ap, ◌∙◌, arith, true, List, [], ◌∷◌, Option, none,
  some, Exec, returns, if◌then◌else◌, All, usize_mod, Bool-cases, inl, inr,
}
use dytor.Common.Dict.{Dict}
use dytor.Arena.{Arena, Offset, IsLayout, wrapping_add, offset}
use dytor.Arena.Padding.{IsPow2-pos, align_offset-aligned}
use dytor.Arena.Fits.{Packed}
use dytor.Registry.{TypeId, VTable, layout}
use dytor.Object.{Object, Memory, uninit, within, erase, holds_type, drop}
use dytor.Runtime.{ActorConstructorInfo, layouts}
use dytor.Runtime.Placed.{offsets}
use dytor.Runtime.Create.{InitData, InitStage, construct_all, drop_all, drop_fns_of}
use dytor.Runtime.Objects.{Holds, object_of, AllHold, in_any, Packed-le, construct_all-AllHold}

holds_type-Holds :
    (m : Memory) (p size : ℕ) (o : Object) → Holds m p size o → holds_type m p size o.type_id ≡ true
unfolding holds_type
holds_type-Holds m p zero o h = refl
holds_type-Holds m p (suc size) o h =
    let first : m p ≡ some o = ap m (omega arith) ∙ h 0 (omega arith) in
    let rest : Holds m (suc p) size o = λ k lt. ap m (omega arith) ∙ h (suc k) (omega arith) in
    rw first (ground (arith, holds_type-Holds m (suc p) size o rest))

-- Objects behind the ones that are dropped stay.
AllHold-above :
    {V : Type 0} (base capacity from : ℕ) (actors : List (ActorConstructorInfo V)) (m m' : Memory)
    → Packed base capacity from (layouts actors) (offsets actors)
    → ((x : ℕ) → base + from ≤ x → m' x ≡ m x)
    → AllHold base actors m
    → AllHold base actors m'
unfolding layout
AllHold-above base capacity from [] m m' p same all = tt
AllHold-above base capacity from (a ∷ actors) m m' (above, _, p) same (here, all) = (
  λ k lt. same (base + a.offset + k) (omega arith) ∙ here k lt,
  AllHold-above base capacity (a.offset + a.vtable.size) actors m m' p (λ x h. same x (omega arith))
      all,
)

erase_beyond : (m : Memory) (p size x : ℕ) → p + size ≤ x → erase m p size x ≡ m x
unfolding erase
erase_beyond m p size x h = ground arith

erase-eq : (m : Memory) (p size x : ℕ) → erase m p size x ≡ (if within p size x then none else m x)
unfolding erase
erase-eq m p size x = refl

module _ (arena : Arena) (room : arena.base + arena.capacity < usize_mod) where
  drop-returns :
      (v : VTable) (o : Offset) (m : Memory) (x : Object)
      → IsLayout (layout v)
      → (arena.base + o) % (layout v).align ≡ 0
      → o ≤ arena.capacity
      → x.type_id ≡ v.type_id
      → Holds m (arena.base + o) v.size x
      → drop v (offset arena o) m ≡ returns (erase m (arena.base + o) v.size)
  unfolding drop offset layout
  drop-returns v o m x w aligned inside same holds =
      let ptr : wrapping_add arena.base o ≡ arena.base + o = mod-eq_of_lt (omega arith) in
      let z = align_offset-aligned (arena.base + o) v.align (IsPow2-pos v.align w) aligned in
      let t : holds_type m (arena.base + o) v.size v.type_id ≡ true =
        rw (← same) (holds_type-Holds m (arena.base + o) v.size x holds) in
      rw (ptr, z, t) refl

  drop_all-returns :
      {V : Type 0} (actors : List (ActorConstructorInfo V)) (from : ℕ) (m : Memory)
      → Packed arena.base arena.capacity from (layouts actors) (offsets actors)
      → All IsLayout (layouts actors)
      → AllHold arena.base actors m
      → (m' : Memory) × (drop_all arena (drop_fns_of actors) m ≡ returns m')
        × ((x : ℕ) → m' x ≡ (if in_any arena.base actors x then none else m x))
  unfolding drop_all layout
  drop_all-returns [] from m p w all = (m, refl, λ x. refl)
  drop_all-returns (a ∷ actors) from m (above, aligned, p) w (here, all) =
      let inside = Packed-le arena.base arena.capacity _ (layouts actors) (offsets actors) p in
      let e = drop-returns a.vtable a.offset m (object_of a) w.0 aligned (omega arith) refl here in
      let m1 = erase m (arena.base + a.offset) a.vtable.size in
      let kept =
        AllHold-above arena.base arena.capacity _ actors m m1 p
          (λ x h. erase_beyond m (arena.base + a.offset) a.vtable.size x (omega arith)) all in
      let (m', d, each) = drop_all-returns actors (a.offset + a.vtable.size) m1 p w.1 kept in
      (
        m',
        rw (e, d) refl,
        λ x. each x ∙ rw (erase-eq m (arena.base + a.offset) a.vtable.size x) (ground arith),
      )

-- For actors with valid layouts, at offsets as `allocate_actors` gives them, in a block within the
-- address space: when
-- the loop of `create_context` over them returns, each actor's bytes are those of its own object, of
-- the type of its table. Dropping all of them then does not panic, finds at each offset the object
-- that was constructed there, and leaves no byte of an object.
pub construct_all-drop_all :
    {V D M : Type 0} (deserialize : VTable → V → Option D)
    (initialise : VTable → InitStage → D → InitData M → Exec (Option (InitData M))) (arena : Arena)
    (resources : Dict TypeId ℕ) (actors : List (ActorConstructorInfo V)) (init init' : InitData M)
    (m : Memory)
    → arena.base + arena.capacity < usize_mod
    → Packed arena.base arena.capacity 0 (layouts actors) (offsets actors)
    → All IsLayout (layouts actors)
    → construct_all deserialize initialise arena resources actors (init, uninit)
      ≡ returns (init', m)
    → AllHold arena.base actors m
      × ((m' : Memory) × (drop_all arena (drop_fns_of actors) m ≡ returns m')
          × ((x : ℕ) → m' x ≡ none))
construct_all-drop_all deserialize initialise arena resources actors init init' m room p w h =
    let (all, _, elsewhere) =
      construct_all-AllHold deserialize initialise arena resources room actors 0 init init' uninit m
        p h in
    let (m', d, each) = drop_all-returns arena room actors 0 m p w all in
    (
      all,
      (
        m',
        d,
        λ x. elim (Bool-cases (in_any arena.base actors x)) [
          | inl inside ↦ each x ∙ rw inside refl
          | inr outside ↦ each x ∙ rw outside (elsewhere x outside)
        ],
      ),
    )
