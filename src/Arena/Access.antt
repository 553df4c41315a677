-- ===== src/Arena/Access.antt =====
-- `Arena::from_layouts` and `Arena::at_offset` of arena.rs together: which objects of an arena the
-- bounds assertion of `at_offset` lets through.
use native.Mathlib.Nat.{mod-eq_of_lt}
use dytor.Common.{
  true, ℕ, ◌+◌, ◌%◌, ◌≤◌, ◌<◌, ◌≡◌, ◌↔◌, List, [], ◌∷◌, ◌++◌, returns, panics, arith, usize_mod,
  ltb, All, refl, ap, subst,
}
use dytor.Arena.{
  Arena, Layout, IsLayout, Offset, wrapping_add, compute_space_required, from_layouts, at_offset,
}
use dytor.Arena.Padding.{IsPow2-pos, align_offset-aligned}
use dytor.Arena.Required.{least_space}
use dytor.Arena.Fits.{Packed, get_offsets-Packed}

-- If the allocator returns a block for the capacity that was computed, and the block lies within the
-- address space, `from_layouts` returns that block with offsets at which the objects of the layouts
-- stand aligned, apart from one another and within the block.
pub from_layouts-Packed :
    (alloc : ℕ → ℕ) (capacity : ℕ) (ls : List Layout)
    → All IsLayout ls
    → compute_space_required ls ≡ returns capacity
    → 0 < alloc capacity
    → alloc capacity + capacity < usize_mod
    → (os : List Offset) × (from_layouts alloc ls
        ≡ returns (record { base = alloc capacity; capacity = capacity }, os))
      × Packed (alloc capacity) capacity 0 ls os
unfolding from_layouts
from_layouts-Packed alloc capacity ls w h pos room =
    let (os, e, packed) = get_offsets-Packed (alloc capacity) capacity ls w h room in
    let b : ltb 0 (alloc capacity) ≡ true = ground arith in (os, rw (h, b, e) refl, packed)

-- For an aligned object that ends within the block, `at_offset` returns the object's address and
-- size exactly when the object ends before the end of the block.
pub at_offset_iff :
    (a : Arena) (o : Offset) (l : Layout)
    → IsLayout l
    → (a.base + o) % l.align ≡ 0
    → o + l.size ≤ a.capacity
    → a.base + a.capacity < usize_mod
    → (at_offset a o l ≡ returns (a.base + o, l.size)) ↔ (o + l.size < a.capacity)
unfolding at_offset
at_offset_iff a o l w aligned ends room =
    let ptr : wrapping_add a.base o ≡ a.base + o = mod-eq_of_lt (omega arith) in
    let end : wrapping_add (a.base + o) l.size ≡ a.base + o + l.size = mod-eq_of_lt (omega arith) in
    let top : wrapping_add a.base a.capacity ≡ a.base + a.capacity = mod-eq_of_lt room in
    let z = align_offset-aligned (a.base + o) l.align (IsPow2-pos l.align w) aligned in
    rw (ptr, z, end, top) (ground arith)

at_offset_end :
    (a : Arena) (o : Offset) (l : Layout)
    → IsLayout l
    → (a.base + o) % l.align ≡ 0
    → o + l.size ≡ a.capacity
    → a.base + a.capacity < usize_mod
    → at_offset a o l ≡ panics
unfolding at_offset
at_offset_end a o l w aligned ends room =
    let ptr : wrapping_add a.base o ≡ a.base + o = mod-eq_of_lt (omega arith) in
    let end : wrapping_add (a.base + o) l.size ≡ a.base + o + l.size = mod-eq_of_lt (omega arith) in
    let top : wrapping_add a.base a.capacity ≡ a.base + a.capacity = mod-eq_of_lt room in
    let z = align_offset-aligned (a.base + o) l.align (IsPow2-pos l.align w) aligned in
    rw (ptr, z, end, top) (ground arith)

least_space-le :
    (base capacity from : ℕ) (ls : List Layout) (os : List Offset)
    → Packed base capacity from ls os
    → from + least_space ls ≤ capacity
least_space-le base capacity from [] [] p = omega arith
least_space-le base capacity from (l ∷ ls) (o ∷ os) p =
    omega (arith, p.0, least_space-le base capacity (o + l.size) ls os p.2)
least_space-le base capacity from [] (o ∷ os) p = absurd p
least_space-le base capacity from (l ∷ ls) [] p = absurd p

-- Without any padding the last object ends where the block does.
Packed-last :
    (base capacity from : ℕ) (front : List Layout) (l : Layout) (os : List Offset)
    → Packed base capacity from (front ++ l ∷ []) os
    → from + least_space (front ++ l ∷ []) ≡ capacity
    → (init : List Offset) × (o : Offset) × (os ≡ init ++ o ∷ [])
      × (o + l.size ≡ capacity)
      × ((base + o) % l.align ≡ 0)
Packed-last base capacity from [] l (o ∷ []) p e = ([], o, refl, omega arith, p.1)
Packed-last base capacity from [] l (o ∷ _ ∷ _) p e = absurd p.2
Packed-last base capacity from [] l [] p e = absurd p
Packed-last base capacity from (k ∷ front) l [] p e = absurd p
Packed-last base capacity from (k ∷ front) l (o ∷ os) p e =
    let least = least_space-le base capacity (o + k.size) (front ++ l ∷ []) os p.2 in
    let (init, last, same, ends, aligned) =
      Packed-last base capacity (o + k.size) front l os p.2 (omega arith) in
    (o ∷ init, last, ap (λ xs. o ∷ xs) same, ends, aligned)

-- Where the capacity is the sum of the sizes, so that no byte is padding, the bounds assertion of
-- `at_offset` fails on the last object of the arena.
pub exact_fit-panics :
    (alloc : ℕ → ℕ) (capacity : ℕ) (front : List Layout) (l : Layout)
    → All IsLayout (front ++ l ∷ [])
    → IsLayout l
    → compute_space_required (front ++ l ∷ []) ≡ returns capacity
    → capacity ≡ least_space (front ++ l ∷ [])
    → 0 < alloc capacity
    → alloc capacity + capacity < usize_mod
    → (init : List Offset) × (o : Offset) × (from_layouts alloc (front ++ l ∷ [])
        ≡ returns (record { base = alloc capacity; capacity = capacity }, init ++ o ∷ []))
      × (at_offset (record { base = alloc capacity; capacity = capacity }) o l ≡ panics)
exact_fit-panics alloc capacity front l w v h exact pos room =
    let (os, e, packed) = from_layouts-Packed alloc capacity (front ++ l ∷ []) w h pos room in
    let (init, o, same, ends, aligned) =
      Packed-last (alloc capacity) capacity 0 front l os packed (omega arith) in
    (
      init,
      o,
      subst
          (λ xs.
            from_layouts alloc (front ++ l ∷ [])
            ≡ returns (record { base = alloc capacity; capacity = capacity }, xs))
          same e,
      at_offset_end (record { base = alloc capacity; capacity = capacity }) o l v aligned ends room,
    )
