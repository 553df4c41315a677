-- ===== src/Blocks.antt =====
-- Which blocks of memory the control block (crates/core/dytor/src/context.rs) and the arenas
-- (crates/core/dytor/src/arena.rs) take from `std::alloc` and give back, and with which layouts.
pub mod Examples
use dytor.Common.{
  ℕ, ◌≤◌, ◌<◌, ◌≡◌, ◌⊎◌, refl, arith, Bool, true, false, ◌&&◌, List, [], ◌∷◌, Option, none, some,
  Exec, returns, panics, ◌>>=◌, unwrap, inl, inr, leb, ==_refl, ◌==◌, if◌then◌else◌, dec_le,
}
use dytor.Arena.{Arena, Layout, compute_space_required, from_layouts}
use dytor.Context.{ControlBlock, release}

-- A block that is allocated.
pub record Block : Type 0 where
  pub address : ℕ
  pub layout : Layout

-- `std::alloc::alloc`, which has returned the address
abbrev pub alloc : ℕ → Layout → List Block → List Block
alloc ptr layout blocks = record { address = ptr; layout = layout } ∷ blocks

abbrev same_layout : Layout → Layout → Bool
same_layout l k = l.size == k.size && l.align == k.align

-- The other blocks, if the address and the layout are those of a block.
unfoldable pub without : ℕ → Layout → List Block → Option (List Block)
without ptr layout [] = none
without ptr layout (b ∷ blocks) =
    if b.address == ptr
    then if same_layout b.layout layout then some blocks else none
    else elim (without ptr layout blocks) [ none ↦ none | some rest ↦ some (b ∷ rest) ]

-- `std::alloc::dealloc`: the caller has to give a block that is allocated, with its own layout. Anything
-- else is undefined behaviour; here it panics.
unfoldable pub dealloc : ℕ → Layout → List Block → Exec (List Block)
unfolding without
dealloc ptr layout blocks = unwrap (without ptr layout blocks)

-- `Layout::for_value` of a `ControlBlock`, and of a reference to one, on a 64-bit target
abbrev pub layout_of_block : Layout
layout_of_block = record { size = 4; align = 4 }

abbrev pub layout_of_reference : Layout
layout_of_reference = record { size = 8; align = 8 }

-- `ControlBlockPtr::new`, at the address that the allocator returned
abbrev pub new_ptr : ℕ → List Block → List Block
new_ptr ptr blocks = alloc ptr layout_of_block blocks

-- `ControlBlockPtr::release`: the count, the result and the blocks that are left. `block` is a reference
-- already, so that `&block` refers to that.
unfoldable pub release_ptr : ℕ → ControlBlock → List Block → Exec (ControlBlock × Bool × List Block)
unfolding dealloc
release_ptr ptr b blocks =
    if leb b.unhandled_events 1
    then dealloc ptr layout_of_reference blocks >>= (λ rest. returns (release b, true, rest))
    else returns (release b, false, blocks)

-- The branch of `run_thread` (crates/core/dytor/src/runtime/mod.rs) in which the last accessor was
-- dropped.
unfoldable pub dealloc_last : ℕ → List Block → Exec (List Block)
unfolding dealloc
dealloc_last ptr blocks = dealloc ptr layout_of_block blocks

-- `Arena::from_layouts` takes the block of an arena, and `Arena::drop` gives it back.
abbrev pub arena_layout : Arena → Layout
arena_layout a = record { size = a.capacity; align = 1 }

abbrev pub arena_blocks : Arena → List Block → List Block
arena_blocks a blocks = alloc a.base (arena_layout a) blocks

unfoldable pub drop_arena : Arena → List Block → Exec (List Block)
unfolding dealloc
drop_arena a blocks = dealloc a.base (arena_layout a) blocks

-- Dropping an arena, and the branch of `run_thread` for the last accessor, give the block back that
-- was taken for the arena and for the control block, and leave the other blocks. A `release` that does
-- not take the last count gives back none; one that takes the last count calls `dealloc` with a layout
-- that is not the block's, which `dealloc` does not allow.
pub release_ptr-dealloc :
    (ptr : ℕ) (b : ControlBlock) (a : Arena) (blocks : List Block)
    → (drop_arena a (arena_blocks a blocks) ≡ returns blocks)
      × (dealloc_last ptr (new_ptr ptr blocks) ≡ returns blocks)
      × (((1 < b.unhandled_events)
            × (release_ptr ptr b (new_ptr ptr blocks)
                ≡ returns (release b, false, new_ptr ptr blocks)))
          ⊎ ((b.unhandled_events ≤ 1) × (release_ptr ptr b (new_ptr ptr blocks) ≡ panics)))
unfolding drop_arena dealloc_last release_ptr dealloc without
release_ptr-dealloc ptr b a blocks = (
  rw (==_refl a.base, ==_refl a.capacity) refl,
  rw (==_refl ptr) refl,
  elim (dec_le b.unhandled_events 1) [
    | yes last ↦
        (let t : leb b.unhandled_events 1 ≡ true = ground arith in
          inr (last, rw (t, ==_refl ptr) refl))
    | no more ↦
        (let t : leb b.unhandled_events 1 ≡ false = ground arith in inl (omega arith, rw t refl))
  ],
)
