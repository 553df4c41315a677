-- ===== src/Arena.antt =====
-- crates/core/dytor/src/arena.rs: one block of memory for the actors of a context. An address is a
-- number below 2^64. Sums and differences are checked, as in the development profile of Cargo.toml.
pub mod Required
pub mod Padding
pub mod Fits
pub mod Access
pub mod Examples
use dytor.Common.{
  ℕ, ◌+◌, ◌-◌, ◌%◌, ◌^◌, ◌≤◌, ◌<◌, ◌≡◌, List, [], ◌∷◌, Exec, returns, panics, ◌>>=◌, ◌>>◌, assert,
  add_checked, sub_checked, to_u32, usize_mod, ltb, ◌==◌, if◌then◌else◌,
}

-- `std::alloc::Layout`; its alignment is a power of two.
pub record Layout : Type 0 where
  pub size : ℕ
  pub align : ℕ

abbrev pub IsPow2 : ℕ → Type 0
IsPow2 a = (k : ℕ) × (a ≡ 2 ^ k)

abbrev pub IsLayout : Layout → Type 0
IsLayout l = IsPow2 l.align

-- `Offset(u32)`
abbrev pub Offset : Type 0
Offset = ℕ

-- `Arena`; `data` is the address of the block.
pub record Arena : Type 0 where
  pub base : ℕ
  pub capacity : ℕ

-- The three variables of the loop in `compute_space_required`.
pub record Space : Type 0 where
  pub res : ℕ
  pub known_align : ℕ
  pub curr_offset : ℕ

abbrev pub empty_space : Space
empty_space = record { res = 0; known_align = 1; curr_offset = 0 }

-- The branch `align > known_align`: the padding that may be needed, whatever the address.
unfoldable pub widen : Space → ℕ → Exec Space
unfolding add_checked sub_checked
widen s align = do
  step ← sub_checked align s.known_align
  back ← sub_checked s.known_align s.curr_offset
  extra ← add_checked step (back % s.known_align)
  res ← add_checked s.res extra
  returns (record { res = res; known_align = align; curr_offset = 0 })

-- The other branch: the padding is known.
unfoldable pub pad : Space → ℕ → Exec Space
unfolding add_checked sub_checked
pad s align = do
  reach ← add_checked s.curr_offset align
  last ← sub_checked reach 1
  room ← sub_checked align (last % align)
  padding ← sub_checked room 1
  res ← add_checked s.res padding
  next ← add_checked s.curr_offset padding
  returns (record s { res = res; curr_offset = next % s.known_align })

-- What both branches are followed by.
unfoldable pub occupy : Space → ℕ → Exec Space
unfolding add_checked
occupy s size = do
  res ← add_checked s.res size
  next ← add_checked s.curr_offset size
  returns (record s { res = res; curr_offset = next % s.known_align })

unfoldable pub advance : Space → Layout → Exec Space
unfolding widen pad occupy
advance s l = do
  s' ← if ltb s.known_align l.align then widen s l.align else pad s l.align
  occupy s' l.size

unfoldable pub advance_all : Space → List Layout → Exec Space
advance_all s [] = returns s
advance_all s (l ∷ ls) = do s' ← advance s l; advance_all s' ls

unfoldable pub compute_space_required : List Layout → Exec ℕ
unfolding advance_all advance to_u32
compute_space_required ls = do s ← advance_all empty_space ls; to_u32 s.res

-- `wrapping_add` and `align_offset` of a pointer to bytes.
abbrev pub wrapping_add : ℕ → ℕ → ℕ
wrapping_add a n = (a + n) % usize_mod

abbrev pub align_offset : ℕ → ℕ → ℕ
align_offset a align = (align - a % align) % align

-- The loop of `get_offsets`. A negative difference of addresses has no `u32`.
unfoldable pub get_offsets_from : ℕ → ℕ → List Layout → Exec (List Offset)
unfolding sub_checked to_u32
get_offsets_from start curr [] = returns []
get_offsets_from start curr (l ∷ ls) = do
  let addr = wrapping_add curr (align_offset curr l.align)
  distance ← sub_checked addr start
  offset ← to_u32 distance
  rest ← get_offsets_from start (wrapping_add addr l.size) ls
  returns (offset ∷ rest)

unfoldable pub get_offsets : ℕ → List Layout → Exec (List Offset)
unfolding get_offsets_from
get_offsets start ls = get_offsets_from start start ls

-- `Arena::from_layouts`, for an allocator that returns an address, 0 if it fails. The layout that
-- is passed to the allocator has a size below 2^32, so that making it cannot fail.
unfoldable pub from_layouts : (ℕ → ℕ) → List Layout → Exec (Arena × List Offset)
unfolding compute_space_required get_offsets
from_layouts alloc ls = do
  capacity ← compute_space_required ls
  let base = alloc capacity
  assert (ltb 0 base)
  offsets ← get_offsets base ls
  returns (record { base = base; capacity = capacity }, offsets)

-- `Arena::at_offset`: the slice that it returns, as an address and a length.
unfoldable pub at_offset : Arena → Offset → Layout → Exec (ℕ × ℕ)
at_offset a offset l = do
  let ptr = wrapping_add a.base offset
  assert (align_offset ptr l.align == 0)
  assert (ltb (wrapping_add ptr l.size) (wrapping_add a.base a.capacity))
  returns (ptr, l.size)

-- `Arena::offset`
unfoldable pub offset : Arena → Offset → ℕ
offset a o = wrapping_add a.base o
