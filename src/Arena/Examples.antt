-- ===== src/Arena/Examples.antt =====
-- The tests of arena.rs, and arenas at which the theorems apply.
use dytor.Common.{ℕ, ◌≤◌, ◌≡◌, List, [], ◌∷◌, returns, refl, arith, All}
use dytor.Arena.{Arena, Layout, Offset, IsLayout, compute_space_required, get_offsets, from_layouts}
use dytor.Arena.Required.{compute_space_required-bounds}
use dytor.Arena.Fits.{Packed}
use dytor.Arena.Access.{from_layouts-Packed}

abbrev bytes : ℕ → ℕ → Layout
bytes s a = record { size = s; align = a }

abbrev bound1 : List Layout
bound1 = bytes 4 1 ∷ bytes 2 2 ∷ bytes 2 2 ∷ []

abbrev bound2 : List Layout
bound2 = bytes 4 4 ∷ bytes 8 8 ∷ bytes 4 4 ∷ []

space_bound1 : compute_space_required bound1 ≡ returns 9
unfolding compute_space_required
space_bound1 = refl

space_bound2 : compute_space_required bound2 ≡ returns 23
unfolding compute_space_required
space_bound2 = refl

offsets2 : get_offsets 0x1004 bound2 ≡ returns (0 ∷ 4 ∷ 12 ∷ [])
unfolding get_offsets
offsets2 = refl

bound2-IsLayout : All IsLayout bound2
bound2-IsLayout = ((2, refl), ((3, refl), ((2, refl), tt)))

compute_space_required-bounds_example :
    (capacity : ℕ) × (compute_space_required bound2 ≡ returns capacity)
    × (16 ≤ capacity)
    × (capacity ≤ 29)
compute_space_required-bounds_example =
    compute_space_required-bounds bound2 8 bound2-IsLayout (omega arith) (omega arith) (omega arith)

abbrev heap : ℕ → ℕ
heap _ = 0x1004

from_layouts-Packed_example :
    (os : List Offset) × (from_layouts heap bound2
      ≡ returns (record { base = 0x1004; capacity = 23 }, os))
    × Packed 0x1004 23 0 bound2 os
from_layouts-Packed_example =
    from_layouts-Packed heap 23 bound2 bound2-IsLayout space_bound2 (omega arith) (omega arith)

abbrev arena2 : Arena
arena2 = record { base = 0x1004; capacity = 23 }

-- Two actors that are arrays of bytes.
abbrev packed_actors : List Layout
packed_actors = bytes 4 1 ∷ bytes 3 1 ∷ []

packed_space : compute_space_required packed_actors ≡ returns 7
unfolding compute_space_required
packed_space = refl
