-- ===== src/Blocks/Examples.antt =====
-- A control block with its last count.
use dytor.Common.{◌≤◌, ◌<◌, ◌≡◌, ◌⊎◌, false, [], returns, panics}
use dytor.Context.{new_block, release}
use dytor.Blocks.{new_ptr, release_ptr, dealloc_last, drop_arena, arena_blocks, release_ptr-dealloc}
use dytor.Arena.{Arena}

abbrev arena : Arena
arena = record { base = 8192; capacity = 39 }

release_ptr-dealloc_example :
    (drop_arena arena (arena_blocks arena []) ≡ returns [])
    × (dealloc_last 4096 (new_ptr 4096 []) ≡ returns [])
    × (((1 < 1)
          × (release_ptr 4096 new_block (new_ptr 4096 [])
              ≡ returns (release new_block, false, new_ptr 4096 [])))
        ⊎ ((1 ≤ 1) × (release_ptr 4096 new_block (new_ptr 4096 []) ≡ panics)))
release_ptr-dealloc_example = release_ptr-dealloc 4096 new_block arena []
