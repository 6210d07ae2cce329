-- ===== src/Pull.antt =====
-- src/pull.c: the pool of pointers, a list of blocks of `pull_BLOCK_CAPACITY` slots each, the head
-- block first. A pointer is its address. A write past a block's slots is a fault, `none`.
pub mod Safety
pub mod Tests
use jacc.Common.{ℕ, suc, Option, none, some, List, [], ◌∷◌, ◌++◌, if◌then◌else◌, ltb, ◌==◌, length}

abbrev pub block_capacity : ℕ
block_capacity = 248

-- The slots in use, `ptrs[0]` up to `ptrs[size - 1]`.
pub record Block : Type 0 where
  pub ptrs : List ℕ

abbrev pub block_size : Block → ℕ
block_size b = length b.ptrs

-- The head block, and the blocks behind it along `next`.
pub record Pull : Type 0 where
  pub head : Block
  pub rest : List Block

abbrev empty_block : Block
empty_block = record { ptrs = [] }

unfoldable pub pull_create : Pull
pull_create = record { head = empty_block; rest = [] }

unfoldable pub pull_add : Pull → ℕ → Option Pull
pull_add gc ptr =
    if ltb (block_size gc.head) block_capacity
    then (let block : Block = record { ptrs = gc.head.ptrs ++ ptr ∷ [] } in
        if block_size block == block_capacity
        then some (record { head = empty_block; rest = block ∷ gc.rest })
        else some (record gc { head = block }))
    else none

-- The blocks behind the head are freed, and the head is emptied. The result says which blocks
-- `jacc_free` was called on.
unfoldable pub pull_clear : Pull → Pull × List Block
pull_clear gc = (record { head = empty_block; rest = [] }, gc.rest)

-- The pointers of each block, in the order in which `jacc_free` is called on them.
unfoldable pub free_blocks : List Block → List ℕ
free_blocks [] = []
free_blocks (b ∷ blocks) = b.ptrs ++ free_blocks blocks

-- The pool afterwards, the pointers that were freed, and the blocks that were.
unfoldable pub pull_free_objects : Pull → Pull × List ℕ × List Block
unfolding pull_clear free_blocks
pull_free_objects gc =
    let (gc', blocks) = pull_clear gc in (gc', free_blocks (gc.head ∷ gc.rest), blocks)

-- All blocks that are freed, the head last.
unfoldable pub pull_destroy : Pull → List Block
unfolding pull_clear
pull_destroy gc = let (gc', blocks) = pull_clear gc in blocks ++ gc'.head ∷ []
