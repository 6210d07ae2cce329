-- ===== src/Pull/Safety.antt =====
-- src/pull.c: no write past a block, and every pointer freed once.
use mathlib.Core.List.{Perm, append-nil, append_assoc, perm_append_comm}
use mathlib.Core.List.Perm
use jacc.Common.{
  ℕ, ◌<◌, ◌≡◌, refl, sym, ◌∙◌, some, List, [], ◌∷◌, ◌++◌, inl, inr, Bool-cases, ◌==◌, arith,
  length-append,
}
use jacc.Pull.{Block, Pull, block_capacity, block_size, pull_add, free_blocks, pull_free_objects}

abbrev IsFull : List Block → Type 0
IsFull [] = Unit
IsFull (b ∷ blocks) = (block_size b ≡ block_capacity) × IsFull blocks

-- The head has a free slot, and every other block is full.
pub record IsValid (gc : Pull) : Type 0 where
  pub room : block_size gc.head < block_capacity
  pub full : IsFull gc.rest

-- The pointers of the pool in the order in which they were added.
pub in_order : List Block → List ℕ
in_order [] = []
in_order (b ∷ blocks) = in_order blocks ++ b.ptrs

abbrev pub pointers : Pull → List ℕ
pointers gc = in_order (gc.head ∷ gc.rest)

-- On a valid pool `pull_add` does not write outside the head block. It keeps the pool valid,
-- and the pointers afterwards are the pointers before with the new one at the end.
pub add-pointers :
    {gc : Pull} (p : ℕ)
    → IsValid gc
    → (gc' : Pull) × (pull_add gc p ≡ some gc')
      × IsValid gc'
      × (pointers gc' ≡ pointers gc ++ p ∷ [])
unfolding pull_add in_order
add-pointers {gc} p v =
    let block : Block = record { ptrs = gc.head.ptrs ++ p ∷ [] } in
    let longer = length-append gc.head.ptrs (p ∷ []) in
    elim (Bool-cases (block_size block == block_capacity)) [
      | inl e ↦ (
        record { head = record { ptrs = [] }; rest = block ∷ gc.rest },
        ground arith,
        record { room = omega arith; full = (ground arith, v.full) },
        append-nil _ ∙ sym (append_assoc (in_order gc.rest) gc.head.ptrs (p ∷ [])),
      )
      | inr e ↦ (
        record gc { head = block },
        ground arith,
        record { room = ground arith; full = v.full },
        sym (append_assoc (in_order gc.rest) gc.head.ptrs (p ∷ [])),
      )
    ]

free_blocks-perm : (blocks : List Block) → Perm (free_blocks blocks) (in_order blocks)
unfolding free_blocks in_order
free_blocks-perm [] = Perm.refl []
free_blocks-perm (b ∷ blocks) =
    Perm.trans (perm_append_comm b.ptrs (free_blocks blocks))
      (Perm.append (free_blocks-perm blocks) (Perm.refl b.ptrs))

-- On a valid pool `pull_free_objects` frees exactly the pointers of the pool, each as often as
-- it was added, and leaves a valid pool without pointers.
pub free_objects-perm :
    {gc : Pull}
    → IsValid gc
    → let (gc', freed, _) = pull_free_objects gc in
      Perm freed (pointers gc) × IsValid gc' × (pointers gc' ≡ [])
unfolding pull_free_objects in_order
free_objects-perm {gc} v =
    (free_blocks-perm (gc.head ∷ gc.rest), record { room = omega arith; full = tt }, refl)
