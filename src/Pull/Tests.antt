-- ===== src/Pull/Tests.antt =====
-- src/pull.c: the theorems at concrete pools.
use jacc.Common.{◌≡◌, [], ◌∷◌, ◌++◌, some, arith}
use mathlib.Core.List.{Perm}
use jacc.Pull.{Pull, pull_add, pull_free_objects}
use jacc.Pull.Safety.{IsValid, pointers, add-pointers, free_objects-perm}

abbrev two_pointers : Pull
two_pointers = record { head = record { ptrs = 16 ∷ 32 ∷ [] }; rest = [] }

two_pointers-IsValid : IsValid two_pointers
two_pointers-IsValid = record { room = omega arith; full = tt }

add-pointers_example :
    (gc : Pull) × (pull_add two_pointers 48 ≡ some gc)
    × IsValid gc
    × (pointers gc ≡ pointers two_pointers ++ 48 ∷ [])
add-pointers_example = add-pointers 48 two_pointers-IsValid

free_objects-perm_example :
    let (gc, freed, _) = pull_free_objects two_pointers in
    Perm freed (pointers two_pointers) × IsValid gc × (pointers gc ≡ [])
free_objects-perm_example = free_objects-perm two_pointers-IsValid
