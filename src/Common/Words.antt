-- ===== src/Common/Words.antt =====
-- The C type `int`, as its bit pattern below 2 ^ 32. Arithmetic wraps around, as the compiled
-- program's does; a pattern from 2 ^ 31 on stands for a negative number.
use Prim.Native.Nat.{ℕ, ◌+◌, ◌-◌, ◌*◌, ◌%◌, ◌^◌, ◌<◌}
use mathlib.Core.Bool.{Bool, true, false}
use mathlib.Core.Path.{◌≡◌}
use native.Mathlib.Omega.{arith}
use jacc.Common.Tests.{leb, ltb, if◌then◌else◌}

abbrev pub int_mod : ℕ
int_mod = 2 ^ 32

abbrev pub int_min : ℕ
int_min = 2 ^ 31

abbrev pub add_int : ℕ → ℕ → ℕ
add_int a b = (a + b) % int_mod

abbrev pub sub_int : ℕ → ℕ → ℕ
sub_int a b = (a + (int_mod - b)) % int_mod

abbrev pub mul_int : ℕ → ℕ → ℕ
mul_int a b = a * b % int_mod

abbrev pub neg_int : ℕ → ℕ
neg_int a = (int_mod - a) % int_mod

abbrev pub is_negative : ℕ → Bool
is_negative a = leb int_min a

-- The signed order of two ints.
abbrev pub less_int : ℕ → ℕ → Bool
less_int x y =
    if is_negative x
    then (if is_negative y then ltb x y else true)
    else (if is_negative y then false else ltb x y)

abbrev pub IsInt : ℕ → Type 0
IsInt a = a < int_mod

pub sub_int-add_int : (a b : ℕ) → IsInt a → IsInt b → sub_int (add_int a b) b ≡ a
sub_int-add_int a b ha hb = omega arith
