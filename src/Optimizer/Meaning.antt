-- ===== src/Optimizer/Meaning.antt =====
-- src/optimizer.c: what the rewritten constant arithmetic computes. The effect
-- of the x86 instructions on 32-bit values is that of the processor's manual.
use jacc.Common.{
  ℕ, ◌*◌, ◌%◌, ◌^◌, ◌<◌, ◌≡◌, ◌≢◌, refl, ap, sym, true, ◌||◌, arith, List, ◌∷◌, some, add_int,
  sub_int, mul_int, int_mod, int_min, IsInt,
}
use jacc.Asm.{Instruction, constant, Command}
use jacc.Asm.Codes.{type_code}
use jacc.Asm.Instructions.{is, code}
use jacc.Optimizer.Equality.{signed_value}
use jacc.Optimizer.Arithmetic.{is_power_of_2, int_log2, opt_imul2, log2_loop}
use jacc.Optimizer.PowersOfTwo.{int_log2_lem}

-- The new value of a destination that holds `x`, for the constant `v`.
abbrev pub run_constant : Instruction → ℕ → ℕ → ℕ
run_constant Instruction.add x v = add_int x v
run_constant Instruction.sub x v = sub_int x v
run_constant Instruction.imul2 x v = mul_int x v
run_constant Instruction.shl x v = x * 2 ^ v % int_mod
run_constant Instruction.mov x v = v
run_constant _ x v = x

pub run-signed_value :
    (t : Instruction) (x v : ℕ)
    → (is t Instruction.add || is t Instruction.sub) ≡ true
    → IsInt x
    → IsInt v
    → run_constant t x v ≡ add_int x (signed_value t v)
unfolding signed_value code
run-signed_value Instruction.add x v h hx hv = refl
run-signed_value Instruction.sub x v h hx hv = omega arith
run-signed_value _ x v h hx hv = cc

pub signed_value-IsInt : (t : Instruction) (v : ℕ) → IsInt v → IsInt (signed_value t v)
unfolding signed_value
signed_value-IsInt Instruction.add v h = h
signed_value-IsInt Instruction.sub v h = omega arith
signed_value-IsInt _ v h = omega arith

-- `opt_imul2` fires on a multiplication by a positive constant that is a power of two, and
-- leaves one command with the same destination that multiplies every int by the constant.
pub imul2-effect :
    (a : Command) (rest : List Command)
    → a.type ≡ Instruction.imul2
    → a.op1.type ≡ constant
    → is_power_of_2 a.op1.value ≡ true
    → 0 < a.op1.value
    → a.op1.value < int_min
    → (c : Command) × (opt_imul2 (a ∷ rest) ≡ some (1, c ∷ rest))
      × (c.op0 ≡ a.op0)
      × ((x : ℕ) → run_constant c.type x c.op1.value ≡ run_constant a.type x a.op1.value)
unfolding opt_imul2 code type_code
imul2-effect a rest t k p l h = (
  record a { type = Instruction.shl; op1 = record (a.op1) { value = int_log2 a.op1.value } },
  rw (t, k, p) refl,
  refl,
  λ x. rw t (ap (λ v. x * v % int_mod) (sym (int_log2_lem a.op1.value l h p))),
)

-- `opt_imul2` also fires on a multiplication by the constant 0, and then the command that it
-- leaves gives another result than the multiplication on every int but 0.
pub imul2_zero-wrong :
    (a : Command) (rest : List Command) (x : ℕ)
    → a.type ≡ Instruction.imul2
    → a.op1.type ≡ constant
    → a.op1.value ≡ 0
    → IsInt x
    → x ≢ 0
    → (c : Command) × (opt_imul2 (a ∷ rest) ≡ some (1, c ∷ rest))
      × (run_constant c.type x c.op1.value ≢ run_constant a.type x a.op1.value)
unfolding opt_imul2 is_power_of_2 int_log2 log2_loop code type_code
imul2_zero-wrong a rest x t k z hx n = (
  record a { type = Instruction.shl; op1 = record (a.op1) { value = int_log2 a.op1.value } },
  rw (t, k, z) refl,
  rw (t, z) (λ e. n (omega (arith, e))),
)
