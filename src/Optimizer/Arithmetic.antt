-- ===== src/Optimizer/Arithmetic.antt =====
-- src/optimizer.c: the passes that compute with constants.
use Prim.Native.Nat.{bit_and}
use jacc.Common.{
  ℕ, zero, suc, ◌+◌, ◌/◌, Bool, ◌&&◌, ◌||◌, none, some, ◌∷◌, ◌==◌, ltb, leb, if◌then◌else◌, add_int,
  sub_int, neg_int, is_negative,
}
use jacc.Asm.{Instruction, register, constant, Register, Command}
use jacc.Asm.Codes.{is_type}
use jacc.Asm.Instructions.{is}
use jacc.Optimizer.Equality.{is_eq, signed_value}
use jacc.Optimizer.Passes.{Pass}

-- The guard of `opt_add_sub`.
unfoldable pub add_sub_pair : Command → Command → Bool
add_sub_pair a b =
    (is a.type Instruction.add || is a.type Instruction.sub)
    && ((is b.type Instruction.add || is b.type Instruction.sub)
        && (is_eq a.op0 b.op0 && (is_type a.op1.type constant && is_type b.op1.type constant)))

-- add/sub reg/mem, imm1; add/sub reg/mem, imm2 => add/sub reg/mem, imm1+imm2
unfoldable pub opt_add_sub : Pass
unfolding add_sub_pair signed_value
opt_add_sub (a ∷ b ∷ rest) =
    let value = add_int (signed_value a.type a.op1.value) (signed_value b.type b.op1.value) in
    if add_sub_pair a b
    then (if is_negative value
        then some (
          1,
          record a { type = Instruction.sub; op1 = record (a.op1) { value = neg_int value } }
              ∷ b
              ∷ rest,
        )
        else if ltb 0 value
        then some (
          1,
          record a { type = Instruction.add; op1 = record (a.op1) { value = value } } ∷ b ∷ rest,
        )
        else some (0, a ∷ b ∷ rest))
    else none
opt_add_sub _ = none

-- `(v & (v - 1)) == 0`
unfoldable pub is_power_of_2 : ℕ → Bool
is_power_of_2 v = bit_and v (sub_int v 1) == 0

-- The loop of `int_log2` with fuel; a positive int is halved at most 30 times.
unfoldable pub log2_loop : ℕ → ℕ → ℕ → ℕ
log2_loop zero v r = r
log2_loop (suc fuel) v r = let rest = log2_loop fuel (v / 2) (r + 1) in if leb 2 v then rest else r

-- The test `v >= 2` is signed, so a negative `v` ends the loop at once.
unfoldable pub int_log2 : ℕ → ℕ
unfolding log2_loop
int_log2 v = if is_negative v then 0 else log2_loop 32 v 0

-- imul2 reg, 2**p => shl reg, p
unfoldable pub opt_imul2 : Pass
unfolding is_power_of_2 int_log2
opt_imul2 (a ∷ rest) =
    if is a.type Instruction.imul2 && (is_type a.op1.type constant && is_power_of_2 a.op1.value)
    then some (
      1,
      record a { type = Instruction.shl; op1 = record (a.op1) { value = int_log2 a.op1.value } }
          ∷ rest,
    )
    else none
opt_imul2 _ = none

-- The guard of `opt_idiv`.
unfoldable pub idiv_triple : Command → Command → Command → Bool
unfolding is_power_of_2
idiv_triple a b c =
    is a.type Instruction.mov
    && (is b.type Instruction.cdq
        && (is c.type Instruction.idiv
            && (is_type a.op0.type register
                && (is_type a.op1.type constant
                    && (is_power_of_2 a.op1.value && is_eq a.op0 c.op0)))))

-- mov reg, 2**p; cdq; idiv reg => sar eax, p
unfoldable pub opt_idiv : Pass
unfolding idiv_triple int_log2
opt_idiv (a ∷ b ∷ c ∷ rest) =
    if idiv_triple a b c
    then some (
      1,
      record a {
        type = Instruction.sar;
        op0 = record (a.op0) { reg = Register.eax };
        op1 = record (a.op1) { value = int_log2 a.op1.value };
      }
          ∷ b
          ∷ c
          ∷ rest,
    )
    else none
opt_idiv _ = none
