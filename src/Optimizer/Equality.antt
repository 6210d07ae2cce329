-- ===== src/Optimizer/Equality.antt =====
-- src/optimizer.c: `is_eq`, `push_pop_opt_possible` and `cmd_sign`.
use jacc.Common.{ℕ, Bool, false, not, ◌&&◌, ◌||◌, ◌==◌, if◌then◌else◌, neg_int, ◌≡◌, true, arith}
use jacc.Asm.{
  Instruction, OperandType, register, memory, constant, label, Operand, RegOrLabel, Memory, Command,
}
use jacc.Asm.Codes.{is_reg, is_type, is_size, type_code, reg_code_injective, is_type_sound}
use jacc.Asm.Instructions.{is}

-- The fields that an operand shares with the shorter struct of a base or an index.
unfoldable pub prefix : Operand → RegOrLabel
prefix op = record { type = op.type; reg = op.reg; label = op.label }

-- `is_eq` on a base or an index. `memory` asserts that their types are AOT_REGISTER or AOT_LABEL;
-- the other two types have no fields to compare here.
is_eq_part_at : OperandType → RegOrLabel → RegOrLabel → Bool
is_eq_part_at register a b = is_reg a.reg b.reg
is_eq_part_at label a b = a.label.id == b.label.id && a.label.name == b.label.name
is_eq_part_at memory a b = false
is_eq_part_at constant a b = false

unfoldable pub is_eq_part : RegOrLabel → RegOrLabel → Bool
unfolding is_eq_part_at
is_eq_part a b = if is_type a.type b.type then is_eq_part_at a.type a b else false

unfoldable pub is_eq_memory : Memory → Memory → Bool
is_eq_memory a b =
    is_eq_part a.base b.base
    && (is_eq_part a.index b.index
        && (a.offset == b.offset && (a.scale == b.scale && is_size a.size b.size)))

is_eq_at : OperandType → Operand → Operand → Bool
is_eq_at register a b = is_reg a.reg b.reg
is_eq_at constant a b = a.value == b.value
is_eq_at memory a b = is_eq_memory a.memory b.memory
is_eq_at label a b = a.label.id == b.label.id && a.label.name == b.label.name

unfoldable pub is_eq : Operand → Operand → Bool
unfolding is_eq_at
is_eq a b = if is_type a.type b.type then is_eq_at a.type a b else false

unfoldable pub push_pop_opt_possible : Command → Command → Bool
push_pop_opt_possible a b =
    is a.type Instruction.push
    && (is b.type Instruction.pop
        && (not (is_type a.op0.type memory) || not (is_type b.op0.type memory)))

-- `cmd_sign(cmd) * value`, where the sign is 1, -1 or 0
unfoldable pub signed_value : Instruction → ℕ → ℕ
signed_value Instruction.add v = v
signed_value Instruction.sub v = neg_int v
signed_value _ v = 0

-- Equal operands have one type, and equal registers are one register.
pub is_eq_type : (p q : Operand) → is_eq p q ≡ true → p.type ≡ q.type
unfolding is_eq
is_eq_type p q h = is_type_sound p.type q.type (ground arith)

pub is_eq_reg : (p q : Operand) → p.type ≡ register → is_eq p q ≡ true → p.reg ≡ q.reg
unfolding is_eq type_code
is_eq_reg p q t h =
    let same = is_eq_type p q h in
    reg_code_injective p.reg q.reg (ground (arith, rw (← same, t) at h))
