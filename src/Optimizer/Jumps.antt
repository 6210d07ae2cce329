-- ===== src/Optimizer/Jumps.antt =====
-- src/optimizer.c: a comparison's `setcc`, tested and branched on, against the jump that
-- `opt_cond_jmp` puts in its place. The effect of the x86 instructions is that of the processor's
-- manual.
use jacc.Common.{
  ℕ, ◌≡◌, refl, Bool, true, false, not, ◌&&◌, ◌||◌, arith, List, ◌∷◌, some, if◌then◌else◌, less_int,
  ◌==◌, ap, ◌<◌, ◌-◌, ◌+◌, ◌%◌, sym, ◌∙◌, inl, inr, Bool-cases,
}
use mathlib.Core.Path.{ap₂}
use Prim.Native.Nat.{bit_and}
use jacc.Asm.{Instruction, Register, register, Operand, Command}
use jacc.Asm.Codes.{reg_code, is_reg, is_type, reg_code_injective, is_type_sound}
use jacc.Optimizer.Equality.{is_eq, is_eq_type, is_eq_reg}
use jacc.Asm.Instructions.{is, code}
use jacc.Optimizer.Moves.{opt_cond_jmp, jump_of_set, invert_instruction, set_test_jump}

-- Whether a `setcc` after `cmp x, y` sets its register.
abbrev pub sets : Instruction → ℕ → ℕ → Bool
sets Instruction.sete x y = x == y
sets Instruction.setne x y = not (x == y)
sets Instruction.setl x y = less_int x y
sets Instruction.setge x y = not (less_int x y)
sets Instruction.setg x y = less_int y x
sets Instruction.setle x y = not (less_int y x)
sets _ x y = false

-- Whether a jump after `cmp x, y` is taken.
abbrev pub jumps : Instruction → ℕ → ℕ → Bool
jumps Instruction.je x y = x == y
jumps Instruction.jne x y = not (x == y)
jumps Instruction.jl x y = less_int x y
jumps Instruction.jge x y = not (less_int x y)
jumps Instruction.jg x y = less_int y x
jumps Instruction.jle x y = not (less_int y x)
jumps _ x y = false

-- Whether `jz` or `jnz` is taken, for the zero flag.
abbrev pub branches : Instruction → Bool → Bool
branches Instruction.jz zero_flag = zero_flag
branches Instruction.jnz zero_flag = not zero_flag
branches _ zero_flag = false

-- The register of which a register is the low byte.
abbrev pub whole : Register → Register
whole Register.al = Register.eax
whole Register.bl = Register.ebx
whole Register.cl = Register.ecx
whole Register.dl = Register.edx
whole _ = Register.none_reg

-- The 32-bit registers after a `setcc` on a low byte, which writes 1 or 0 there.
abbrev pub run_set : Command → ℕ → ℕ → (Register → ℕ) → Register → ℕ
run_set c x y m r =
    if is_type c.op0.type register && is_reg r (whole c.op0.reg)
    then m r - m r % 256 + (if sets c.type x y then 1 else 0)
    else m r

-- What an operand holds; `other` says it for the operands that are no registers.
abbrev pub held : (Operand → ℕ) → (Register → ℕ) → Operand → ℕ
held other m o = if is_type o.type register then m o.reg else other o

-- The zero flag after `test`.
abbrev pub tests_zero : (Operand → ℕ) → Command → (Register → ℕ) → Bool
tests_zero other c m = bit_and (held other m c.op0) (held other m c.op1) == 0

not-not : (b : Bool) → not (not b) ≡ b
not-not true = refl
not-not false = refl

jumps-set :
    (t : Instruction) (x y : ℕ)
    → is (jump_of_set t) Instruction.nop ≡ false
    → (jumps (jump_of_set t) x y ≡ sets t x y)
      × (jumps (invert_instruction (jump_of_set t)) x y ≡ not (sets t x y))
unfolding jump_of_set invert_instruction code
jumps-set Instruction.sete x y h = (refl, refl)
jumps-set Instruction.setne x y h = (refl, sym (not-not _))
jumps-set Instruction.setl x y h = (refl, refl)
jumps-set Instruction.setge x y h = (refl, sym (not-not _))
jumps-set Instruction.setg x y h = (refl, refl)
jumps-set Instruction.setle x y h = (refl, sym (not-not _))
jumps-set _ x y h = cc

branch_kind :
    (t : Instruction) (b : Bool)
    → (is t Instruction.jnz || is t Instruction.jz) ≡ true
    → branches t (not b) ≡ (if is t Instruction.jz then not b else b)
unfolding code
branch_kind Instruction.jz b h = refl
branch_kind Instruction.jnz b h = not-not b
branch_kind _ b h = cc

held_lem :
    (other : Operand → ℕ) (m : Register → ℕ) (o : Operand)
    → is_type o.type register ≡ true
    → held other m o ≡ m o.reg
held_lem other m o h = rw h refl

-- ECX after a `setcc cl`, where its upper bytes are clear
run_set_lem :
    (a : Command) (x y : ℕ) (m : Register → ℕ)
    → is_type a.op0.type register ≡ true
    → is_reg a.op0.reg Register.cl ≡ true
    → m Register.ecx < 256
    → run_set a x y m Register.ecx ≡ (if sets a.type x y then 1 else 0)
unfolding reg_code
run_set_lem a x y m t r small =
    let cl : a.op0.reg ≡ Register.cl = reg_code_injective _ _ (ground (arith, r)) in
    let clear : m Register.ecx - m Register.ecx % 256 ≡ 0 = omega arith in
    rw (t, cl, clear) (omega arith)

truth_test : (b : Bool) → (bit_and (if b then 1 else 0) (if b then 1 else 0) == 0) ≡ not b
truth_test true = refl
truth_test false = refl

-- The `test` of the pattern finds the truth value of the comparison.
set-tests_zero :
    (other : Operand → ℕ) (a b c : Command) (x y : ℕ) (m : Register → ℕ)
    → set_test_jump a b c ≡ true
    → m Register.ecx < 256
    → tests_zero other b (run_set a x y m) ≡ not (sets a.type x y)
unfolding set_test_jump reg_code
set-tests_zero other a b c x y m h small =
    let first : is_type b.op0.type register ≡ true = ground arith in
    let equal : is_eq b.op0 b.op1 ≡ true = ground arith in
    let kind = is_type_sound b.op0.type register first in
    let second : is_type b.op1.type register ≡ true = rw (← (is_eq_type b.op0 b.op1 equal)) first in
    let ecx : b.op0.reg ≡ Register.ecx = reg_code_injective _ _ (ground arith) in
    let ecx' = sym (is_eq_reg b.op0 b.op1 kind equal) ∙ ecx in
    let m' = run_set a x y m in
    let bit = run_set_lem a x y m (ground arith) (ground arith) small in
    let left = held_lem other m' b.op0 first ∙ ap m' ecx ∙ bit in
    let right = held_lem other m' b.op1 second ∙ ap m' ecx' ∙ bit in
    ap₂ (λ u v. bit_and u v == 0) left right ∙ truth_test (sets a.type x y)

-- Where `opt_cond_jmp` finds its pattern it fires, and the one jump that it leaves has the target
-- of the old one. After a comparison of two ints, with the upper three bytes of ECX clear, it is
-- taken exactly when the old jump is after the `setcc` has written its register and the `test` has
-- set the zero flag by its two operands.
pub cond_jmp-jumps :
    (a b c : Command) (rest : List Command) (x y : ℕ) (m : Register → ℕ) (other : Operand → ℕ)
    → (not (is (jump_of_set a.type) Instruction.nop) && set_test_jump a b c) ≡ true
    → m Register.ecx < 256
    → (j : Command) × (opt_cond_jmp (a ∷ b ∷ c ∷ rest) ≡ some (1, j ∷ b ∷ c ∷ rest))
      × (j.op0 ≡ c.op0)
      × (jumps j.type x y ≡ branches c.type (tests_zero other b (run_set a x y m)))
unfolding opt_cond_jmp set_test_jump
cond_jmp-jumps a b c rest x y m other h small =
    let (straight, inverted) = jumps-set a.type x y (ground arith) in
    let zero_flag = set-tests_zero other a b c x y m (ground arith) small in
    let kind =
      ap (branches c.type) zero_flag ∙ branch_kind c.type (sets a.type x y) (ground arith) in
    (
      record a {
        type =
            if is c.type Instruction.jz
            then invert_instruction (jump_of_set a.type)
            else jump_of_set a.type;
        op0 = c.op0;
      },
      rw h refl,
      refl,
      elim (Bool-cases (is c.type Instruction.jz)) [
        | inl z ↦ rw (z) (inverted ∙ sym (kind ∙ rw z refl))
        | inr z ↦ rw (z) (straight ∙ sym (kind ∙ rw z refl))
      ],
    )
