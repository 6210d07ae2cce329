-- ===== src/Optimizer/Moves.antt =====
-- src/optimizer.c: `opt_mov`, and the conditional jumps.
use jacc.Common.{Bool, ◌&&◌, ◌||◌, not, none, some, ◌∷◌, if◌then◌else◌}
use jacc.Asm.{Instruction, memory, register, constant, Register, Command}
use jacc.Asm.Codes.{is_reg, is_type}
use jacc.Asm.Instructions.{is}
use jacc.Optimizer.Equality.{is_eq}
use jacc.Optimizer.Passes.{Pass}

-- mov b, a; mov c, b => mov c, a
unfoldable pub mov_mov : Command → Command → Bool
mov_mov a b =
    is b.type Instruction.mov
    && (not (is_type a.op0.type memory)
        && (is_eq a.op0 b.op1
            && (not (is_type a.op1.type memory) || not (is_type b.op0.type memory))))

-- mov reg1, reg2; test reg1, reg1 => test reg2, reg2
unfoldable pub mov_test : Command → Command → Bool
mov_test a b =
    is b.type Instruction.test
    && (is_type a.op0.type register
        && (is_type a.op1.type register && (is_eq a.op0 b.op1 && is_eq b.op0 b.op1)))

-- mov reg1, imm; imul reg1 => imul eax, imm
unfoldable pub mov_imul : Command → Command → Bool
mov_imul a b =
    is b.type Instruction.imul
    && (is_type a.op0.type register && (is_type a.op1.type constant && is_eq a.op0 b.op0))

unfoldable pub opt_mov : Pass
unfolding mov_mov mov_test mov_imul
opt_mov (a ∷ b ∷ rest) =
    if not (is a.type Instruction.mov)
    then none
    else if mov_mov a b
    then some (1, record a { op0 = b.op0 } ∷ b ∷ rest)
    else if mov_test a b
    then some (1, record a { type = Instruction.test; op0 = a.op1 } ∷ b ∷ rest)
    else if mov_imul a b
    then some (
      1,
      record a { type = Instruction.imul2; op0 = record (a.op0) { reg = Register.eax } } ∷ b ∷ rest,
    )
    else none
opt_mov _ = none

unfoldable pub invert_instruction : Instruction → Instruction
invert_instruction Instruction.je = Instruction.jne
invert_instruction Instruction.jne = Instruction.je
invert_instruction Instruction.jle = Instruction.jg
invert_instruction Instruction.jl = Instruction.jge
invert_instruction Instruction.jge = Instruction.jl
invert_instruction Instruction.jg = Instruction.jle
invert_instruction cmd = cmd

-- The jump for a `setcc`; NOP for any other command.
unfoldable pub jump_of_set : Instruction → Instruction
jump_of_set Instruction.sete = Instruction.je
jump_of_set Instruction.setne = Instruction.jne
jump_of_set Instruction.setle = Instruction.jle
jump_of_set Instruction.setl = Instruction.jl
jump_of_set Instruction.setge = Instruction.jge
jump_of_set Instruction.setg = Instruction.jg
jump_of_set _ = Instruction.nop

-- The guard of `opt_cond_jmp`, past the test of the new jump.
unfoldable pub set_test_jump : Command → Command → Command → Bool
set_test_jump a b c =
    is b.type Instruction.test
    && ((is c.type Instruction.jnz || is c.type Instruction.jz)
        && (is_type a.op0.type register
            && (is_type b.op0.type register
                && (is_reg a.op0.reg Register.cl
                    && (is_reg b.op0.reg Register.ecx && is_eq b.op0 b.op1)))))

-- setl cl; test ecx, ecx; jnz/jz label => jcc/inverted jcc label
unfoldable pub opt_cond_jmp : Pass
unfolding invert_instruction jump_of_set set_test_jump
opt_cond_jmp (a ∷ b ∷ c ∷ rest) =
    let new_op = jump_of_set a.type in
    if not (is new_op Instruction.nop) && set_test_jump a b c
    then some (
      1,
      record a {
        type = if is c.type Instruction.jz then invert_instruction new_op else new_op;
        op0 = c.op0;
      }
          ∷ b
          ∷ c
          ∷ rest,
    )
    else none
opt_cond_jmp _ = none
