-- ===== src/Optimizer/Passes.antt =====
-- src/optimizer.c: the passes over `push`, `pop` and `lea`, and those over single commands.
-- A pass takes the commands from `cmd[0]` on and gives -1, `none`, or its result with the commands
-- as it leaves them. The driver calls it only where its frame is there, so the clause for a shorter
-- list is never reached.
use jacc.Common.{ℕ, ◌&&◌, ◌||◌, Option, none, some, List, ◌∷◌, if◌then◌else◌, add_int, not}
use jacc.Asm.{Instruction, memory, register, Operand, Memory, Command}
use jacc.Asm.Codes.{is_reg, is_type}
use jacc.Asm.Instructions.{is}
use jacc.Optimizer.Equality.{prefix, is_eq, is_eq_part, push_pop_opt_possible}

abbrev pub Pass : Type 0
Pass = List Command → Option (ℕ × List Command)

-- push a; push b; pop c; pop d => mov c, b; mov d, a
unfoldable pub opt_push_pop2 : Pass
opt_push_pop2 (a ∷ b ∷ c ∷ d ∷ rest) =
    if push_pop_opt_possible a d && push_pop_opt_possible b c
    then some (
      2,
      record a { type = Instruction.mov; op0 = c.op0; op1 = b.op0 }
          ∷ record b { type = Instruction.mov; op0 = d.op0; op1 = a.op0 }
          ∷ c
          ∷ d
          ∷ rest,
    )
    else none
opt_push_pop2 _ = none

-- push a; pop b => mov b, a
unfoldable pub opt_push_pop : Pass
opt_push_pop (a ∷ b ∷ rest) =
    if push_pop_opt_possible a b
    then some (1, record a { type = Instruction.mov; op0 = b.op0; op1 = a.op0 } ∷ b ∷ rest)
    else none
opt_push_pop _ = none

-- mov a, a => nothing
unfoldable pub opt_mov_self : Pass
opt_mov_self (a ∷ rest) =
    if is a.type Instruction.mov
      && (is_type a.op0.type register
          && (is_type a.op1.type register && is_reg a.op0.reg a.op1.reg))
    then some (0, a ∷ rest)
    else none
opt_mov_self _ = none

-- The operand `op` with `offset` added to that of its memory.
unfoldable pub shift : Operand → ℕ → Operand
shift op offset = record op {
  memory = record (op.memory) { offset = add_int (op.memory.offset) offset };
}

-- lea reg1, [reg2 + imm1]; lea reg1, [reg1 + imm2] => lea reg1, [reg2 + imm1 + imm2]
-- The source compares the second base with itself.
unfoldable pub opt_lea_lea : Pass
unfolding shift
opt_lea_lea (a ∷ b ∷ rest) =
    if is a.type Instruction.lea
      && (is b.type Instruction.lea
          && (is_reg a.op0.reg b.op0.reg && is_eq_part b.op1.memory.base b.op1.memory.base))
    then some (1, record a { op1 = shift a.op1 b.op1.memory.offset } ∷ b ∷ rest)
    else none
opt_lea_lea _ = none

-- lea reg1, []; mov reg2, reg1 => lea reg2, []
unfoldable pub opt_lea_mov : Pass
opt_lea_mov (a ∷ b ∷ rest) =
    if is a.type Instruction.lea
      && (is b.type Instruction.mov
          && (is_type a.op0.type register && (is_type b.op0.type register && is_eq a.op0 b.op1)))
    then some (1, record a { op0 = b.op0 } ∷ b ∷ rest)
    else none
opt_lea_mov _ = none

-- The memory operand `op` with the size of `m` and its offset added.
unfoldable pub retarget : Operand → Memory → Operand
retarget op m = record op {
  memory = record (op.memory) { size = m.size; offset = add_int (op.memory.offset) m.offset };
}

-- lea reg, []; push/inc/dec [reg] => push/inc/dec []
unfoldable pub opt_lea_deref : Pass
unfolding retarget
opt_lea_deref (a ∷ b ∷ rest) =
    if is a.type Instruction.lea
      && ((is b.type Instruction.push || (is b.type Instruction.inc || is b.type Instruction.dec))
          && (is_type a.op0.type register
              && (is_type a.op1.type memory
                  && (is_type b.op0.type memory && is_eq_part b.op0.memory.base (prefix a.op0)))))
    then some (1, record a { type = b.type; op0 = retarget a.op1 b.op0.memory } ∷ b ∷ rest)
    else none
opt_lea_deref _ = none

-- lea reg1, dword []; mov dword [reg1], reg2/imm => mov dword [], reg2/imm
unfoldable pub opt_lea_mov_ref : Pass
unfolding retarget
opt_lea_mov_ref (a ∷ b ∷ rest) =
    if is a.type Instruction.lea
      && (is b.type Instruction.mov
          && (is_type a.op0.type register
              && (is_type a.op1.type memory
                  && (is_type b.op0.type memory
                      && (not (is_type b.op1.type memory)
                          && is_eq_part b.op0.memory.base (prefix a.op0))))))
    then some (
      1,
      record a { type = Instruction.mov; op0 = retarget a.op1 b.op0.memory; op1 = b.op1 }
          ∷ b
          ∷ rest,
    )
    else none
opt_lea_mov_ref _ = none

-- fstp reg/mem; fld reg/mem => nothing
unfoldable pub opt_fstp_fld : Pass
opt_fstp_fld (a ∷ b ∷ rest) =
    if is a.type Instruction.fstp && (is b.type Instruction.fld && is_eq a.op0 b.op0)
    then some (0, a ∷ b ∷ rest)
    else none
opt_fstp_fld _ = none
