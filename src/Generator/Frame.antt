-- ===== src/Generator/Frame.antt =====
-- src/generator.c: ESP, EBP and the words on the stack while the first and the last commands of a
-- function run. The effect of the commands is that of the processor's manual.
use jacc.Common.{
  ◌++◌, ℕ, ◌+◌, ◌-◌, Option, none, some, List, [], ◌∷◌, Bytes, bytes_eq, Bool, true, false, ◌&&◌,
  ◌==◌, if◌then◌else◌,
}
use jacc.Asm.{Instruction, Register, OperandType, Label, Operand, Command}
use jacc.Asm.Codes.{is_reg, is_type, reg_code, type_code}
use jacc.Generator.Balance.{moves_esp}
use jacc.Generator.Emit.{Code}

-- `height` bytes are on the stack, and the word that was pushed at the height `d` is `cells d`. EBP
-- is the height of the frame.
pub record Frame : Type 0 where
  pub height : ℕ
  pub ebp : ℕ
  pub cells : ℕ → ℕ

unfoldable pub names : Register → Operand → Bool
unfolding reg_code type_code
names r o = is_type o.type OperandType.register && is_reg o.reg r

-- `other` is what the other operands hold.
module _ (other : Operand → ℕ) where
  unfoldable pub pushed : Operand → Frame → ℕ
  unfolding names
  pushed o f = if names Register.ebp o then f.ebp else other o

  -- A command that neither pushes nor pops, and has neither ESP nor EBP as its destination, leaves
  -- the frame alone here.
  unfoldable pub step : Instruction → Command → Frame → Frame
  unfolding names pushed moves_esp
  step Instruction.push c f = record f {
    height = f.height + 4;
    cells = λ d. if d == f.height + 4 then pushed c.op0 f else f.cells d;
  }
  step Instruction.pop c f = record f {
    height = f.height - 4;
    ebp = if names Register.ebp c.op0 then f.cells f.height else f.ebp;
  }
  step Instruction.mov c f =
      if names Register.esp c.op0 && names Register.ebp c.op1
      then record f { height = f.ebp }
      else if names Register.ebp c.op0 && names Register.esp c.op1
      then record f { ebp = f.height }
      else f
  step Instruction.add c f = if moves_esp c then record f { height = f.height - c.op1.value } else f
  step Instruction.sub c f = if moves_esp c then record f { height = f.height + c.op1.value } else f
  step _ c f = f

  unfoldable pub run_frame : List Command → Frame → Frame
  unfolding step
  run_frame [] f = f
  run_frame (c ∷ cs) f = run_frame cs (step c.type c f)

  -- The frame that the first `ret` finds; none where there is no `ret`.
  unfoldable pub to_ret : List Command → Frame → Option Frame
  unfolding step
  to_ret [] f = none
  to_ret (c ∷ cs) f = elim c.type [ Instruction.ret ↦ some f | t ↦ to_ret cs (step t c f) ]

-- the text that marks a label
abbrev pub mark_text : (ℕ → Bytes) → Label → Bytes
mark_text decimal l = b'_' ∷ b'@' ∷ decimal l.id ++ b':' ∷ []

-- The commands behind the first text that is `mark`.
unfoldable pub from_mark : Bytes → List Command → List Command
from_mark mark [] = []
from_mark mark (c ∷ cs) =
    let rest = from_mark mark cs in if is_text c.type && bytes_eq c.text mark then cs else rest
  where
    is_text : Instruction → Bool
    is_text Instruction.text = true
    is_text _ = false

-- The commands that `f` emits in front of which there are none.
unfoldable pub commands_of : (Code → Code) → List Command
commands_of f =
    let empty : Code = record {
      opcode_list = [];
      data_list = [];
      label_counter = 0;
      labels = [];
      fault = false;
    } in
    (f empty).opcode_list
