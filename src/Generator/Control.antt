-- ===== src/Generator/Control.antt =====
-- src/generator.c: the order in which the code of a statement runs the code of its parts. A part is
-- a text that stands for its commands; it is no label.
use jacc.Common.{
  bytes_eq, ℕ, zero, suc, List, [], ◌∷◌, Bytes, Bool, false, not, ◌==◌, ◌&&◌, if◌then◌else◌,
}
use jacc.Asm.{Register, Instruction, Command}
use jacc.Generator.Frame.{mark_text, from_mark, names}

unfoldable pub is_mark : Bytes → Bool
is_mark (x ∷ y ∷ t) = x == b'_' && y == b'@'
is_mark t = false

-- `rest` is left to run, `values` are the values that the condition will have (true for one that
-- is not 0), `stack` has those that have been pushed, `eax` is the one in EAX, and `done` has the
-- parts that have run, the last one first.
pub record Control : Type 0 where
  pub rest : List Command
  pub values : List Bool
  pub stack : List Bool
  pub eax : Bool
  pub zero_flag : Bool
  pub done : List Bytes

-- The part `condition` pushes its value, the others leave the stack alone.
module _ (decimal : ℕ → Bytes) (program : List Command) (condition : Bytes) where
  unfoldable pub push_condition : Control → Control
  push_condition s = elim s.values [
    | [] ↦ s
    | v ∷ vs ↦ record s { values = vs; stack = v ∷ s.stack }
  ]

  unfoldable pub run_part : Bytes → Control → Control
  unfolding push_condition
  run_part t s =
      let after = if bytes_eq t condition then push_condition s else s in
      record after { done = t ∷ after.done }

  unfoldable pub to_label : Command → Control → Control
  unfolding from_mark
  to_label c s = record s { rest = from_mark (mark_text decimal c.op0.label) program }

  unfoldable pub next : Instruction → Command → Control → Control
  unfolding to_label is_mark run_part names
  next Instruction.text c s = if is_mark c.text then s else run_part c.text s
  next Instruction.pop c s = elim s.stack [
    | [] ↦ s
    | v ∷ vs ↦ record s { stack = vs; eax = if names Register.eax c.op0 then v else s.eax }
  ]
  next Instruction.test c s =
      if names Register.eax c.op0 && names Register.eax c.op1
      then record s { zero_flag = not s.eax }
      else s
  next Instruction.jmp c s = to_label c s
  next Instruction.jz c s = if s.zero_flag then to_label c s else s
  next Instruction.jnz c s = if s.zero_flag then s else to_label c s
  next _ c s = s

  -- One command.
  unfoldable pub go : Control → Control
  unfolding next
  go s = elim s.rest [ [] ↦ s | c ∷ cs ↦ next c.type c (record s { rest = cs }) ]

  -- So many commands.
  unfoldable pub runs : ℕ → Control → Control
  unfolding go
  runs zero s = s
  runs (suc n) s = runs n (go s)
