-- ===== src/Generator/Emit.antt =====
-- src/generator.c: the code that is being generated, and the functions that add to it.
use jacc.Common.{ℕ, zero, suc, List, [], ◌∷◌, ◌++◌, Bytes, Bool, if◌then◌else◌, add_int}
use jacc.Asm.{Instruction, Register, Label, Operand, Command}
use jacc.Asm.Instructions.{op_count}
use jacc.Generator.Operands.{reg, constant, deref, dword, qword}

-- `cur_code` and `label_counter`, and the field `label` of each global variable that has got one, by
-- the variable's address. The two lists stand for their contents, without the room that
-- `add_opcode` keeps at their ends. After a read through NULL, a comparison of types that does not
-- end or an assertion that fails, `fault` is true, and the rest means nothing.
pub record Code : Type 0 where
  pub opcode_list : List Command
  pub data_list : List Command
  pub label_counter : ℕ
  pub labels : List (ℕ × Label)
  pub fault : Bool

unfoldable pub add_opcode : Command → List Command → List Command
add_opcode opcode list = list ++ opcode ∷ []

-- The loop of `emit` over the first `n` operands of `args`; there are at most two.
unfoldable pub fill_ops : ℕ → List Operand → Command → Command
fill_ops (suc zero) (a ∷ args) c = record c { op0 = a }
fill_ops (suc (suc n)) (a ∷ b ∷ args) c = record c { op0 = a; op1 = b }
fill_ops _ _ c = c

unfoldable pub gen_label : Code → Label × Code
gen_label c =
    let id = add_int (c.label_counter) 1 in
    (record { id = id; name = 0 }, record c { label_counter = id })

-- `blank` has what the fields of a command hold that nothing was written to, and `decimal` is the
-- text that `vsprintf` writes for "%d".
module _ (blank : Command) (decimal : ℕ → Bytes) where
  abbrev pub unset : Operand
  unset = blank.op0

  unfoldable pub emit : Instruction → List Operand → Code → Code
  unfolding add_opcode fill_ops op_count
  emit cmd args c = record c {
    opcode_list =
        add_opcode (fill_ops (op_count cmd) args (record blank { type = cmd })) (c.opcode_list);
  }

  -- `text` is the formatted text.
  unfoldable pub emit_text : Bytes → Code → Code
  unfolding add_opcode
  emit_text text c = record c {
    opcode_list =
        add_opcode (record blank { type = Instruction.text; text = text }) (c.opcode_list);
  }

  unfoldable pub emit_label : Label → Code → Code
  unfolding emit_text
  emit_label l c = emit_text (b'_' ∷ b'@' ∷ decimal (l.id) ++ b':' ∷ []) c

  unfoldable pub emit_data : Bytes → Code → Code
  unfolding add_opcode
  emit_data line c = record c {
    data_list = add_opcode (record blank { type = Instruction.text; text = line }) (c.data_list);
  }

  -- `is_double` tells whether the type is an alias of double.
  unfoldable pub push_value : Operand → Bool → Bool → Code → Code
  unfolding emit reg constant deref dword qword
  push_value op is_double ret c =
      if ret
      then if is_double
        then emit Instruction.fstp (qword (deref unset (reg Register.esp)) ∷ []) (
            emit Instruction.fld (qword op ∷ [])
              (emit Instruction.sub (reg Register.esp ∷ constant unset 8 ∷ []) c))
        else emit Instruction.push (dword op ∷ []) c
      else c

-- Statements one after another.
unfoldable pub run : List (Code → Code) → Code → Code
run [] c = c
run (f ∷ fs) c = run fs (f c)
