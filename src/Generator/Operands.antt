-- ===== src/Generator/Operands.antt =====
-- src/generator.c: the operands. The source leaves the fields that a kind of operand has no use for
-- unset; the parameter `unset` says what they happen to hold.
use jacc.Common.{ℕ, int_mod, ◌-◌, if◌then◌else◌}
use jacc.Asm.{Register, OperandType, OperandSize, Label, RegOrLabel, Operand}
use jacc.Asm.Codes.{is_type}

-- The variables `eax`, `esp` and so on, which the macro REGISTER defines.
unfoldable pub reg : Register → Operand
reg r =
    let nothing : RegOrLabel = record {
      type = OperandType.register;
      reg = Register.none_reg;
      label = record { id = 0; name = 0 };
    } in
    record {
      type = OperandType.register;
      reg = r;
      label = record { id = 0; name = 0 };
      memory = record {
        base = nothing;
        index = nothing;
        size = OperandSize.dword;
        offset = 0;
        scale = 0;
      };
      value = 0;
    }

unfoldable pub size_spec : OperandSize → Operand → Operand
size_spec size op =
    if is_type op.type OperandType.memory
    then record op { memory = record (op.memory) { size = size } }
    else op

unfoldable pub dword : Operand → Operand
unfolding size_spec
dword subop = size_spec OperandSize.dword subop

unfoldable pub qword : Operand → Operand
unfolding size_spec
qword subop = size_spec OperandSize.qword subop

module _ (unset : Operand) where
  unfoldable pub constant : ℕ → Operand
  constant value = record unset { type = OperandType.constant; value = value }

  unfoldable pub label : Label → Operand
  label l = record unset { type = OperandType.label; label = l }

  -- `name` is the address of the text; the id is -1.
  unfoldable pub text_label : ℕ → Operand
  text_label name = record unset {
    type = OperandType.label;
    label = record { id = int_mod - 1; name = name };
  }

  -- The two assertions on the types of `base` and `index` are left out.
  unfoldable pub memory : Operand → ℕ → Operand → Operand
  memory base offset index = record unset {
    type = OperandType.memory;
    memory = record {
      base = record { type = base.type; reg = base.reg; label = base.label };
      index = record { type = index.type; reg = index.reg; label = index.label };
      size = OperandSize.dword;
      offset = offset;
      scale = 1;
    };
  }

  unfoldable pub deref : Operand → Operand
  unfolding memory reg
  deref base = memory base 0 (reg Register.none_reg)
