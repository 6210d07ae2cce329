-- ===== src/Generator/Tests.antt =====
-- src/generator.c: the theorems at operands that push EAX.
use jacc.Common.{ℕ, ◌+◌, [], ◌∷◌, Bytes, true, false, ◌≡◌, refl, some}
use jacc.Asm.{Instruction, Register, Command}
use jacc.Asm.Codes.{reg_code, type_code}
use jacc.Asm.Instructions.{op_count}
use jacc.Generator.Operands.{reg, constant}
use jacc.Ast.{NodeType}
use jacc.Generator.Emit.{Code, fill_ops, unset, emit, run}
use jacc.Generator.Operators.{generate_binary_int_op, eax}
use jacc.Generator.Doubles.{generate_binary_double_op}
use jacc.Generator.Balance.{moves_esp, height, height_after, Takes, emit-Takes}
use jacc.Generator.DoubleBalance.{is_comparison, double_comparison-Takes}

abbrev blank : Command
blank = record { type = Instruction.nop; op0 = reg Register.eax; op1 = reg Register.eax; text = [] }

abbrev decimal : ℕ → Bytes
decimal n = b'1' ∷ []

abbrev empty : Code
empty = record { opcode_list = []; data_list = []; label_counter = 0; labels = []; fault = false }

abbrev push_eax : Code → Code
push_eax = emit blank decimal Instruction.push (eax ∷ [])

push_eax-Takes : (k : ℕ) → Takes blank decimal push_eax k (k + 4)
unfolding height_after
push_eax-Takes k = emit-Takes blank decimal Instruction.push (eax ∷ []) k (k + 4) refl

less_height :
    height
      (generate_binary_int_op blank decimal NodeType.lt_node push_eax push_eax [] true
        empty).opcode_list
      0
    ≡ some 4
unfolding generate_binary_int_op run height
less_height = refl

-- sub esp, 8
abbrev push_double : Code → Code
push_double =
    emit blank decimal Instruction.sub (reg Register.esp ∷ constant (unset blank decimal) 8 ∷ [])

push_double-Takes : (k : ℕ) → Takes blank decimal push_double k (k + 8)
unfolding height_after moves_esp reg constant reg_code type_code fill_ops op_count
push_double-Takes k =
    emit-Takes blank decimal Instruction.sub
      (reg Register.esp ∷ constant (unset blank decimal) 8 ∷ []) k (k + 8) refl

double_comparison-Takes_example :
    Takes blank decimal
      (generate_binary_double_op blank decimal NodeType.lt_node push_double push_double [] true)
      4
      8
    × Takes blank decimal
        (generate_binary_double_op blank decimal NodeType.lt_node push_double push_double [] false)
        12
        8
unfolding is_comparison
double_comparison-Takes_example =
    double_comparison-Takes blank decimal NodeType.lt_node push_double push_double [] 4 refl
      push_double-Takes push_double-Takes
