-- ===== src/Generator/Doubles.antt =====
-- src/generator.c: the code of the operators on double. The arguments are those of Operators.
use jacc.Common.{ℕ, List, [], ◌∷◌, ◌++◌, Bytes, Bool, if◌then◌else◌}
use jacc.Asm.{Instruction, Register, Operand, Command}
use jacc.Generator.Operands.{reg, constant, memory, deref, qword}
use jacc.Ast.{NodeType}
use jacc.Generator.Emit.{Code, unset, emit, emit_text, run}
use jacc.Generator.Operators.{eax, ecx, esp, cl, st0, st1, unknown_unary, unknown_binary}

module _ (blank : Command) (decimal : ℕ → Bytes) where
  abbrev do_emit : Instruction → List Operand → Code → Code
  do_emit cmd args = emit blank decimal cmd args

  -- `qword(deref(base))`
  abbrev at : Operand → Operand
  at base = qword (deref (unset blank decimal) base)

  abbrev number : ℕ → Operand
  number n = constant (unset blank decimal) n

  unfoldable pub generate_double_cmp : Instruction → Code → Code
  unfolding emit reg constant
  generate_double_cmp cmd = run (
      do_emit Instruction.add (esp ∷ number 8 ∷ [])
      ∷ do_emit Instruction.xor (ecx ∷ ecx ∷ [])
      ∷ do_emit Instruction.fcomip (st1 ∷ [])
      ∷ do_emit cmd (cl ∷ [])
      ∷ do_emit Instruction.push (ecx ∷ [])
      ∷ do_emit Instruction.ffreep (st0 ∷ [])
      ∷ [])

  -- The value at `address` plus or minus one, before it is stored.
  unfoldable pub load_and_step : Instruction → (Code → Code) → List (Code → Code)
  unfolding emit reg deref qword
  load_and_step cmd address =
      address
      ∷ do_emit Instruction.pop (eax ∷ [])
      ∷ do_emit Instruction.fld (at eax ∷ [])
      ∷ do_emit Instruction.fld1 []
      ∷ do_emit cmd []
      ∷ []

  unfoldable pub prefix_double : Instruction → (Code → Code) → Bool → Code → Code
  unfolding emit reg deref qword constant load_and_step
  prefix_double cmd address ret = run (
      load_and_step cmd address
      ++ (if ret
          then do_emit Instruction.fst (at eax ∷ [])
            ∷ do_emit Instruction.sub (esp ∷ number 8 ∷ [])
            ∷ do_emit Instruction.fstp (at esp ∷ [])
            ∷ []
          else do_emit Instruction.fstp (at eax ∷ []) ∷ []))

  unfoldable pub postfix_double : Instruction → (Code → Code) → Bool → Code → Code
  unfolding emit reg deref qword constant
  postfix_double cmd address ret = run (
      address
        ∷ do_emit Instruction.pop (eax ∷ [])
        ∷ do_emit Instruction.fld (at eax ∷ [])
        ∷ (if ret
            then do_emit Instruction.sub (esp ∷ number 8 ∷ [])
              ∷ do_emit Instruction.fst (at esp ∷ [])
              ∷ []
            else [])
      ++ do_emit Instruction.fld1 [] ∷ do_emit cmd [] ∷ do_emit Instruction.fstp (at eax ∷ []) ∷ [])

  -- `operand` is `generate_expr(expr->ops[0], ret)`.
  unfoldable pub generate_unary_double_op :
      NodeType → (Code → Code) → (Code → Code) → Bytes → Bool → Code → Code
  unfolding emit reg deref qword constant memory prefix_double postfix_double emit_text
  generate_unary_double_op NodeType.logical_negation_node operand address repr ret = run (
      operand
      ∷ do_emit Instruction.fld (at esp ∷ [])
      ∷ do_emit Instruction.fldz []
      ∷ do_emit Instruction.xor (ecx ∷ ecx ∷ [])
      ∷ do_emit Instruction.fcomip (st1 ∷ [])
      ∷ do_emit Instruction.sete (cl ∷ [])
      ∷ do_emit Instruction.ffreep (st0 ∷ [])
      ∷ (if ret
          then do_emit Instruction.mov
              (memory (unset blank decimal) esp 4 (reg Register.none_reg) ∷ ecx ∷ [])
            ∷ do_emit Instruction.add (esp ∷ number 4 ∷ [])
            ∷ []
          else do_emit Instruction.add (esp ∷ number 8 ∷ []) ∷ []))
  generate_unary_double_op NodeType.negation_node operand address repr ret = run (
      operand
      ∷ (if ret
          then do_emit Instruction.fld (at esp ∷ [])
            ∷ do_emit Instruction.fchs []
            ∷ do_emit Instruction.fstp (at esp ∷ [])
            ∷ []
          else do_emit Instruction.add (esp ∷ number 8 ∷ []) ∷ []))
  generate_unary_double_op NodeType.identity_node operand address repr ret =
      run (operand ∷ (if ret then [] else do_emit Instruction.add (esp ∷ number 8 ∷ []) ∷ []))
  generate_unary_double_op NodeType.prefix_inc_node operand address repr ret =
      prefix_double Instruction.faddp address ret
  generate_unary_double_op NodeType.prefix_dec_node operand address repr ret =
      prefix_double Instruction.fsubp address ret
  generate_unary_double_op NodeType.postfix_inc_node operand address repr ret =
      postfix_double Instruction.faddp address ret
  generate_unary_double_op NodeType.postfix_dec_node operand address repr ret =
      postfix_double Instruction.fsubp address ret
  generate_unary_double_op _ operand address repr ret =
      emit_text blank decimal (unknown_unary ++ repr)

  -- The end of `generate_binary_double_op`, behind the switch.
  unfoldable pub end_double : Bool → Code → Code
  unfolding emit reg deref qword
  end_double ret = run (
      (if ret then do_emit Instruction.fstp (at esp ∷ []) ∷ [] else [])
      ++ do_emit Instruction.ffreep (st0 ∷ []) ∷ [])

  -- The switch and the end; a comparison returns.
  unfoldable pub binary_double_case : NodeType → Bytes → Bool → Code → Code
  unfolding emit reg emit_text generate_double_cmp end_double
  binary_double_case NodeType.add_node repr ret =
      run (do_emit Instruction.faddp [] ∷ end_double ret ∷ [])
  binary_double_case NodeType.sub_node repr ret =
      run (do_emit Instruction.fsubp [] ∷ end_double ret ∷ [])
  binary_double_case NodeType.mul_node repr ret =
      run (do_emit Instruction.fmulp [] ∷ end_double ret ∷ [])
  binary_double_case NodeType.div_node repr ret =
      run (do_emit Instruction.fdivp [] ∷ end_double ret ∷ [])
  binary_double_case NodeType.eq_node repr ret = generate_double_cmp Instruction.sete
  binary_double_case NodeType.ne_node repr ret = generate_double_cmp Instruction.setne
  binary_double_case NodeType.le_node repr ret = generate_double_cmp Instruction.setae
  binary_double_case NodeType.lt_node repr ret = generate_double_cmp Instruction.seta
  binary_double_case NodeType.ge_node repr ret = generate_double_cmp Instruction.setbe
  binary_double_case NodeType.gt_node repr ret = generate_double_cmp Instruction.setb
  binary_double_case _ repr ret =
      run (emit_text blank decimal (unknown_binary ++ repr) ∷ end_double ret ∷ [])

  unfoldable pub generate_binary_double_op :
      NodeType → (Code → Code) → (Code → Code) → Bytes → Bool → Code → Code
  unfolding emit reg deref qword constant binary_double_case
  generate_binary_double_op type left right repr ret = run (
      left
      ∷ do_emit Instruction.fld (at esp ∷ [])
      ∷ right
      ∷ do_emit Instruction.fld (at esp ∷ [])
      ∷ do_emit Instruction.add (esp ∷ number (if ret then 8 else 16) ∷ [])
      ∷ binary_double_case type repr ret
      ∷ [])
