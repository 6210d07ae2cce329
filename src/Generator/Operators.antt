-- ===== src/Generator/Operators.antt =====
-- src/generator.c: the code of the operators. `generate_expr` and `generate_lvalue` of an operand
-- come as functions on the code: `left`, `right` and `address`. `repr` is `parser_node_info(expr)->repr`.
use jacc.Common.{ℕ, List, [], ◌∷◌, ◌++◌, Bytes, bytes, Bool, if◌then◌else◌}
use jacc.Asm.{Instruction, Register, Operand, Command}
use jacc.Generator.Operands.{reg, constant, label, deref, dword}
use jacc.Ast.{NodeType}
use jacc.Generator.Emit.{Code, gen_label, unset, emit, emit_text, emit_label, run}

abbrev pub eax : Operand
eax = reg Register.eax

abbrev pub ebx : Operand
ebx = reg Register.ebx

abbrev pub ecx : Operand
ecx = reg Register.ecx

abbrev pub edx : Operand
edx = reg Register.edx

abbrev pub esp : Operand
esp = reg Register.esp

abbrev pub cl : Operand
cl = reg Register.cl

abbrev pub st0 : Operand
st0 = reg Register.st0

abbrev pub st1 : Operand
st1 = reg Register.st1

abbrev pub unknown_unary : Bytes
unknown_unary = bytes "; unknown unary node "

abbrev pub unknown_binary : Bytes
unknown_binary = bytes "; unknown binary node "

module _ (blank : Command) (decimal : ℕ → Bytes) where
  -- `[eax]`, `[ebx]` and `[esp]` with a size
  abbrev at : (Operand → Operand) → Operand → Operand
  at size base = size (deref (unset blank decimal) base)

  abbrev do_emit : Instruction → List Operand → Code → Code
  do_emit cmd args = emit blank decimal cmd args

  abbrev number : ℕ → Operand
  number n = constant (unset blank decimal) n

  -- `if (ret) f`
  abbrev pub when : Bool → (Code → Code) → Code → Code
  when b f c = if b then f c else c

  unfoldable pub generate_int_cmp : Instruction → Code → Code
  unfolding emit reg
  generate_int_cmp cmd = run (
      do_emit Instruction.xor (ecx ∷ ecx ∷ [])
      ∷ do_emit Instruction.cmp (eax ∷ ebx ∷ [])
      ∷ do_emit cmd (cl ∷ [])
      ∷ do_emit Instruction.mov (eax ∷ ecx ∷ [])
      ∷ [])

  unfoldable pub generate_int_logical_op : Instruction → Code → Code
  unfolding emit reg gen_label emit_label label
  generate_int_logical_op cmd c =
      let lbl = (gen_label c).0 in
      run
        (do_emit Instruction.xor (ecx ∷ ecx ∷ [])
          ∷ do_emit Instruction.test (eax ∷ eax ∷ [])
          ∷ do_emit cmd (label (unset blank decimal) lbl ∷ [])
          ∷ do_emit Instruction.test (ebx ∷ ebx ∷ [])
          ∷ emit_label blank decimal lbl
          ∷ do_emit Instruction.setnz (cl ∷ [])
          ∷ do_emit Instruction.mov (eax ∷ ecx ∷ [])
          ∷ [])
        ((gen_label c).1)

  -- The switch of `generate_unary_int_op`.
  unfoldable pub unary_int_case : NodeType → (Code → Code) → Bytes → Bool → Code → Code
  unfolding emit reg deref dword emit_text
  unary_int_case NodeType.logical_negation_node address repr ret = run (
      do_emit Instruction.xor (ecx ∷ ecx ∷ [])
      ∷ do_emit Instruction.test (eax ∷ eax ∷ [])
      ∷ do_emit Instruction.setz (cl ∷ [])
      ∷ do_emit Instruction.mov (eax ∷ ecx ∷ [])
      ∷ [])
  unary_int_case NodeType.complement_node address repr ret = do_emit Instruction.not (eax ∷ [])
  unary_int_case NodeType.negation_node address repr ret = do_emit Instruction.neg (eax ∷ [])
  unary_int_case NodeType.identity_node address repr ret = run []
  unary_int_case NodeType.prefix_inc_node address repr ret = run (
      address
      ∷ do_emit Instruction.pop (ebx ∷ [])
      ∷ do_emit Instruction.inc (at dword ebx ∷ [])
      ∷ when ret (do_emit Instruction.mov (eax ∷ at dword ebx ∷ []))
      ∷ [])
  unary_int_case NodeType.prefix_dec_node address repr ret = run (
      address
      ∷ do_emit Instruction.pop (ebx ∷ [])
      ∷ do_emit Instruction.dec (at dword ebx ∷ [])
      ∷ when ret (do_emit Instruction.mov (eax ∷ at dword ebx ∷ []))
      ∷ [])
  unary_int_case NodeType.postfix_inc_node address repr ret = run (
      address
      ∷ do_emit Instruction.pop (ebx ∷ [])
      ∷ when ret (do_emit Instruction.mov (eax ∷ at dword ebx ∷ []))
      ∷ do_emit Instruction.inc (at dword ebx ∷ [])
      ∷ [])
  unary_int_case NodeType.postfix_dec_node address repr ret = run (
      address
      ∷ do_emit Instruction.pop (ebx ∷ [])
      ∷ when ret (do_emit Instruction.mov (eax ∷ at dword ebx ∷ []))
      ∷ do_emit Instruction.dec (at dword ebx ∷ [])
      ∷ [])
  unary_int_case _ address repr ret = emit_text blank decimal (unknown_unary ++ repr)

  unfoldable pub generate_unary_int_op :
      NodeType → (Code → Code) → (Code → Code) → Bytes → Bool → Code → Code
  unfolding emit reg unary_int_case
  generate_unary_int_op type left address repr ret = run (
      left
      ∷ do_emit Instruction.pop (eax ∷ [])
      ∷ unary_int_case type address repr ret
      ∷ when ret (do_emit Instruction.push (eax ∷ []))
      ∷ [])

  -- The switch of `generate_binary_int_op`.
  unfoldable pub binary_int_case : NodeType → Bytes → Code → Code
  unfolding emit reg emit_text generate_int_cmp generate_int_logical_op
  binary_int_case NodeType.add_node repr = do_emit Instruction.add (eax ∷ ebx ∷ [])
  binary_int_case NodeType.sub_node repr = do_emit Instruction.sub (eax ∷ ebx ∷ [])
  binary_int_case NodeType.mul_node repr = do_emit Instruction.imul (ebx ∷ [])
  binary_int_case NodeType.lshift_node repr =
      run (do_emit Instruction.mov (ecx ∷ ebx ∷ []) ∷ do_emit Instruction.sal (eax ∷ cl ∷ []) ∷ [])
  binary_int_case NodeType.rshift_node repr =
      run (do_emit Instruction.mov (ecx ∷ ebx ∷ []) ∷ do_emit Instruction.sar (eax ∷ cl ∷ []) ∷ [])
  binary_int_case NodeType.div_node repr =
      run (do_emit Instruction.cdq [] ∷ do_emit Instruction.idiv (ebx ∷ []) ∷ [])
  binary_int_case NodeType.mod_node repr = run (
      do_emit Instruction.cdq []
      ∷ do_emit Instruction.idiv (ebx ∷ [])
      ∷ do_emit Instruction.mov (eax ∷ edx ∷ [])
      ∷ [])
  binary_int_case NodeType.eq_node repr = generate_int_cmp Instruction.sete
  binary_int_case NodeType.ne_node repr = generate_int_cmp Instruction.setne
  binary_int_case NodeType.le_node repr = generate_int_cmp Instruction.setle
  binary_int_case NodeType.lt_node repr = generate_int_cmp Instruction.setl
  binary_int_case NodeType.ge_node repr = generate_int_cmp Instruction.setge
  binary_int_case NodeType.gt_node repr = generate_int_cmp Instruction.setg
  binary_int_case NodeType.bit_xor_node repr = do_emit Instruction.xor (eax ∷ ebx ∷ [])
  binary_int_case NodeType.bit_or_node repr = do_emit Instruction.or (eax ∷ ebx ∷ [])
  binary_int_case NodeType.bit_and_node repr = do_emit Instruction.and (eax ∷ ebx ∷ [])
  binary_int_case NodeType.and_node repr = generate_int_logical_op Instruction.jz
  binary_int_case NodeType.or_node repr = generate_int_logical_op Instruction.jnz
  binary_int_case _ repr = emit_text blank decimal (unknown_binary ++ repr)

  unfoldable pub generate_binary_int_op :
      NodeType → (Code → Code) → (Code → Code) → Bytes → Bool → Code → Code
  unfolding emit reg binary_int_case
  generate_binary_int_op type left right repr ret = run (
      left
      ∷ right
      ∷ do_emit Instruction.pop (ebx ∷ [])
      ∷ do_emit Instruction.pop (eax ∷ [])
      ∷ binary_int_case type repr
      ∷ when ret (do_emit Instruction.push (eax ∷ []))
      ∷ [])
