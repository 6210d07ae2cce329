-- ===== src/Generator/Cases.antt =====
-- src/generator.c: the cases of `generate_expr`. An operand comes as what `generate_expr` does for it
-- (`left`, `right`), and as its lvalue (`address`).
use jacc.Common.{ℕ, Option, some, [], ◌∷◌, Bytes, Bool, true, ◌==◌, if◌then◌else◌, ◌>>=◌}
use jacc.Asm.{Instruction, Operand}
use jacc.Ast.{NodeType, Pointer}
use jacc.Ast.Info.{repr}
use jacc.Types.Symbols.{load, tests, is_pointer, is_ptr_type, sym_int, sym_double}
use jacc.Types.Resolve.{resolve_alias}
use jacc.Types.Compatible.{is_compatible_types}
use jacc.Generator.Operands.{constant, label, deref, dword, qword}
use jacc.Generator.Emit.{Code, run}
use jacc.Generator.Operators.{eax, ebx, esp, when, generate_unary_int_op, generate_binary_int_op}
use jacc.Generator.Doubles.{generate_unary_double_op, generate_binary_double_op}
use jacc.Generator.Data.{emit_data_array}
use jacc.Generator.Settings.{Settings, put, blank_operand, stop, reading, push_typed}
use jacc.Generator.Lvalues.{lea, generate_lvalue}
use jacc.Generator.Statements.{unknown_statement, unknown_node}

-- The characters in front of the first zero, as `strlen` counts them, and the zero.
unfoldable pub c_string : Bytes → Bytes
c_string [] = 0 ∷ []
c_string (x ∷ xs) = let rest = x ∷ c_string xs in if x == 0 then 0 ∷ [] else rest

module _ (g : Settings) where
  -- The nodes without operands that are no values.
  unfoldable pub leaf_code : NodeType → Code → Code
  unfolding unknown_statement unknown_node stop
  leaf_code NodeType.nop_node = run []
  leaf_code NodeType.break_node = unknown_statement g (repr NodeType.break_node)
  leaf_code NodeType.continue_node = unknown_statement g (repr NodeType.continue_node)
  leaf_code NodeType.unknown_node = unknown_node g (repr NodeType.unknown_node)
  leaf_code _ = stop

  unfoldable pub text_code : NodeType → Bytes → Bool → Code → Code
  unfolding emit_data_array c_string label unknown_node stop
  text_code NodeType.string_node str ret c =
      let (str_label, c') = emit_data_array g.decimal g.blank (c_string str) c in
      when g.blank g.decimal ret (put g Instruction.push (label (blank_operand g) str_label ∷ []))
        c'
  text_code NodeType.ident_node str ret c = unknown_node g (repr NodeType.ident_node) c
  text_code _ str ret c = stop c

  unfoldable pub double_code : Pointer → Bytes → Bool → Code → Code
  unfolding emit_data_array push_typed label deref
  double_code type value ret c =
      let (data_label, c') = emit_data_array g.decimal g.blank value c in
      push_typed g (deref (blank_operand g) (label (blank_operand g) data_label)) type ret c'

  -- The case NT_DEREFERENCE.
  unfoldable pub dereference_code : Pointer → (Bool → Code → Code) → Bool → Code → Code
  unfolding push_typed deref dword
  dereference_code type left ret = run (
      left true
      ∷ put g Instruction.pop (eax ∷ [])
      ∷ push_typed g (dword (deref (blank_operand g) eax)) type ret
      ∷ [])

  unfoldable pub reference_code : (Code → Operand × Code) → Bool → Code → Code
  unfolding lea
  reference_code address ret =
      run (lea g address ∷ when g.blank g.decimal ret (put g Instruction.push (eax ∷ [])) ∷ [])

  -- The case NT_MEMBER; `address` is the lvalue of the node itself.
  unfoldable pub member_code : Pointer → (Code → Operand × Code) → Bool → Code → Code
  unfolding lea push_typed deref
  member_code type address ret =
      run (lea g address ∷ push_typed g (deref (blank_operand g) eax) type ret ∷ [])

  -- `is_compatible_types(s0, &sym_int) || s0->type == ST_POINTER`
  unfoldable pub acts_as_int : ℕ → Option Bool
  unfolding tests is_pointer
  acts_as_int s0 = do
    int ← is_compatible_types g.fuel g.store (some s0) (some sym_int)
    let pointer = tests g.store is_pointer (some s0)
    if int then some true else pointer

  -- The case NC_UNARY; an operand of another type is passed over.
  unfoldable pub unary_operator :
      NodeType → Pointer → (Bool → Code → Code) → (Code → Operand × Code) → Bool → Code → Code
  unfolding acts_as_int generate_unary_double_op generate_unary_int_op generate_lvalue repr
  unary_operator t operand_type left address ret =
      reading (resolve_alias g.store operand_type) (λ s0.
        if s0 == sym_double
        then generate_unary_double_op g.blank g.decimal t (left ret) (generate_lvalue g address)
            (repr t) ret
        else reading (acts_as_int s0) (λ int.
          if int
          then generate_unary_int_op g.blank g.decimal t (left true) (generate_lvalue g address)
              (repr t) ret
          else run []))

  -- The case NC_BINARY; an operand of another type falls through to the statements.
  unfoldable pub binary_operator :
      NodeType → Pointer → (Bool → Code → Code) → (Bool → Code → Code) → Bool → Code → Code
  unfolding acts_as_int generate_binary_double_op generate_binary_int_op unknown_statement repr
  binary_operator t operand_type left right ret =
      reading (resolve_alias g.store operand_type) (λ s0.
        if s0 == sym_double
        then generate_binary_double_op g.blank g.decimal t (left true) (right true) (repr t) ret
        else reading (acts_as_int s0) (λ int.
          if int
          then generate_binary_int_op g.blank g.decimal t (left true) (right true) (repr t) ret
          else unknown_statement g (repr t)))

  -- The sum of a pointer or an array whose elements have `size` bytes and a number.
  unfoldable pub pointer_sum : ℕ → (Bool → Code → Code) → (Bool → Code → Code) → Bool → Code → Code
  unfolding constant
  pointer_sum size left right ret = run (
      left true
      ∷ right true
      ∷ put g Instruction.pop (eax ∷ [])
      ∷ put g Instruction.mov (ebx ∷ constant (blank_operand g) size ∷ [])
      ∷ put g Instruction.imul (ebx ∷ [])
      ∷ put g Instruction.pop (ebx ∷ [])
      ∷ put g Instruction.add (eax ∷ ebx ∷ [])
      ∷ when g.blank g.decimal ret (put g Instruction.push (eax ∷ []))
      ∷ [])

  -- The case NT_ADD, which leaves the sums of numbers to the case NC_BINARY.
  unfoldable pub add_code :
      Pointer → (Bool → Code → Code) → (Bool → Code → Code) → Bool → Code → Code
  unfolding tests load is_ptr_type pointer_sum binary_operator
  add_code operand_type left right ret = reading (resolve_alias g.store operand_type) (λ s1.
      reading (tests g.store is_ptr_type (some s1)) (λ pointer.
        if pointer
        then reading (load g.store (some s1) >>= λ s. load g.store s.base_type)
            (λ base. pointer_sum base.size left right ret)
        else binary_operator NodeType.add_node operand_type left right ret))

  unfoldable pub assign_double : (Code → Operand × Code) → (Bool → Code → Code) → Bool → Code → Code
  unfolding generate_lvalue deref qword constant
  assign_double address right ret = run (
      right true
      ∷ put g Instruction.fld (qword (deref (blank_operand g) esp) ∷ [])
      ∷ generate_lvalue g address
      ∷ put g Instruction.pop (eax ∷ [])
      ∷ (if ret
          then put g Instruction.fst (qword (deref (blank_operand g) esp) ∷ [])
          else put g Instruction.add (esp ∷ constant (blank_operand g) 8 ∷ []))
      ∷ put g Instruction.fstp (qword (deref (blank_operand g) eax) ∷ [])
      ∷ [])

  unfoldable pub assign_word : (Code → Operand × Code) → (Bool → Code → Code) → Bool → Code → Code
  unfolding generate_lvalue deref
  assign_word address right ret = run (
      generate_lvalue g address
      ∷ right true
      ∷ put g Instruction.pop (ebx ∷ [])
      ∷ put g Instruction.pop (eax ∷ [])
      ∷ put g Instruction.mov (deref (blank_operand g) eax ∷ ebx ∷ [])
      ∷ when g.blank g.decimal ret (put g Instruction.push (ebx ∷ []))
      ∷ [])

  -- The case NT_ASSIGN.
  unfoldable pub assign_code :
      Pointer → (Code → Operand × Code) → (Bool → Code → Code) → Bool → Code → Code
  unfolding assign_double assign_word
  assign_code operand_type address right ret = reading (resolve_alias g.store operand_type) (λ s0.
      if s0 == sym_double then assign_double address right ret else assign_word address right ret)
