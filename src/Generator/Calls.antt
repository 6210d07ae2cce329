-- ===== src/Generator/Calls.antt =====
-- src/generator.c: the code of a call, and of the casts.
use jacc.Common.{
  ℕ, Option, some, [], ◌∷◌, Bool, true, false, ◌&&◌, ◌==◌, if◌then◌else◌, ◌>>=◌, add_int,
}
use jacc.Asm.{Instruction, Register, Operand}
use jacc.Ast.{Pointer, Nodes, nil, cons}
use jacc.Ast.Info.{type_sym}
use jacc.Types.Symbols.{
  Symbol, load, tests, has_flag, is_pointer, is_ptr_type, sf_extern, sym_int, sym_double,
}
use jacc.Types.Resolve.{resolve_alias}
use jacc.Types.Compatible.{is_compatible_types}
use jacc.Types.Arithmetic.{is_sym}
use jacc.Generator.Operands.{reg, constant, text_label, memory, deref, dword, qword}
use jacc.Generator.Emit.{Code, run}
use jacc.Generator.Operators.{eax, esp, st0, when}
use jacc.Generator.Settings.{Settings, put, blank_operand, reading}

module _ (g : Settings) where
  abbrev bytes_of : ℕ → Operand
  bytes_of n = constant (blank_operand g) n

  abbrev pub top : Operand
  top = deref (blank_operand g) esp

  -- The sum of the sizes of the types of the arguments.
  unfoldable pub arguments_size : Nodes → Option ℕ
  unfolding type_sym load
  arguments_size nil = some 0
  arguments_size (cons n ns) = do
    let rest = arguments_size ns
    s ← load g.store (type_sym n)
    size ← rest
    some (add_int size s.size)

  -- The operand of the call.
  unfoldable pub target : Symbol → Operand
  unfolding text_label deref has_flag
  target f =
      let t = text_label (blank_operand g) (g.address_of f.name) in
      if has_flag f.flags sf_extern then deref (blank_operand g) t else t

  -- `is_compatible_types(type, &sym_int) || type->type == ST_POINTER`
  unfoldable pub is_word : Pointer → Option Bool
  unfolding load is_pointer
  is_word type = do
    int ← is_compatible_types g.fuel g.store type (some sym_int)
    let pointer = (do s ← load g.store type; some (is_pointer s.type))
    if int then some true else pointer

  -- What is done with the result of the function.
  unfoldable pub call_result : Pointer → Bool → Bool → Code → Code
  unfolding is_sym constant deref qword
  call_result type true ret = if ret then put g Instruction.push (eax ∷ []) else run []
  call_result type false ret =
      if is_sym type sym_double
      then if ret
        then run (
            put g Instruction.sub (esp ∷ bytes_of 8 ∷ [])
            ∷ put g Instruction.fstp (qword top ∷ [])
            ∷ [])
        else put g Instruction.ffreep (st0 ∷ [])
      else run []

  -- The call of the function `f` with `size` bytes of arguments, which `arguments` pushes.
  unfoldable pub call_code : Symbol → ℕ → (Code → Code) → Pointer → Bool → Code → Code
  unfolding target constant is_word call_result
  call_code f size arguments type ret = run (
      arguments
      ∷ put g Instruction.call (target f ∷ [])
      ∷ put g Instruction.add (esp ∷ bytes_of size ∷ [])
      ∷ reading (is_word type) (λ word. call_result type word ret)
      ∷ [])

  -- The case NT_CALL; `function` is the type of the first operand.
  unfoldable pub generate_call : Pointer → Nodes → (Code → Code) → Pointer → Bool → Code → Code
  unfolding load arguments_size call_code
  generate_call function arguments push_arguments type ret =
      reading (arguments_size arguments)
        (λ size. reading (load g.store function) (λ f. call_code f size push_arguments type ret))

  -- `is_compatible_types(t, &sym_int) || is_ptr_type(t)`
  unfoldable pub is_scalar_word : ℕ → Option Bool
  unfolding tests is_ptr_type
  is_scalar_word t = do
    int ← is_compatible_types g.fuel g.store (some t) (some sym_int)
    let pointer = tests g.store is_ptr_type (some t)
    if int then some true else pointer

  unfoldable pub int_to_double : Code → Code
  unfolding dword deref qword constant
  int_to_double = run (
      put g Instruction.fild (dword top ∷ [])
      ∷ put g Instruction.sub (esp ∷ bytes_of 4 ∷ [])
      ∷ put g Instruction.fstp (qword top ∷ [])
      ∷ [])

  unfoldable pub double_to_int : Code → Code
  unfolding dword deref qword constant memory reg
  double_to_int = run (
      put g Instruction.fld (qword top ∷ [])
      ∷ put g Instruction.fisttp
          (dword (memory (blank_operand g) esp 4 (reg Register.none_reg)) ∷ [])
      ∷ put g Instruction.add (esp ∷ bytes_of 4 ∷ [])
      ∷ [])

  -- The conversion of a wanted value of the type `s0` to `ret_type`.
  unfoldable pub convert : ℕ → ℕ → Code → Code
  unfolding is_scalar_word int_to_double double_to_int
  convert s0 ret_type = reading (is_scalar_word s0) (λ word.
      if word && ret_type == sym_double
      then int_to_double
      else if s0 == sym_double
      then reading (is_scalar_word ret_type) (λ to_word. if to_word then double_to_int else run [])
      else run [])

  unfoldable pub generate_cast : Pointer → Pointer → (Bool → Code → Code) → Bool → Code → Code
  unfolding convert
  generate_cast type operand_type operand ret = reading (resolve_alias g.store type) (λ ret_type.
      reading (resolve_alias g.store operand_type)
        (λ s0. run (operand ret ∷ when g.blank g.decimal ret (convert s0 ret_type) ∷ [])))
