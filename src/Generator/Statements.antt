-- ===== src/Generator/Statements.antt =====
-- src/generator.c: the cases of `generate_statement` and the conditional operator. The operands come
-- as what `generate_expr` does for them.
use jacc.Common.{some, [], ◌∷◌, ◌++◌, Bytes, bytes, Bool, true, false, if◌then◌else◌}
use jacc.Asm.{Instruction, Label}
use jacc.Ast.{Pointer}
use jacc.Types.Symbols.{sym_int, sym_double}
use jacc.Types.Compatible.{is_compatible_types}
use jacc.Types.Arithmetic.{is_sym}
use jacc.Generator.Operands.{constant, label, deref, qword}
use jacc.Generator.Emit.{Code, gen_label, emit_text, emit_label, run}
use jacc.Generator.Operators.{eax, esp}
use jacc.Generator.Settings.{Settings, put, blank_operand, reading}

module _ (g : Settings) where
  abbrev pub mark : Label → Code → Code
  mark l = emit_label g.blank g.decimal l

  abbrev pub jump : Instruction → Label → Code → Code
  jump cmd l = put g cmd (label (blank_operand g) l ∷ [])

  -- `label_t l1 = gen_label(), l2 = gen_label();` and the rest.
  abbrev pub with_labels : (Label → Label → Code → Code) → Code → Code
  with_labels f c = let (l1, c1) = gen_label c in let (l2, c2) = gen_label c1 in f l1 l2 c2

  -- The value of a condition is taken off the stack and tested; then the jump.
  unfoldable pub branch : (Bool → Code → Code) → Instruction → Label → Code → Code
  unfolding label
  branch condition cmd l = run (
      condition true
      ∷ put g Instruction.pop (eax ∷ [])
      ∷ put g Instruction.test (eax ∷ eax ∷ [])
      ∷ jump cmd l
      ∷ [])

  -- NT_IF, and NT_TERNARY: `ret` is false for the statement.
  unfoldable pub generate_if :
      (Bool → Code → Code) → (Bool → Code → Code) → (Bool → Code → Code) → Bool → Code → Code
  unfolding branch gen_label emit_label label
  generate_if condition then_code else_code ret = with_labels (λ l1 l2. run (
      branch condition Instruction.jz l1
      ∷ then_code ret
      ∷ jump Instruction.jmp l2
      ∷ mark l1
      ∷ else_code ret
      ∷ mark l2
      ∷ []))

  unfoldable pub generate_while : (Bool → Code → Code) → (Bool → Code → Code) → Code → Code
  unfolding branch gen_label emit_label label
  generate_while condition body = with_labels (λ l1 l2. run (
      mark l1
      ∷ branch condition Instruction.jz l2
      ∷ body false
      ∷ jump Instruction.jmp l1
      ∷ mark l2
      ∷ []))

  unfoldable pub generate_do_while : (Bool → Code → Code) → (Bool → Code → Code) → Code → Code
  unfolding branch gen_label emit_label label
  generate_do_while body condition c =
      let (l1, c1) = gen_label c in
      run (mark l1 ∷ body false ∷ branch condition Instruction.jnz l1 ∷ []) c1

  unfoldable pub generate_for :
      (Bool → Code → Code)
      → (Bool → Code → Code)
      → (Bool → Code → Code)
      → (Bool → Code → Code)
      → Code
      → Code
  unfolding branch gen_label emit_label label
  generate_for start condition step body = with_labels (λ l1 l2. run (
      start false
      ∷ mark l1
      ∷ branch condition Instruction.jz l2
      ∷ body false
      ∷ step false
      ∷ jump Instruction.jmp l1
      ∷ mark l2
      ∷ []))

  -- The value that is returned, for the type of the statement.
  unfoldable pub return_value : Pointer → Bool → (Bool → Code → Code) → Code → Code
  unfolding is_sym constant deref qword
  return_value type true operand = run (operand true ∷ put g Instruction.pop (eax ∷ []) ∷ [])
  return_value type false operand =
      if is_sym type sym_double
      then run (
          operand true
          ∷ put g Instruction.fld (qword (deref (blank_operand g) esp) ∷ [])
          ∷ put g Instruction.add (esp ∷ constant (blank_operand g) 8 ∷ [])
          ∷ [])
      else run []

  unfoldable pub generate_return : Pointer → (Bool → Code → Code) → Code → Code
  unfolding return_value label
  generate_return type operand =
      reading (is_compatible_types g.fuel g.store type (some sym_int))
        (λ int. run (return_value type int operand ∷ jump Instruction.jmp g.return_label ∷ []))

  unfoldable pub unknown_statement : Bytes → Code → Code
  unfolding emit_text
  unknown_statement repr = emit_text g.blank g.decimal (bytes "; unknown statement " ++ repr)

  unfoldable pub unknown_node : Bytes → Code → Code
  unfolding emit_text
  unknown_node repr = emit_text g.blank g.decimal (bytes "; unknown node " ++ repr)
