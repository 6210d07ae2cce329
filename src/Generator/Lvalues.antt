-- ===== src/Generator/Lvalues.antt =====
-- src/generator.c: the cases of `lvalue`, and `generate_lvalue`. What `generate_expr` and `lvalue` do
-- for an operand comes as a function on the code.
use jacc.Common.{
  ℕ, Option, none, some, List, [], ◌∷◌, ◌++◌, Bytes, bytes, Bool, true, ◌==◌, if◌then◌else◌,
  add_int, sub_int,
}
use jacc.Asm.{Instruction, Register, Label, Operand}
use jacc.Ast.{Pointer}
use jacc.Types.Symbols.{SymbolType, Symbol, load}
use jacc.Generator.Operands.{reg, constant, label, memory, deref, dword}
use jacc.Generator.Emit.{Code, gen_label, emit_text, emit_data, run}
use jacc.Generator.Operators.{eax}
use jacc.Generator.Data.{variable_text}
use jacc.Generator.Settings.{Settings, put, blank_operand, stop}

-- The number of an enumerator of `enum symbol_type`.
unfoldable pub symbol_code : SymbolType → ℕ
symbol_code SymbolType.variable = 0
symbol_code SymbolType.global_variable = 1
symbol_code SymbolType.field = 2
symbol_code SymbolType.function = 3
symbol_code SymbolType.scalar_type = 4
symbol_code SymbolType.type_alias = 5
symbol_code SymbolType.struct_type = 6
symbol_code SymbolType.union_type = 7
symbol_code SymbolType.enum_type = 8
symbol_code SymbolType.enum_const = 9
symbol_code SymbolType.array = 10
symbol_code SymbolType.pointer = 11
symbol_code SymbolType.parameter = 12

-- `symbol->label`; its id is 0 until it is set.
unfoldable pub label_of : List (ℕ × Label) → ℕ → Label
label_of [] a = record { id = 0; name = 0 }
label_of ((b, l) ∷ labels) a = let rest = label_of labels a in if b == a then l else rest

module _ (g : Settings) where
  -- `deref(constant(0))`, which fails an assertion of `memory`.
  unfoldable pub no_lvalue : Code → Operand × Code
  unfolding deref constant stop
  no_lvalue c = (deref (blank_operand g) (constant (blank_operand g) 0), stop c)

  -- `[base + offset]`
  abbrev pub at_offset : Register → ℕ → Operand
  at_offset base offset = memory (blank_operand g) (reg base) offset (reg Register.none_reg)

  -- The global variable `s` at the address `a` gets a label when it is met first.
  unfoldable pub declare_global : ℕ → Symbol → Code → Code
  unfolding gen_label emit_data variable_text
  declare_global a s c =
      let (l, c') = gen_label c in
      emit_data g.blank g.decimal (variable_text g.decimal l s.size)
        (record c' { labels = (a, l) ∷ c'.labels })

  unfoldable pub global_operand : ℕ → Symbol → Code → Operand × Code
  unfolding declare_global label_of deref label dword
  global_operand a s c =
      let c' = if (label_of c.labels a).id == 0 then declare_global a s c else c in
      (dword (deref (blank_operand g) (label (blank_operand g) (label_of c'.labels a))), c')

  -- The switch on the kind of the variable at the address `a`.
  unfoldable pub variable_case : SymbolType → ℕ → Symbol → Code → Operand × Code
  unfolding dword memory reg global_operand no_lvalue emit_text symbol_code
  variable_case SymbolType.parameter a s c =
      (dword (at_offset Register.ebp (add_int s.offset 8)), c)
  variable_case SymbolType.variable a s c =
      (dword (at_offset Register.ebp (sub_int s.offset s.size)), c)
  variable_case SymbolType.global_variable a s c = global_operand a s c
  variable_case t a s c =
      no_lvalue (
        emit_text g.blank g.decimal (bytes "; unhandled var symbol " ++ g.decimal (symbol_code t))
          c)

  unfoldable pub variable_read : ℕ → Option Symbol → Code → Operand × Code
  unfolding variable_case no_lvalue
  variable_read a none c = no_lvalue c
  variable_read a (some s) c = variable_case s.type a s c

  unfoldable pub variable_lvalue : ℕ → Code → Operand × Code
  unfolding variable_read load
  variable_lvalue a = variable_read a (load g.store (some a))

  unfoldable pub dereference_lvalue : (Bool → Code → Code) → Code → Operand × Code
  unfolding deref
  dereference_lvalue left c =
      (deref (blank_operand g) eax, run (left true ∷ put g Instruction.pop (eax ∷ []) ∷ []) c)

  -- `emit(ASM_LEA, eax, lvalue(expr))`
  unfoldable pub lea : (Code → Operand × Code) → Code → Code
  lea address c = let (op, c') = address c in put g Instruction.lea (eax ∷ op ∷ []) c'

  -- The field of what EAX points at.
  unfoldable pub field_operand : Option Symbol → Code → Operand × Code
  unfolding no_lvalue memory reg
  field_operand none c = no_lvalue c
  field_operand (some s) c = (at_offset Register.eax s.offset, c)

  -- The type of the second operand is the symbol of the field.
  unfoldable pub member_lvalue : (Code → Operand × Code) → Pointer → Code → Operand × Code
  unfolding lea field_operand load
  member_lvalue address field c = field_operand (load g.store field) (lea address c)

  -- The default case.
  unfoldable pub other_lvalue : Bytes → Code → Operand × Code
  unfolding no_lvalue emit_text
  other_lvalue repr c =
      no_lvalue (emit_text g.blank g.decimal (bytes "; '" ++ repr ++ bytes "' is not lvalue") c)

  unfoldable pub generate_lvalue : (Code → Operand × Code) → Code → Code
  unfolding lea
  generate_lvalue address = run (lea address ∷ put g Instruction.push (eax ∷ []) ∷ [])
