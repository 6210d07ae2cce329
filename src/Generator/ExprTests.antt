-- ===== src/Generator/ExprTests.antt =====
-- src/generator.c: the theorems on expressions, statements and functions at small trees.
use jacc.Common.{
  if◌then◌else◌, ltb, ◌==◌, ap, sym, ℕ, ◌+◌, ◌*◌, ◌≤◌, none, some, [], ◌∷◌, Bytes, bytes, true,
  false, length, ◌≡◌, refl, arith,
}
use jacc.Asm.{Instruction, Register, Label, Operand}
use jacc.Ast.{NodeType, Node, unary, binary, list, var, nil, cons}
use jacc.Ast.Info.{type_sym}
use jacc.Types.Symbols.{SymbolType, Symbol, load}
use jacc.Types.Resolve.{resolve_alias, get_generic_type, is_indirect}
use jacc.Types.Compatible.{is_compatible_types}
use jacc.Types.Tests.{symbol, store, x_node, d_node}
use jacc.Generator.Operands.{reg}
use jacc.Generator.Emit.{Code}
use jacc.Generator.Settings.{Settings}
use jacc.Generator.Cases.{acts_as_int}
use jacc.Generator.Calls.{is_scalar_word, is_word}
use jacc.Generator.Data.{array_text}
use jacc.Generator.Expressions.{generate_expr}
use jacc.Generator.DoubleBalance.{is_arithmetic}
use jacc.Generator.Steps.{Moves, HasWidth}
use jacc.Generator.CaseBalance.{IsInt}
use jacc.Generator.CallBalance.{Casts}
use jacc.Generator.Balanced.{Value, is_binary_operator}
use jacc.Generator.ExprBalance.{value-Pushes}
use jacc.Generator.Frame.{mark_text, Frame, to_ret, from_mark}
use jacc.Generator.FrameReturn.{started, epilogue_code, prologue-entered, function-returns}
use jacc.Generator.DataBounds.{array_text_fits}
use jacc.Generator.Leaks.{small_argument_leaks}

-- One digit: the last one.
abbrev digit : ℕ → Bytes
digit n = b'1' ∷ []

module _ (l : Label) where
  abbrev settings : Settings
  settings = record {
    blank = record {
      type = Instruction.nop;
      op0 = reg Register.eax;
      op1 = reg Register.eax;
      text = [];
    };
    decimal = digit;
    address_of = length;
    fuel = 5;
    store = store;
    return_label = l;
  }

  x_width : HasWidth settings (some 8) 4
  unfolding load resolve_alias is_indirect
  x_width = record { type = 2; resolved = refl; width = refl }

  d_width : HasWidth settings (some 3) 8
  unfolding load resolve_alias is_indirect
  d_width = record { type = 3; resolved = refl; width = refl }

  x-IsInt : IsInt settings (some 8)
  unfolding load resolve_alias is_indirect is_compatible_types get_generic_type acts_as_int
  x-IsInt = record { type = 2; resolved = refl; no_double = refl; as_int = refl }

  x_to_double : Casts settings (some 3) (some 8) 3 2 true
  unfolding load resolve_alias is_indirect is_compatible_types get_generic_type is_scalar_word
  x_to_double = record { to_resolved = refl; of_resolved = refl; of_word = refl }

  -- `(double)x * d`
  abbrev product : Node
  product = binary NodeType.mul_node (some 3) (unary NodeType.cast_node (some 3) x_node) d_node

  product-Value : Value settings product 8
  unfolding load resolve_alias is_indirect is_arithmetic is_binary_operator type_sym
  product-Value =
      Value.binary_double {a = unary NodeType.cast_node (some 3) x_node} refl refl refl
        (Value.widen x_to_double refl (Value.variable x_width)) (Value.variable d_width)

abbrev none_yet : Label
none_yet = record { id = 0; name = 0 }

abbrev pub empty : Code
empty = record { opcode_list = []; data_list = []; label_counter = 0; labels = []; fault = false }

abbrev pub g : Settings
g = settings none_yet

value-Pushes_example : Moves g (generate_expr g (product none_yet) true) 4 12
value-Pushes_example = value-Pushes g (product none_yet) 8 (product-Value none_yet) 4

-- `num f(num x) { ... }` with a local variable; the caller has pushed the return address 77.
abbrev f : Symbol
f = record (symbol SymbolType.function (bytes "f") (some 2) 0) { locals_size = 4 }

abbrev caller : Frame
caller = record { height = 8; ebp = 5; cells = λ d. 77 }

-- The body has left twenty bytes above the local variable and has written to its cells.
abbrev after : Frame
after = record {
  height = 36;
  ebp = 12;
  cells = λ d. if ltb 12 d then 9 else if d == 12 then 5 else 77;
}

abbrev nothing : Operand → ℕ
nothing o = 0

function-returns_example :
    ((started g nothing f caller).height ≡ caller.height + 4 + f.locals_size)
    × (to_ret nothing (epilogue_code g nothing f none_yet) after
        ≡ some (record caller { cells = after.cells }))
    × (to_ret nothing
          (from_mark (mark_text g.decimal none_yet) (epilogue_code g nothing f none_yet))
          after
        ≡ some (record caller { cells = after.cells }))
    × (after.cells caller.height ≡ caller.cells caller.height)
function-returns_example =
    function-returns g nothing f none_yet caller after
      (ap (λ s. s.ebp) (sym (prologue-entered g nothing f caller)))
      (ap (λ s. s.cells 12) (sym (prologue-entered g nothing f caller)))
      (ap (λ s. s.cells 8) (sym (prologue-entered g nothing f caller)))

array_text_fits_example : length (array_text digit none_yet (7 ∷ 0 ∷ [])) + 1 ≤ 15 + 4 * 2
array_text_fits_example =
    array_text_fits digit (λ n h. omega arith) none_yet 7 (0 ∷ []) (omega arith)
      (omega arith, (omega arith, tt))

c_width : HasWidth g (some 4) 4
unfolding load resolve_alias is_indirect
c_width = record { type = 4; resolved = refl; width = refl }

-- A call of the symbol at 9 with a variable of the type char.
small_argument_leaks_example :
    Moves g
      (generate_expr g
        (binary NodeType.call_node
          (some 2)
          (var (some 9) 9)
          (list none (cons (var (some 4) 10) nil)))
        false)
      8
      11
unfolding load is_word is_compatible_types resolve_alias is_indirect get_generic_type type_sym
small_argument_leaks_example =
    small_argument_leaks g (some 2) none (var (some 9) 9) (var (some 4) 10) 1 8
      (symbol SymbolType.parameter (bytes "x") (some 8) 4)
      (symbol SymbolType.scalar_type (bytes "char") none 1) refl refl refl (omega arith) refl
      (Value.variable c_width)
