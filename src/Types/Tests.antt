-- ===== src/Types/Tests.antt =====
-- src/parser.c: the theorems at a few types.
use jacc.Common.{
  ℕ, zero, suc, ◌<◌, none, some, [], ◌∷◌, Bytes, bytes, true, false, ◌==◌, if◌then◌else◌, ◌≡◌, ◌≢◌,
  refl, ap, arith,
}
use jacc.Ast.{NodeType, Pointer, Node, null, var, binary, unary}
use jacc.Ast.Info.{type_sym}
use jacc.Symtable.{Symtable, symtable_create}
use jacc.Symtable.Keys.{SymbolClass}
use jacc.Symtable.Refine.{symtable_create-IsValid}
use jacc.Types.Symbols.{SymbolType, Symbol, Store, load}
use jacc.Types.Resolve.{
  is_indirect, resolve_alias, get_generic_type, Stands, Leads, resolve_alias-Leads, IsGrounded,
}
use jacc.Types.Compatible.{is_compatible_types, values, table_at}
use jacc.Types.Compatible.Symmetry.{AllTables, compatible-sym}
use jacc.Types.Compatible.Cycles.{IsSelfReferring, compatible_self_never}
use jacc.Types.Arithmetic.{
  set_binary_expr_type, arith_common_type, is_comma, compares_pointers, is_add, is_cmp_node_type,
  is_int_only_node_type,
}
use jacc.Types.Arithmetic.Common.{HasBuiltins, IsNumber, arith_common_type-sym}
use jacc.Types.Arithmetic.Operands.{IsOver}
use jacc.Types.Arithmetic.Typing.{binary_expr-IsOver, comparison_int, int_only-ne-double}

-- A symbol with a type, a base type and a size.
abbrev pub symbol : SymbolType → Bytes → Pointer → ℕ → Symbol
symbol type name base_type size = record {
  type = type;
  name = name;
  base_type = base_type;
  expr = null;
  symtable = some 0;
  flags = 0;
  size = size;
  offset = 0;
  locals_size = 0;
}

-- The fields of the structure at 5: a pointer to it, at 6.
abbrev pub fields : Symtable ℕ
fields = record {
  capacity = 1;
  size = 1;
  buckets = (0 ∷ []) ∷ [];
  list = 0 ∷ [];
  nodes = record { hash = 0; key = bytes "next"; key2 = SymbolClass.name; value = 6 } ∷ [];
}

-- int, double and char; `struct s { struct s *next; };`, `typedef int num;`, `num x;` and `double d;`
abbrev pub store : Store
store = record {
  symbols =
      symbol SymbolType.scalar_type [] none 0
      ∷ symbol SymbolType.scalar_type (bytes "void") none 0
      ∷ symbol SymbolType.scalar_type (bytes "int") none 4
      ∷ symbol SymbolType.scalar_type (bytes "double") none 8
      ∷ symbol SymbolType.scalar_type (bytes "char") none 1
      ∷ symbol SymbolType.struct_type (bytes "s") none 4
      ∷ symbol SymbolType.field (bytes "next") (some 7) 4
      ∷ symbol SymbolType.pointer [] (some 5) 4
      ∷ symbol SymbolType.type_alias (bytes "num") (some 2) 4
      ∷ symbol SymbolType.parameter (bytes "x") (some 8) 4
      ∷ symbol SymbolType.global_variable (bytes "d") (some 3) 8
      ∷ [];
  tables = fields ∷ [];
}

pub store-HasBuiltins : HasBuiltins store
unfolding load
store-HasBuiltins = record {
  int = symbol SymbolType.scalar_type (bytes "int") none 4;
  int_at = refl;
  int_is = refl;
  double = symbol SymbolType.scalar_type (bytes "double") none 8;
  double_at = refl;
  double_is = refl;
  char = symbol SymbolType.scalar_type (bytes "char") none 1;
  char_at = refl;
  char_is = refl;
}

x-int : resolve_alias store (some 9) ≡ some 2
unfolding resolve_alias load is_indirect
x-int = refl

-- `num x` is the only chain of two steps.
abbrev ranks : ℕ → ℕ
ranks a = if a == 9 then 2 else if a == 8 then 1 else if a == 6 then 1 else if a == 10 then 1 else 0

direct :
    (t s : Symbol) → some t ≡ some s → is_indirect t.type ≡ false → is_indirect s.type ≡ true → ⊥
direct t s e f i = (let same : t ≡ s = cc in absurd (cc (ap (λ u. is_indirect u.type) same)))

base_of : {t s : Symbol} → some t ≡ some s → s.base_type ≡ t.base_type
base_of {t} {s} e = (let same : s ≡ t = cc in ap (λ u. u.base_type) same)

no_symbol : (s : Symbol) → none ≢ some s
no_symbol s e = cc

store_descends :
    (a : ℕ) (s : Symbol)
    → load store (some a) ≡ some s
    → is_indirect s.type ≡ true
    → (b : ℕ) × (t : Symbol) × (s.base_type ≡ some b)
      × (load store (some b) ≡ some t)
      × (ranks b < ranks a)
unfolding load is_indirect
store_descends zero s e i = absurd (direct _ s e refl i)
store_descends (suc zero) s e i = absurd (direct _ s e refl i)
store_descends (suc (suc zero)) s e i = absurd (direct _ s e refl i)
store_descends (suc (suc (suc zero))) s e i = absurd (direct _ s e refl i)
store_descends (suc (suc (suc (suc zero)))) s e i = absurd (direct _ s e refl i)
store_descends (suc (suc (suc (suc (suc zero))))) s e i = absurd (direct _ s e refl i)
store_descends (suc (suc (suc (suc (suc (suc zero)))))) s e i =
    (7, symbol SymbolType.pointer [] (some 5) 4, base_of e, refl, omega arith)
store_descends (suc (suc (suc (suc (suc (suc (suc zero))))))) s e i = absurd (direct _ s e refl i)
store_descends (suc (suc (suc (suc (suc (suc (suc (suc zero)))))))) s e i =
    (2, symbol SymbolType.scalar_type (bytes "int") none 4, base_of e, refl, omega arith)
store_descends (suc (suc (suc (suc (suc (suc (suc (suc (suc zero))))))))) s e i =
    (8, symbol SymbolType.type_alias (bytes "num") (some 2) 4, base_of e, refl, omega arith)
store_descends (suc (suc (suc (suc (suc (suc (suc (suc (suc (suc zero)))))))))) s e i =
    (3, symbol SymbolType.scalar_type (bytes "double") none 8, base_of e, refl, omega arith)
store_descends (suc (suc (suc (suc (suc (suc (suc (suc (suc (suc (suc a))))))))))) s e i =
    absurd (no_symbol s e)

store-IsGrounded : IsGrounded store
store-IsGrounded = record { rank = ranks; bounded = λ a. ground arith; descends = store_descends }

resolve_alias-Leads_example :
    (b : ℕ) × (t : Symbol) × (resolve_alias store (some 9) ≡ some b)
    × Leads store (some 9) b
    × (load store (some b) ≡ some t)
    × (¬ Stands t.type)
    × (resolve_alias store (some b) ≡ some b)
unfolding load
resolve_alias-Leads_example =
    resolve_alias-Leads store store-IsGrounded 9
      (symbol SymbolType.parameter (bytes "x") (some 8) 4) refl

-- The structure of the store has a table without entries here.
abbrev empty_fields : Store
empty_fields = record store { tables = symtable_create 1 ∷ [] }

empty_fields-AllTables : AllTables empty_fields
empty_fields-AllTables zero t e =
    (let same : symtable_create 1 ≡ t = cc in
      rw (← same) (symtable_create-IsValid 1 (omega arith) (omega arith)).0)
empty_fields-AllTables (suc i) t e = cc

compatible-sym_example :
    is_compatible_types 4 empty_fields (some 7) (some 9)
    ≡ is_compatible_types 4 empty_fields (some 9) (some 7)
compatible-sym_example = compatible-sym 4 empty_fields empty_fields-AllTables (some 7) (some 9)

self_referring : IsSelfReferring store 5 6 7
unfolding load table_at values resolve_alias is_indirect
self_referring = record {
  struct = symbol SymbolType.struct_type (bytes "s") none 4;
  struct_at = refl;
  struct_is = refl;
  fields = fields;
  fields_at = refl;
  rest = [];
  first = refl;
  field = refl;
  pointer = symbol SymbolType.pointer [] (some 5) 4;
  pointer_at = refl;
  pointer_is = refl;
  points_back = refl;
}

compatible_self_never_example : is_compatible_types 9 store (some 5) (some 5) ≡ none
compatible_self_never_example = compatible_self_never store 5 6 7 self_referring 9

arith_common_type-sym_example : arith_common_type store 3 4 ≡ arith_common_type store 4 3
unfolding load
arith_common_type-sym_example =
    arith_common_type-sym store store-HasBuiltins 3 4
      (symbol SymbolType.scalar_type (bytes "double") none 8)
      (symbol SymbolType.scalar_type (bytes "char") none 1) refl refl

-- `x` and `d`
abbrev pub x_node : Node
x_node = var (some 8) 9

abbrev pub d_node : Node
d_node = var (some 3) 10

-- `x * d` converts `x`.
abbrev product : Node
product = binary NodeType.mul_node (some 3) (unary NodeType.cast_node (some 3) x_node) d_node

product_typed : set_binary_expr_type 3 store NodeType.mul_node x_node d_node ≡ some (some product)
unfolding set_binary_expr_type load resolve_alias is_indirect is_compatible_types get_generic_type
product_typed = refl

binary_expr-IsOver_example :
    (c : ℕ) × IsNumber c × IsOver 2 store store-HasBuiltins NodeType.mul_node product c
unfolding is_comma compares_pointers is_add
binary_expr-IsOver_example =
    binary_expr-IsOver 2 store store-HasBuiltins NodeType.mul_node x_node d_node product refl
      product_typed

-- `x < d` is an int over two doubles.
abbrev less : Node
less = binary NodeType.lt_node (some 2) (unary NodeType.cast_node (some 3) x_node) d_node

less_typed : set_binary_expr_type 3 store NodeType.lt_node x_node d_node ≡ some (some less)
unfolding set_binary_expr_type load resolve_alias is_indirect is_compatible_types get_generic_type
less_typed = refl

comparison_int_example : type_sym less ≡ some 2
unfolding is_cmp_node_type
comparison_int_example =
    comparison_int 2 store store-HasBuiltins NodeType.lt_node x_node d_node less refl less_typed

-- `x % x`
abbrev rest : Node
rest = binary NodeType.mod_node (some 2) x_node x_node

rest_typed : set_binary_expr_type 3 store NodeType.mod_node x_node x_node ≡ some (some rest)
unfolding set_binary_expr_type load resolve_alias is_indirect is_compatible_types get_generic_type
rest_typed = refl

int_only-ne-double_example : type_sym rest ≢ some 3
unfolding is_int_only_node_type
int_only-ne-double_example =
    int_only-ne-double 2 store store-HasBuiltins NodeType.mod_node x_node x_node rest refl
      rest_typed

-- `x % d` is refused.
rest_refused : set_binary_expr_type 3 store NodeType.mod_node x_node d_node ≡ some none
unfolding set_binary_expr_type load resolve_alias is_indirect is_compatible_types get_generic_type
rest_refused = refl
