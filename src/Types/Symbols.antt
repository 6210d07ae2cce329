-- ===== src/Types/Symbols.antt =====
-- src/symtable.h: symbols, on a store whose addresses the pointers are.
use Prim.Native.Nat.{bit_and}
use jacc.Common.{ℕ, Option, none, some, List, Bytes, Bool, true, false, ◌==◌, get_elem?, ◌>>=◌}
use jacc.Ast.{Pointer, Node}
use jacc.Symtable.{Symtable}

pub data SymbolType : Type 0 where
  variable global_variable field function scalar_type type_alias struct_type union_type : SymbolType
  enum_type enum_const array pointer parameter : SymbolType

-- The field `label` is kept by the generator, which alone uses it, and so is `return_label`.
pub record Symbol : Type 0 where
  pub type : SymbolType
  pub name : Bytes
  pub base_type : Pointer
  pub expr : Node
  pub symtable : Pointer
  pub flags : ℕ
  pub size : ℕ
  pub offset : ℕ
  pub locals_size : ℕ

-- All symbols, and all symbol tables, which hold addresses of symbols.
pub record Store : Type 0 where
  pub symbols : List Symbol
  pub tables : List (Symtable ℕ)

-- The addresses of the variables that src/parser.c declares.
abbrev pub sym_null : ℕ
sym_null = 0

abbrev pub sym_void : ℕ
sym_void = 1

abbrev pub sym_int : ℕ
sym_int = 2

abbrev pub sym_double : ℕ
sym_double = 3

abbrev pub sym_char : ℕ
sym_char = 4

-- SF_VARIADIC, SF_INCOMPLETE, SF_STATIC and SF_EXTERN
abbrev pub sf_variadic : ℕ
sf_variadic = 1

abbrev pub sf_incomplete : ℕ
sf_incomplete = 2

abbrev pub sf_static : ℕ
sf_static = 4

abbrev pub sf_extern : ℕ
sf_extern = 8

-- `(expr & flag) == flag`
unfoldable pub has_flag : ℕ → ℕ → Bool
has_flag expr flag = bit_and expr flag == flag

-- `*pointer`; none is a read through NULL or outside of the store.
unfoldable pub load : Store → Pointer → Option Symbol
load st none = none
load st (some a) = get_elem? st.symbols a

-- Tests on `symbol->type`. The functions of the source are these on a symbol that is not NULL, and
-- false on NULL.
unfoldable pub is_type_symbol : SymbolType → Bool
is_type_symbol SymbolType.scalar_type = true
is_type_symbol SymbolType.type_alias = true
is_type_symbol SymbolType.struct_type = true
is_type_symbol SymbolType.union_type = true
is_type_symbol SymbolType.enum_type = true
is_type_symbol SymbolType.array = true
is_type_symbol SymbolType.pointer = true
is_type_symbol _ = false

unfoldable pub is_var_symbol : SymbolType → Bool
is_var_symbol SymbolType.variable = true
is_var_symbol SymbolType.global_variable = true
is_var_symbol SymbolType.field = true
is_var_symbol SymbolType.parameter = true
is_var_symbol _ = false

unfoldable pub is_ptr_type : SymbolType → Bool
is_ptr_type SymbolType.pointer = true
is_ptr_type SymbolType.array = true
is_ptr_type _ = false

unfoldable pub is_struct_type : SymbolType → Bool
is_struct_type SymbolType.struct_type = true
is_struct_type SymbolType.union_type = true
is_struct_type _ = false

-- `symbol->type == ST_TYPE_ALIAS`, and the other tests of this kind.
unfoldable pub is_alias : SymbolType → Bool
is_alias SymbolType.type_alias = true
is_alias _ = false

unfoldable pub is_pointer : SymbolType → Bool
is_pointer SymbolType.pointer = true
is_pointer _ = false

unfoldable pub is_enum_const : SymbolType → Bool
is_enum_const SymbolType.enum_const = true
is_enum_const _ = false

unfoldable pub is_function : SymbolType → Bool
is_function SymbolType.function = true
is_function _ = false

-- A test on the type that a pointer leads to.
unfoldable pub tests : Store → (SymbolType → Bool) → Pointer → Option Bool
unfolding load
tests st test none = some false
tests st test (some a) = do s ← load st (some a); some (test s.type)
