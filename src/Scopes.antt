-- ===== src/Scopes.antt =====
-- src/parser.c: the stack of symbol tables, one for each scope that is open.
pub mod Association
pub mod Lookup
pub mod Puts
pub mod Ends
pub mod Tests
use jacc.Common.{
  ℕ, Option, none, some, List, [], ◌∷◌, ◌++◌, Bytes, if◌then◌else◌, ltb, length, get_elem?, set,
  ◌>>=◌,
}
use jacc.Ast.{Pointer}
use jacc.Symtable.{Symtable, symtable_create, symtable_get, symtable_set}
use jacc.Symtable.Keys.{SymbolClass}
use jacc.Pull.{Pull, pull_add}

-- SYMTABLE_MAX_DEPTH
abbrev pub symtable_max_depth : ℕ
symtable_max_depth = 255

-- SYMTABLE_DEFAULT_SIZE
abbrev pub symtable_default_size : ℕ
symtable_default_size = 16

-- `tables` holds all tables; the address of a table is its place. `symtables` are the addresses in the
-- array of this name up to `current_symtable`, the last one first, and `pull` is `parser_pull`.
pub record Scopes : Type 0 where
  pub tables : List (Symtable ℕ)
  pub symtables : List ℕ
  pub pull : Pull

-- none is a write outside of the array.
unfoldable pub push_symtable_ex : ℕ → Scopes → Option Scopes
push_symtable_ex symtable s =
    if ltb (length s.symtables) symtable_max_depth
    then some (record s { symtables = symtable ∷ s.symtables })
    else none

-- `pointer` gives what the pool holds for the table at an address.
unfoldable pub push_symtable : (ℕ → ℕ) → Scopes → Option Scopes
unfolding push_symtable_ex pull_add
push_symtable pointer s = do
  let symtable = length s.tables
  pull ← pull_add s.pull (pointer symtable)
  push_symtable_ex symtable
      (record s { tables = s.tables ++ symtable_create symtable_default_size ∷ []; pull = pull })

unfoldable pub pop_symtable : Scopes → Scopes
pop_symtable s = record s { symtables = elim (s.symtables) [ [] ↦ [] | t ∷ rest ↦ rest ] }

-- `symtables[current_symtable]`
unfoldable pub get_current_symtable : Scopes → Pointer
get_current_symtable s = elim (s.symtables) [ [] ↦ none | t ∷ rest ↦ some t ]

unfoldable pub put_symbol : Bytes → ℕ → SymbolClass → Scopes → Option Scopes
unfolding get_current_symtable symtable_set
put_symbol name symbol symclass s = do
  t ← get_current_symtable s
  table ← get_elem? s.tables t
  table' ← symtable_set table name symclass symbol
  some (record s { tables = set s.tables t table' })

-- `if (result != NULL) return result;` and the rest of the loop.
unfoldable pub found_or : Pointer → Option Pointer → Option Pointer
found_or none rest = rest
found_or (some symbol) rest = some (some symbol)

-- The loop of `get_symbol`.
unfoldable pub search : List (Symtable ℕ) → Bytes → SymbolClass → List ℕ → Option Pointer
unfolding symtable_get found_or
search tables name symclass [] = some none
search tables name symclass (t ∷ rest) = do
  let others = search tables name symclass rest
  table ← get_elem? tables t
  result ← symtable_get table name symclass
  found_or result others

unfoldable pub get_symbol : Bytes → SymbolClass → Scopes → Option Pointer
unfolding search
get_symbol name symclass s = search s.tables name symclass s.symtables
