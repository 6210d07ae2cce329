-- ===== src/Types/Compatible.antt =====
-- src/parser.c: is_compatible_types and is_compatible_symtable.
pub mod Symmetry
pub mod Fuel
pub mod Cycles
use mathlib.Core.List.{map}
use jacc.Common.{
  ℕ, zero, suc, Option, none, some, List, [], ◌∷◌, Bool, true, false, ◌==◌, if◌then◌else◌,
  get_elem?, ◌>>=◌,
}
use jacc.Ast.{Pointer}
use jacc.Symtable.{Symtable, iterate}
use jacc.Types.Symbols.{SymbolType, Symbol, Store, load}
use jacc.Types.Resolve.{resolve_alias, get_generic_type}

-- `symtable_iter_value` along the list of a table.
unfoldable pub values : Symtable ℕ → List ℕ
unfolding iterate
values t = map (λ e. e.2) (iterate t.nodes t.list)

abbrev pub Compare : Type 0
Compare = Pointer → Pointer → Option Bool

-- The loop of `is_compatible_symtable`; the second list is as long as the first.
unfoldable pub all_compatible : Compare → List ℕ → List ℕ → Option Bool
all_compatible same [] ys = some true
all_compatible same (x ∷ xs) [] = none
all_compatible same (x ∷ xs) (y ∷ ys) = do
  let rest = all_compatible same xs ys
  r ← same (some x) (some y)
  if r then rest else some false

unfoldable pub table_at : Store → Pointer → Option (Symtable ℕ)
table_at st none = none
table_at st (some t) = get_elem? st.tables t

unfoldable pub is_compatible_symtable : Compare → Store → Pointer → Pointer → Option Bool
unfolding table_at all_compatible values
is_compatible_symtable same st p q = do
  s1 ← table_at st p
  s2 ← table_at st q
  if s1.size == s2.size then all_compatible same (values s1) (values s2) else some false

-- What `is_compatible_types` does with two types after their generic types are known.
unfoldable pub compare_types :
    Compare → Store → SymbolType → SymbolType → ℕ → ℕ → Symbol → Symbol → Option Bool
unfolding is_compatible_symtable
compare_types same st SymbolType.scalar_type SymbolType.scalar_type a b s t = some (a == b)
compare_types same st SymbolType.pointer SymbolType.pointer a b s t = same s.base_type t.base_type
compare_types same st SymbolType.function SymbolType.function a b s t = do
  let tables = is_compatible_symtable same st s.symtable t.symtable
  r ← same s.base_type t.base_type
  if r then (if s.flags == t.flags then tables else some false) else some false
compare_types same st SymbolType.struct_type SymbolType.struct_type a b s t =
    is_compatible_symtable same st s.symtable t.symtable
compare_types same st SymbolType.union_type SymbolType.union_type a b s t =
    is_compatible_symtable same st s.symtable t.symtable
compare_types same st _ _ a b s t = some false

-- With fuel for the calls on base types and fields; none where it runs out, and on a fault.
unfoldable pub is_compatible_types : ℕ → Store → Compare
unfolding compare_types
is_compatible_types zero st p q = none
is_compatible_types (suc n) st none q = some false
is_compatible_types (suc n) st (some a) none = some false
is_compatible_types (suc n) st (some a) (some b) = do
  a' ← resolve_alias st (some a)
  b' ← resolve_alias st (some b)
  t1 ← get_generic_type st (some a')
  t2 ← get_generic_type st (some b')
  s ← load st (some a')
  t ← load st (some b')
  compare_types (is_compatible_types n st) st t1 t2 a' b' s t
