-- ===== src/Scopes/Lookup.antt =====
-- src/parser.c: get_symbol searches the scopes from the innermost one outwards.
use jacc.Common.{
  ℕ, zero, suc, ◌<◌, none, some, List, [], ◌∷◌, Bytes, length, get_elem?, ◌≡◌, refl, arith,
}
use jacc.Ast.{Pointer}
use jacc.Symtable.{Symtable}
use jacc.Symtable.Keys.{SymbolClass}
use jacc.Symtable.Lookup.{Entry, All, entries}
use jacc.Symtable.Entries.{lookup}
use jacc.Symtable.Valid.{IsValid, get-lookup}
use jacc.Scopes.{Scopes, search, get_symbol, found_or}

-- All tables are valid, and the addresses of the open scopes are those of tables.
pub record IsScoped (s : Scopes) : Type 0 where
  pub valid : All IsValid s.tables
  pub inside : All (λ t. t < length s.tables) s.symtables

-- The entries of the table at an address.
unfoldable pub scope_at : List (Symtable ℕ) → ℕ → List (Entry ℕ)
scope_at tables t = elim (get_elem? tables t) [ none ↦ [] | some table ↦ entries table.nodes ]

-- The first of the scopes that has the name decides.
unfoldable pub innermost : Bytes → SymbolClass → List (List (Entry ℕ)) → Pointer
innermost k c [] = none
innermost k c (es ∷ scopes) = elim (lookup k c es) [ some v ↦ some v | none ↦ innermost k c scopes ]

unfoldable pub scopes_of : List (Symtable ℕ) → List ℕ → List (List (Entry ℕ))
scopes_of tables [] = []
scopes_of tables (t ∷ ts) = scope_at tables t ∷ scopes_of tables ts

pub valid_at :
    (tables : List (Symtable ℕ)) (t : ℕ)
    → All IsValid tables
    → t < length tables
    → (table : Symtable ℕ) × (get_elem? tables t ≡ some table) × IsValid table
valid_at [] t v l = absurd (omega arith)
valid_at (table ∷ tables) zero (v, vs) l = (table, refl, v)
valid_at (table ∷ tables) (suc t) (v, vs) l = valid_at tables t vs (omega arith)

pub entries_at :
    (tables : List (Symtable ℕ)) (t : ℕ) (table : Symtable ℕ)
    → get_elem? tables t ≡ some table
    → scope_at tables t ≡ entries table.nodes
unfolding scope_at
entries_at tables t table e = rw (scope_at, e) refl

found-eq :
    (o rest : Pointer) → found_or o (some rest) ≡ some (elim o [ some v ↦ some v | none ↦ rest ])
unfolding found_or
found-eq none rest = refl
found-eq (some v) rest = refl

pub search-innermost :
    (tables : List (Symtable ℕ)) (k : Bytes) (c : SymbolClass) (ts : List ℕ)
    → All IsValid tables
    → All (λ t. t < length tables) ts
    → search tables k c ts ≡ some (innermost k c (scopes_of tables ts))
unfolding search innermost scopes_of
search-innermost tables k c [] v i = refl
search-innermost tables k c (t ∷ ts) v (l, i) =
    let (table, e, valid) = valid_at tables t v l in
    let here : scope_at tables t ≡ entries table.nodes = entries_at tables t table e in
    rw (e, get-lookup valid k c, search-innermost tables k c ts v i, here)
      (found-eq (lookup k c (entries table.nodes)) (innermost k c (scopes_of tables ts)))

-- get_symbol finds what the innermost of the open scopes with the name holds, and NULL where none has
-- it; it does not fault.
pub get_symbol-innermost :
    (s : Scopes) (k : Bytes) (c : SymbolClass)
    → IsScoped s
    → get_symbol k c s ≡ some (innermost k c (scopes_of s.tables s.symtables))
unfolding get_symbol
get_symbol-innermost s k c v = search-innermost s.tables k c s.symtables v.valid v.inside
