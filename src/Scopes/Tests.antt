-- ===== src/Scopes/Tests.antt =====
-- src/parser.c: the theorems on scopes, at an outer scope and one that is opened in it.
use jacc.Common.{ℕ, ◌+◌, some, [], ◌∷◌, bytes, ◌≡◌, refl, arith}
use jacc.Symtable.{Symtable, symtable_create}
use jacc.Symtable.Keys.{SymbolClass, class_eq}
use jacc.Symtable.Valid.{IsValid}
use jacc.Symtable.Refine.{symtable_create-IsValid}
use jacc.Pull.{pull_create}
use jacc.Scopes.{Scopes, push_symtable, pop_symtable, put_symbol, get_symbol, symtable_default_size}
use jacc.Scopes.Lookup.{IsScoped, innermost, scopes_of, get_symbol-innermost}
use jacc.Scopes.Puts.{put_symbol-get, put_symbol-other}
use jacc.Scopes.Ends.{put_symbols, scope_ends}

-- The addresses of the tables, as the pool holds them.
abbrev pointer : ℕ → ℕ
pointer a = a + 1000

abbrev table : Symtable ℕ
table = symtable_create symtable_default_size

table-IsValid : IsValid table
table-IsValid = (symtable_create-IsValid 16 (omega arith) (omega arith)).0

-- After parser_init.
abbrev outside : Scopes
outside = record { tables = table ∷ []; symtables = 0 ∷ []; pull = pull_create }

outside-IsScoped : IsScoped outside
outside-IsScoped = record { valid = (table-IsValid, tt); inside = (omega arith, tt) }

-- And after a scope was opened.
abbrev opened : Scopes
opened = record {
  tables = table ∷ table ∷ [];
  symtables = 1 ∷ 0 ∷ [];
  pull = record { head = record { ptrs = 1001 ∷ [] }; rest = [] };
}

opened-IsScoped : IsScoped opened
opened-IsScoped = record {
  valid = (table-IsValid, (table-IsValid, tt));
  inside = (omega arith, (omega arith, tt));
}

push_outside : push_symtable pointer outside ≡ some opened
unfolding push_symtable pull_create
push_outside = refl

get_symbol-innermost_example :
    get_symbol (bytes "x") SymbolClass.name opened
    ≡ some (innermost (bytes "x") SymbolClass.name (scopes_of (table ∷ table ∷ []) (1 ∷ 0 ∷ [])))
get_symbol-innermost_example =
    get_symbol-innermost opened (bytes "x") SymbolClass.name opened-IsScoped

put_symbol-get_example :
    (s : Scopes) × (put_symbol (bytes "x") 7 SymbolClass.name opened ≡ some s)
    × IsScoped s
    × (get_symbol (bytes "x") SymbolClass.name s ≡ some (some 7))
put_symbol-get_example =
    put_symbol-get opened 1 (0 ∷ []) (bytes "x") 7 SymbolClass.name opened-IsScoped refl

put_x :
    (s : Scopes) × (put_symbol (bytes "x") 7 SymbolClass.name opened ≡ some s)
    × IsScoped s
    × (get_symbol (bytes "x") SymbolClass.name s ≡ some (some 7))
put_x = put_symbol-get opened 1 (0 ∷ []) (bytes "x") 7 SymbolClass.name opened-IsScoped refl

abbrev with_x : Scopes
with_x = put_x.0

x_put : put_symbol (bytes "x") 7 SymbolClass.name opened ≡ some with_x
x_put = put_x.1

-- The tag `x` is another name.
tag_unchanged :
    get_symbol (bytes "x") SymbolClass.tag with_x ≡ get_symbol (bytes "x") SymbolClass.tag opened
unfolding class_eq
tag_unchanged =
    put_symbol-other opened 1 (0 ∷ []) (bytes "x") 7 SymbolClass.name opened-IsScoped refl
      (bytes "x") SymbolClass.tag with_x refl x_put

x_puts : put_symbols ((bytes "x", 7, SymbolClass.name) ∷ []) opened ≡ some with_x
unfolding put_symbols
x_puts = rw x_put refl

scope_ends_example :
    get_symbol (bytes "x") SymbolClass.name (pop_symtable with_x)
    ≡ get_symbol (bytes "x") SymbolClass.name outside
scope_ends_example =
    scope_ends pointer ((bytes "x", 7, SymbolClass.name) ∷ []) outside opened with_x (bytes "x")
      SymbolClass.name outside-IsScoped push_outside x_puts
