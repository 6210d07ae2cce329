-- ===== src/Symtable/Tests.antt =====
-- src/symtable.c: the theorems at the empty table of two buckets.
use jacc.Common.{ℕ, ◌≡◌, some, [], ◌∷◌, Bytes, arith}
use jacc.Symtable.{Symtable, symtable_create, symtable_get, symtable_set, iterate}
use jacc.Symtable.Keys.{SymbolClass}
use jacc.Symtable.Lookup.{entries}
use jacc.Symtable.Entries.{lookup, insert}
use jacc.Symtable.Valid.{IsValid, get-lookup}
use jacc.Symtable.Refine.{symtable_create-IsValid, set-insert, set-iterate}

abbrev empty : Symtable ℕ
empty = symtable_create 2

abbrev word : Bytes
word = b'x' ∷ []

empty-IsValid : IsValid empty
empty-IsValid = (symtable_create-IsValid 2 (omega arith) (omega arith)).0

symtable_create-IsValid_example : IsValid empty × (entries empty.nodes ≡ [])
symtable_create-IsValid_example = symtable_create-IsValid 2 (omega arith) (omega arith)

set-insert_example :
    (t : Symtable ℕ) × (symtable_set empty word SymbolClass.tag 5 ≡ some t)
    × IsValid t
    × (entries t.nodes ≡ insert word SymbolClass.tag 5 (entries empty.nodes))
    × (t.capacity ≡ empty.capacity)
set-insert_example = set-insert empty-IsValid word SymbolClass.tag 5

get-lookup_example :
    symtable_get ((set-insert empty-IsValid word SymbolClass.tag 5).0) word SymbolClass.tag
    ≡ some (
        lookup word SymbolClass.tag
          (entries (((set-insert empty-IsValid word SymbolClass.tag 5).0).nodes)))
get-lookup_example =
    get-lookup ((set-insert empty-IsValid word SymbolClass.tag 5).2) word SymbolClass.tag

-- The table with one entry, and another word that is put into it.
abbrev one : Symtable ℕ
one = (set-insert empty-IsValid word SymbolClass.tag 5).0

abbrev other : Bytes
other = b'y' ∷ b'z' ∷ []

set-iterate_example :
    (t : Symtable ℕ) × (symtable_set one other SymbolClass.name 6 ≡ some t)
    × (iterate t.nodes t.list ≡ insert other SymbolClass.name 6 (iterate one.nodes one.list))
set-iterate_example =
    set-iterate ((set-insert empty-IsValid word SymbolClass.tag 5).2) other SymbolClass.name 6
