-- ===== src/Types/Compatible/Symmetry.antt =====
-- src/parser.c: is_compatible_types is symmetric.
use mathlib.Core.List.{map}
use jacc.Common.{
  ℕ, zero, suc, Option, none, some, List, [], ◌∷◌, Bool, false, ◌==◌, if◌then◌else◌, length,
  get_elem?, ◌>>=◌, ◌≡◌, refl, sym, ap, ◌∙◌, arith,
}
use jacc.Ast.{Pointer}
use jacc.Symtable.{Symtable, iterate}
use jacc.Symtable.Valid.{IsValid}
use jacc.Symtable.Refine.{iterate-entries, length-entries}
use jacc.Types.Symbols.{SymbolType, Symbol, Store, load}
use jacc.Types.Resolve.{resolve_alias, get_generic_type}
use jacc.Types.Compatible.{
  Compare, values, all_compatible, table_at, is_compatible_symtable, compare_types,
  is_compatible_types,
}

abbrev IsSymmetric : Compare → Type 0
IsSymmetric f = (p q : Pointer) → f p q ≡ f q p

-- The table of every type is valid, as src/symtable.c keeps it.
abbrev pub AllTables : Store → Type 0
AllTables st = (i : ℕ) (t : Symtable ℕ) → get_elem? st.tables i ≡ some t → IsValid t

length-map {ℓ κ} :
    {A : Type ℓ} {B : Type κ} (f : A → B) (xs : List A) → length (map f xs) ≡ length xs
length-map f [] = refl
length-map f (x ∷ xs) = ap suc (length-map f xs)

-- A valid table has as many values as its size says.
length-values : (t : Symtable ℕ) → IsValid t → length (values t) ≡ t.size
unfolding values
length-values t v =
    length-map (λ e. e.2) (iterate t.nodes t.list)
    ∙ ap length (iterate-entries v)
    ∙ length-entries t.nodes
    ∙ sym v.counted

all-sym :
    (f : Compare) (xs ys : List ℕ)
    → IsSymmetric f
    → length xs ≡ length ys
    → all_compatible f xs ys ≡ all_compatible f ys xs
unfolding all_compatible
all-sym f [] [] s e = refl
all-sym f [] (y ∷ ys) s e = absurd (omega arith)
all-sym f (x ∷ xs) [] s e = absurd (omega arith)
all-sym f (x ∷ xs) (y ∷ ys) s e = rw (s (some x) (some y), all-sym f xs ys s (omega arith)) refl

-- Two reads commute.
bind_swap {ℓ} :
    {A B : Type ℓ} (o : Option A) (o' : Option B) (f : A → B → Option Bool)
    → (o >>= λ a. o' >>= λ b. f a b) ≡ (o' >>= λ b. o >>= λ a. f a b)
bind_swap none none f = refl
bind_swap none (some b) f = refl
bind_swap (some a) none f = refl
bind_swap (some a) (some b) f = refl

never {ℓ} :
    {A : Type ℓ} (o : Option A) (f : A → Option Bool) → ((a : A) → f a ≡ none) → (o >>= f) ≡ none
never none f h = refl
never (some a) f h = h a

table-sym :
    (f : Compare) (st : Store) (p q : Pointer)
    → IsSymmetric f
    → AllTables st
    → is_compatible_symtable f st p q ≡ is_compatible_symtable f st q p
unfolding is_compatible_symtable table_at
table-sym f st none none s v = refl
table-sym f st none (some j) s v = sym (never (get_elem? st.tables j) (λ t. none) (λ t. refl))
table-sym f st (some i) none s v = never (get_elem? st.tables i) (λ t. none) (λ t. refl)
table-sym f st (some i) (some j) s v =
    tables_sym (get_elem? st.tables i) (get_elem? st.tables j) (v i) (v j)
  where
    sized :
        (t u : Symtable ℕ)
        → IsValid t
        → IsValid u
        → (if t.size == u.size then all_compatible f (values t) (values u) else some false)
          ≡ (if u.size == t.size then all_compatible f (values u) (values t) else some false)
    sized t u x y =
        ground (arith, all-sym f (values t) (values u) s, length-values t x, length-values u y)

    tables_sym :
        (o o' : Option (Symtable ℕ))
        → ((t : Symtable ℕ) → o ≡ some t → IsValid t)
        → ((t : Symtable ℕ) → o' ≡ some t → IsValid t)
        → (o >>= λ t. o' >>= λ u.
            if t.size == u.size then all_compatible f (values t) (values u) else some false)
          ≡ (o' >>= λ t. o >>= λ u.
              if t.size == u.size then all_compatible f (values t) (values u) else some false)
    tables_sym none none x y = refl
    tables_sym none (some u) x y = refl
    tables_sym (some t) none x y = refl
    tables_sym (some t) (some u) x y = sized t u (x t refl) (y u refl)

compare-sym :
    (f : Compare) (st : Store) (t1 t2 : SymbolType) (a b : ℕ) (s t : Symbol)
    → IsSymmetric f
    → AllTables st
    → compare_types f st t1 t2 a b s t ≡ compare_types f st t2 t1 b a t s
unfolding compare_types
compare-sym f st SymbolType.scalar_type SymbolType.scalar_type a b s t y v = ground arith
compare-sym f st SymbolType.pointer SymbolType.pointer a b s t y v = y s.base_type t.base_type
compare-sym f st SymbolType.function SymbolType.function a b s t y v =
    let flags : (s.flags == t.flags) ≡ (t.flags == s.flags) = ground arith in
    rw (y s.base_type t.base_type, table-sym f st s.symtable t.symtable y v, flags) refl
compare-sym f st SymbolType.struct_type SymbolType.struct_type a b s t y v =
    table-sym f st s.symtable t.symtable y v
compare-sym f st SymbolType.union_type SymbolType.union_type a b s t y v =
    table-sym f st s.symtable t.symtable y v
compare-sym f st SymbolType.variable SymbolType.scalar_type a b s t y v = refl
compare-sym f st SymbolType.global_variable SymbolType.scalar_type a b s t y v = refl
compare-sym f st SymbolType.field SymbolType.scalar_type a b s t y v = refl
compare-sym f st SymbolType.type_alias SymbolType.scalar_type a b s t y v = refl
compare-sym f st SymbolType.enum_type SymbolType.scalar_type a b s t y v = refl
compare-sym f st SymbolType.enum_const SymbolType.scalar_type a b s t y v = refl
compare-sym f st SymbolType.array SymbolType.scalar_type a b s t y v = refl
compare-sym f st SymbolType.parameter SymbolType.scalar_type a b s t y v = refl
compare-sym f st _ _ a b s t y v = refl

-- What is_compatible_types reads of its two types, in either order.
abbrev Comparison : Type 0
Comparison = SymbolType → SymbolType → ℕ → ℕ → Symbol → Symbol → Option Bool

loaded_swap :
    (x y : Option SymbolType) (u w : Option Symbol) (c d : ℕ) (k : Comparison)
    → ((t1 t2 : SymbolType) (c d : ℕ) (s t : Symbol) → k t1 t2 c d s t ≡ k t2 t1 d c t s)
    → (x >>= λ t1. y >>= λ t2. u >>= λ s. w >>= λ t. k t1 t2 c d s t)
      ≡ (y >>= λ t1. x >>= λ t2. w >>= λ s. u >>= λ t. k t1 t2 d c s t)
loaded_swap none none u w c d k h = refl
loaded_swap none (some t2) u w c d k h = refl
loaded_swap (some t1) none u w c d k h = refl
loaded_swap (some t1) (some t2) none none c d k h = refl
loaded_swap (some t1) (some t2) none (some t) c d k h = refl
loaded_swap (some t1) (some t2) (some s) none c d k h = refl
loaded_swap (some t1) (some t2) (some s) (some t) c d k h = h t1 t2 c d s t

resolved_swap :
    (x y : Pointer) (g : ℕ → Option SymbolType) (l : ℕ → Option Symbol) (k : Comparison)
    → ((t1 t2 : SymbolType) (c d : ℕ) (s t : Symbol) → k t1 t2 c d s t ≡ k t2 t1 d c t s)
    → (x >>= λ c. y >>= λ d. g c >>= λ t1. g d >>= λ t2. l c >>= λ s. l d >>= λ t. k t1 t2 c d s t)
      ≡ (y >>= λ c.
          x >>= λ d. g c >>= λ t1. g d >>= λ t2. l c >>= λ s. l d >>= λ t. k t1 t2 c d s t)
resolved_swap none none g l k h = refl
resolved_swap none (some d) g l k h = refl
resolved_swap (some c) none g l k h = refl
resolved_swap (some c) (some d) g l k h = loaded_swap (g c) (g d) (l c) (l d) c d k h

-- On a store whose tables are valid, is_compatible_types gives the same for two types in either
-- order, for every fuel.
pub compatible-sym :
    (n : ℕ) (st : Store)
    → AllTables st
    → (p q : Pointer) → is_compatible_types n st p q ≡ is_compatible_types n st q p
unfolding is_compatible_types
compatible-sym zero st v p q = refl
compatible-sym (suc n) st v none none = refl
compatible-sym (suc n) st v none (some b) = refl
compatible-sym (suc n) st v (some a) none = refl
compatible-sym (suc n) st v (some a) (some b) =
    resolved_swap (resolve_alias st (some a)) (resolve_alias st (some b))
      (λ c. get_generic_type st (some c)) (λ c. load st (some c))
      (compare_types (is_compatible_types n st) st)
      (λ t1 t2 c d s t.
        compare-sym (is_compatible_types n st) st t1 t2 c d s t (compatible-sym n st v) v)
