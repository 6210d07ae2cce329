-- ===== src/Types/Compatible/Fuel.antt =====
-- src/parser.c: the result of is_compatible_types does not depend on the fuel, once there is one.
use jacc.Common.{
  ℕ, zero, suc, ◌+◌, Option, none, some, List, [], ◌∷◌, Bool, true, false, ◌==◌, if◌then◌else◌,
  ◌>>=◌, ◌≡◌, refl, arith,
}
use jacc.Ast.{Pointer}
use jacc.Types.Symbols.{SymbolType, Symbol, Store, load}
use jacc.Types.Resolve.{resolve_alias, get_generic_type}
use jacc.Types.Compatible.{
  Compare, values, all_compatible, table_at, is_compatible_symtable, compare_types,
  is_compatible_types,
}

-- Every result of the first is one of the second.
abbrev Within : Compare → Compare → Type 0
Within f g = (p q : Pointer) (r : Bool) → f p q ≡ some r → g p q ≡ some r

-- A bind whose parts grow.
bind_within {ℓ} :
    {A : Type ℓ} (o o' : Option A) (f f' : A → Option Bool) (r : Bool)
    → ((a : A) → o ≡ some a → o' ≡ some a)
    → ((a : A) → f a ≡ some r → f' a ≡ some r)
    → (o >>= f) ≡ some r
    → (o' >>= f') ≡ some r
bind_within none o' f f' r ho hf e = absurd (ground arith)
bind_within (some a) o' f f' r ho hf e = rw (ho a refl) (hf a e)

all-Within :
    (f g : Compare) (xs ys : List ℕ) (r : Bool)
    → Within f g
    → all_compatible f xs ys ≡ some r
    → all_compatible g xs ys ≡ some r
unfolding all_compatible
all-Within f g [] ys r w e = e
all-Within f g (x ∷ xs) [] r w e = e
all-Within f g (x ∷ xs) (y ∷ ys) r w e =
    bind_within (f (some x) (some y)) (g (some x) (some y))
      (λ b. if b then all_compatible f xs ys else some false)
      (λ b. if b then all_compatible g xs ys else some false) r (w (some x) (some y))
      (step (all-Within f g xs ys r w)) e
  where
    step :
        (all_compatible f xs ys ≡ some r → all_compatible g xs ys ≡ some r)
        → (b : Bool) → (if b then all_compatible f xs ys else some false) ≡ some r
        → (if b then all_compatible g xs ys else some false) ≡ some r
    step h true e = h e
    step h false e = e

table-Within :
    (f g : Compare) (st : Store) (p q : Pointer) (r : Bool)
    → Within f g
    → is_compatible_symtable f st p q ≡ some r
    → is_compatible_symtable g st p q ≡ some r
unfolding is_compatible_symtable
table-Within f g st p q r w =
    bind_within (table_at st p) (table_at st p) _ _ r (λ a e. e)
      λ s1.
        bind_within (table_at st q) (table_at st q) _ _ r (λ a e. e)
          λ s2. sized s1.size s2.size (values s1) (values s2)
  where
    sized :
        (m n : ℕ) (xs ys : List ℕ)
        → (if m == n then all_compatible f xs ys else some false) ≡ some r
        → (if m == n then all_compatible g xs ys else some false) ≡ some r
    sized m n xs ys e = ground (arith, all-Within f g xs ys r w)

-- What follows the comparison of the results of two functions.
base-Within :
    (f g : Compare) (st : Store) (s t : Symbol) (r : Bool)
    → Within f g
    → (b : Bool)
    → (if b
        then if s.flags == t.flags
          then is_compatible_symtable f st s.symtable t.symtable
          else some false
        else some false)
      ≡ some r
    → (if b
        then if s.flags == t.flags
          then is_compatible_symtable g st s.symtable t.symtable
          else some false
        else some false)
      ≡ some r
base-Within f g st s t r w true e = ground (arith, table-Within f g st s.symtable t.symtable r w)
base-Within f g st s t r w false e = e

compare-Within :
    (f g : Compare) (st : Store) (t1 t2 : SymbolType) (a b : ℕ) (s t : Symbol) (r : Bool)
    → Within f g
    → compare_types f st t1 t2 a b s t ≡ some r
    → compare_types g st t1 t2 a b s t ≡ some r
unfolding compare_types
compare-Within f g st SymbolType.pointer SymbolType.pointer a b s t r w e =
    w s.base_type t.base_type r e
compare-Within f g st SymbolType.function SymbolType.function a b s t r w e =
    bind_within (f s.base_type t.base_type) (g s.base_type t.base_type) _ _ r
      (w s.base_type t.base_type) (base-Within f g st s t r w) e
compare-Within f g st SymbolType.struct_type SymbolType.struct_type a b s t r w e =
    table-Within f g st s.symtable t.symtable r w e
compare-Within f g st SymbolType.union_type SymbolType.union_type a b s t r w e =
    table-Within f g st s.symtable t.symtable r w e
compare-Within f g st _ _ a b s t r w e = e

-- The same, where the first part stays as it is.
keep {ℓ} :
    {A : Type ℓ} (o : Option A) (f g : A → Option Bool) (r : Bool)
    → ((a : A) → f a ≡ some r → g a ≡ some r)
    → (o >>= f) ≡ some r
    → (o >>= g) ≡ some r
keep o f g r h = bind_within o o f g r (λ a e. e) h

-- One more unit of fuel keeps a result.
types-Within :
    (n : ℕ) (st : Store) → Within (is_compatible_types n st) (is_compatible_types (suc n) st)
unfolding is_compatible_types
types-Within zero st p q r = λ e. absurd (ground arith)
types-Within (suc n) st none q r = λ e. e
types-Within (suc n) st (some a) none r = λ e. e
types-Within (suc n) st (some a) (some b) r = keep (resolve_alias st (some a)) _ _ r λ a'.
    keep (resolve_alias st (some b)) _ _ r λ b'. keep (get_generic_type st (some a')) _ _ r λ t1.
      keep (get_generic_type st (some b')) _ _ r λ t2. keep (load st (some a')) _ _ r λ s.
        keep (load st (some b')) _ _ r λ t.
          compare-Within (is_compatible_types n st) (is_compatible_types (suc n) st) st t1 t2 a' b'
            s t r (types-Within n st)

-- A result that is_compatible_types has with some fuel it has with every larger fuel, so it depends
-- on the store and the two types alone.
pub compatible_fuel :
    (n k : ℕ) (st : Store) (p q : Pointer) (r : Bool)
    → is_compatible_types n st p q ≡ some r
    → is_compatible_types (k + n) st p q ≡ some r
compatible_fuel n zero st p q r e = let same : 0 + n ≡ n = omega arith in rw same e
compatible_fuel n (suc k) st p q r e =
    let next : suc k + n ≡ suc (k + n) = omega arith in
    rw next (types-Within (k + n) st p q r (compatible_fuel n k st p q r e))
