-- ===== src/Types/Arithmetic/Common.antt =====
-- src/parser.c: the common type of two numbers.
use jacc.Common.{
  ℕ, none, some, Bool, true, false, ◌&&◌, ◌||◌, ◌==◌, if◌then◌else◌, ◌≡◌, refl, ap, sym, ◌∙◌, ◌⊎◌,
  inl, inr, arith,
}
use jacc.Ast.{Pointer}
use jacc.Types.Symbols.{
  SymbolType, Symbol, Store, load, is_enum_const, sym_int, sym_double, sym_char,
}
use jacc.Types.Arithmetic.{ordered_common_type, or_else, arith_common_type}

-- The symbols that `parser_init` puts at the addresses of int, double and char.
pub record HasBuiltins (st : Store) : Type 0 where
  pub int : Symbol
  pub int_at : load st (some sym_int) ≡ some int
  pub int_is : int.type ≡ SymbolType.scalar_type
  pub double : Symbol
  pub double_at : load st (some sym_double) ≡ some double
  pub double_is : double.type ≡ SymbolType.scalar_type
  pub char : Symbol
  pub char_at : load st (some sym_char) ≡ some char
  pub char_is : char.type ≡ SymbolType.scalar_type

-- The result of `ordered_common_type`, by what is known of the first symbol.
unfoldable chosen : Bool → ℕ → ℕ → Pointer
chosen enum s1 s2 =
    if enum && (s2 == sym_int || s2 == sym_char)
    then some sym_int
    else if s1 == sym_double && (s2 == sym_double || (s2 == sym_int || s2 == sym_char))
    then some sym_double
    else if s1 == sym_int && (s2 == sym_int || s2 == sym_char)
    then some sym_int
    else if s1 == sym_char && s2 == sym_char
    then some sym_char
    else none

abbrev IsPlain : Bool → ℕ → Type 0
IsPlain enum s = (s == sym_int || (s == sym_double || s == sym_char)) ≡ true → enum ≡ false

chosen-sym :
    (e1 e2 : Bool) (s1 s2 : ℕ)
    → IsPlain e1 s1
    → IsPlain e2 s2
    → or_else (chosen e1 s1 s2) (some (chosen e2 s2 s1))
      ≡ or_else (chosen e2 s2 s1) (some (chosen e1 s1 s2))
unfolding chosen or_else
chosen-sym e1 e2 s1 s2 p1 p2 = ground (arith, p1, p2)

ordered-chosen :
    (st : Store) (a b : ℕ) (s : Symbol)
    → load st (some a) ≡ some s
    → ordered_common_type st a b ≡ some (chosen (is_enum_const s.type) a b)
unfolding ordered_common_type chosen
ordered-chosen st a b s e = rw e refl

arith-chosen :
    (st : Store) (a b : ℕ) (s t : Symbol)
    → load st (some a) ≡ some s
    → load st (some b) ≡ some t
    → arith_common_type st a b
      ≡ or_else (chosen (is_enum_const s.type) a b) (some (chosen (is_enum_const t.type) b a))
unfolding arith_common_type
arith-chosen st a b s t x y = rw (ordered-chosen st a b s x, ordered-chosen st b a t y) refl

abbrev pub IsNumber : ℕ → Type 0
IsNumber c = (c ≡ sym_int) ⊎ ((c ≡ sym_double) ⊎ (c ≡ sym_char))

test-IsNumber : (a : ℕ) → (a == sym_int || (a == sym_double || a == sym_char)) ≡ true → IsNumber a
test-IsNumber a h = ground arith

-- int, double and char are scalar types.
pub builtin_scalar :
    (st : Store)
    → HasBuiltins st
    → (a : ℕ) → IsNumber a
    → (s : Symbol) × (load st (some a) ≡ some s) × (s.type ≡ SymbolType.scalar_type)
builtin_scalar st v a (inl e) = rw e (v.int, v.int_at, v.int_is)
builtin_scalar st v a (inr (inl e)) = rw e (v.double, v.double_at, v.double_is)
builtin_scalar st v a (inr (inr e)) = rw e (v.char, v.char_at, v.char_is)

-- The symbols of int, double and char are no constants of an enumeration.
builtin-IsPlain :
    (st : Store)
    → HasBuiltins st
    → (a : ℕ) (s : Symbol) → load st (some a) ≡ some s
    → IsPlain (is_enum_const s.type) a
unfolding is_enum_const
builtin-IsPlain st v a s e h =
    let (t, l, k) = builtin_scalar st v a (test-IsNumber a h) in
    let same : t ≡ s = cc in ap (λ u. is_enum_const u.type) (sym same) ∙ ap is_enum_const k

-- The common type of two numbers does not depend on their order.
pub arith_common_type-sym :
    (st : Store)
    → HasBuiltins st
    → (a b : ℕ) (s t : Symbol) → load st (some a) ≡ some s
    → load st (some b) ≡ some t
    → arith_common_type st a b ≡ arith_common_type st b a
arith_common_type-sym st v a b s t x y =
    arith-chosen st a b s t x y
    ∙ chosen-sym (is_enum_const s.type) (is_enum_const t.type) a b (builtin-IsPlain st v a s x)
        (builtin-IsPlain st v b t y)
    ∙ sym (arith-chosen st b a t s y x)

-- The common type of two numbers is int, double or char.
pub arith_common_type-IsNumber :
    (st : Store) (a b c : ℕ) → arith_common_type st a b ≡ some (some c) → IsNumber c
unfolding arith_common_type or_else ordered_common_type
arith_common_type-IsNumber st a b c e = ground arith
