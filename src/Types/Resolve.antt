-- ===== src/Types/Resolve.antt =====
-- src/parser.c: resolve_alias, get_callable and get_generic_type.
use jacc.Common.{
  ℕ, zero, suc, ◌+◌, ◌<◌, ◌≤◌, Option, none, some, Bool, true, false, ◌||◌, if◌then◌else◌, length,
  ◌>>=◌, Bool-cases, Option-cases, ◌≡◌, refl, ap, ◌∙◌, sym, inl, inr, arith,
}
use jacc.Ast.{Pointer}
use jacc.Types.Symbols.{
  SymbolType, Symbol, Store, load, is_var_symbol, is_alias, is_pointer, is_function,
}

-- The condition of the loop of `resolve_alias`.
unfoldable pub is_indirect : SymbolType → Bool
unfolding is_alias is_var_symbol
is_indirect t = is_alias t || is_var_symbol t

-- The loop, with fuel; none also where a pointer is NULL or dangling.
unfoldable pub resolve_loop : ℕ → Store → Pointer → Pointer
resolve_loop zero st p = none
resolve_loop (suc n) st p = do
  s ← load st p
  let rest = resolve_loop n st s.base_type
  if is_indirect s.type then rest else p

-- A chain of aliases that does not end within as many steps as there are symbols never ends.
unfoldable pub resolve_alias : Store → Pointer → Pointer
unfolding resolve_loop
resolve_alias st p = resolve_loop (length st.symbols + 1) st p

-- The pointer NULL is some none here, and none a fault.
unfoldable pub get_callable : Store → Pointer → Option Pointer
unfolding load is_var_symbol is_pointer is_function
get_callable st none = some none
get_callable st (some a) = do
  s ← load st (some a)
  let called = (do
    base ← load st s.base_type
    let pointed = (do
      f ← load st base.base_type
      some (if is_function f.type then base.base_type else none))
    if is_pointer base.type then pointed else some none)
  if is_function s.type then some (some a) else if is_var_symbol s.type then called else some none

-- The switch of `get_generic_type`.
unfoldable pub generic : SymbolType → SymbolType
generic SymbolType.parameter = SymbolType.variable
generic SymbolType.global_variable = SymbolType.variable
generic SymbolType.field = SymbolType.variable
generic SymbolType.array = SymbolType.pointer
generic t = t

unfoldable pub get_generic_type : Store → Pointer → Option SymbolType
unfolding resolve_alias load generic
get_generic_type st p = do s ← load st (resolve_alias st p); some (generic s.type)

-- A symbol that is neither an alias nor a variable leads to itself.
pub resolve_alias_self :
    (st : Store) (a : ℕ) (s : Symbol)
    → load st (some a) ≡ some s
    → is_indirect s.type ≡ false
    → resolve_alias st (some a) ≡ some a
unfolding resolve_alias
resolve_alias_self st a s e i =
    let more : length st.symbols + 1 ≡ suc (length st.symbols) = omega arith in
    rw (more, resolve_loop, e, i) refl

-- Every alias and every variable has a base type in the store, of a smaller rank, and the ranks are
-- below the number of symbols: there are no cycles of aliases.
pub record IsGrounded (st : Store) : Type 0 where
  pub rank : ℕ → ℕ
  pub bounded : (a : ℕ) → rank a ≤ length st.symbols
  pub descends :
      (a : ℕ) (s : Symbol)
      → load st (some a) ≡ some s
      → is_indirect s.type ≡ true
      → (b : ℕ) × (t : Symbol) × (s.base_type ≡ some b)
        × (load st (some b) ≡ some t)
        × (rank b < rank a)

resolve_loop_total :
    (n : ℕ) (st : Store) (g : IsGrounded st) (a : ℕ) (s : Symbol)
    → load st (some a) ≡ some s
    → g.rank a < n
    → (b : ℕ) × (resolve_loop n st (some a) ≡ some b)
unfolding resolve_loop
resolve_loop_total zero st g a s e h = absurd (omega arith)
resolve_loop_total (suc n) st g a s e h = elim (Bool-cases (is_indirect s.type)) [
  | inl i ↦
      (let (b, t, base, l, lt) = g.descends a s e i in
        let (c, found) = resolve_loop_total n st g b t l (omega arith) in
        (c, rw (e, i, base) found))
  | inr i ↦ (a, rw (e, i) refl)
]

pub resolve_alias_total :
    (st : Store) (g : IsGrounded st) (a : ℕ) (s : Symbol)
    → load st (some a) ≡ some s
    → (b : ℕ) × (resolve_alias st (some a) ≡ some b)
unfolding resolve_alias
resolve_alias_total st g a s e =
    resolve_loop_total (length st.symbols + 1) st g a s e (omega (arith, g.bounded a))

-- The symbols that stand for their base type: typedef names, and variables of every kind.
abbrev pub Stands : SymbolType → Type 0
Stands SymbolType.type_alias = Unit
Stands SymbolType.variable = Unit
Stands SymbolType.global_variable = Unit
Stands SymbolType.field = Unit
Stands SymbolType.parameter = Unit
Stands _ = ⊥

-- From `p`, the base types of symbols that stand for them lead to the symbol at `a`.
pub data Leads (st : Store) : Pointer → ℕ → Type 0 where
  here : (a : ℕ) → Leads st (some a) a
  through :
      (p : Pointer) (s : Symbol) (a : ℕ)
      → load st p ≡ some s
      → Stands s.type
      → Leads st s.base_type a
      → Leads st p a

indirect-Stands : (t : SymbolType) → is_indirect t ≡ true → Stands t
unfolding is_indirect
indirect-Stands SymbolType.type_alias h = tt
indirect-Stands SymbolType.variable h = tt
indirect-Stands SymbolType.global_variable h = tt
indirect-Stands SymbolType.field h = tt
indirect-Stands SymbolType.parameter h = tt
indirect-Stands _ h = cc

direct-Stands : (t : SymbolType) → is_indirect t ≡ false → ¬ Stands t
unfolding is_indirect
direct-Stands SymbolType.type_alias h = cc
direct-Stands SymbolType.variable h = cc
direct-Stands SymbolType.global_variable h = cc
direct-Stands SymbolType.field h = cc
direct-Stands SymbolType.parameter h = cc
direct-Stands _ h = λ e. e

resolve_loop-Leads :
    (n : ℕ) (st : Store) (p : Pointer) (a : ℕ)
    → resolve_loop n st p ≡ some a
    → Leads st p a × (s : Symbol) × (load st (some a) ≡ some s) × (is_indirect s.type ≡ false)
unfolding resolve_loop
resolve_loop-Leads zero st p a e = cc
resolve_loop-Leads (suc n) st p a e = elim (Option-cases (load st p)) [
  | inl h ↦ absurd (ground arith)
  | inr (s, h) ↦ elim (Bool-cases (is_indirect s.type)) [
    | inl i ↦
        (let (leads, end, l, d) = resolve_loop-Leads n st s.base_type a (rw (h, i) at e) in
          (through p s a h (indirect-Stands s.type i) leads, end, l, d))
    | inr i ↦
        (let q : p ≡ some a = (rw (h, i) at e) in (rw q (here a), s, ap (load st) (sym q) ∙ h, i))
  ]
]

-- On a store without cycles of aliases, `resolve_alias` ends for every symbol of the store, with
-- the fuel that it is given. The base types of typedef names and of variables, fields and
-- parameters lead from the symbol to the result, which is none of these, so that a second call
-- leads to it again.
pub resolve_alias-Leads :
    (st : Store) (g : IsGrounded st) (a : ℕ) (s : Symbol)
    → load st (some a) ≡ some s
    → (b : ℕ) × (t : Symbol) × (resolve_alias st (some a) ≡ some b)
      × Leads st (some a) b
      × (load st (some b) ≡ some t)
      × (¬ Stands t.type)
      × (resolve_alias st (some b) ≡ some b)
unfolding resolve_alias
resolve_alias-Leads st g a s e =
    let (b, found) = resolve_alias_total st g a s e in
    let (leads, t, l, i) = resolve_loop-Leads (length st.symbols + 1) st (some a) b found in
    (b, t, found, leads, l, direct-Stands t.type i, resolve_alias_self st b t l i)
