-- ===== src/Types/Arithmetic/Operands.antt =====
-- src/parser.c: the operands of an operator after its type was set.
use jacc.Common.{
  ℕ, suc, Option, none, some, Bool, true, false, ◌&&◌, ==_iff, if◌then◌else◌, ◌>>=◌, >>=-some,
  Bool-cases, Option-cases, ◌≡◌, ◌≢◌, refl, ap, sym, ◌∙◌, inl, inr, arith,
}
use jacc.Ast.{NodeType, Pointer, Node, unary, binary}
use jacc.Ast.Info.{type_sym}
use jacc.Types.Symbols.{SymbolType, Store, sym_int, sym_double}
use jacc.Types.Resolve.{is_indirect, resolve_alias, generic, get_generic_type, resolve_alias_self}
use jacc.Types.Compatible.{is_compatible_types, compare_types}
use jacc.Types.Arithmetic.{
  arith_common_type, is_int_only_node_type, is_cmp_node_type, is_logical, is_sym, implicit_cast_to,
  convert_ops_to, set_arithmetic,
}
use jacc.Types.Arithmetic.Common.{HasBuiltins, IsNumber, builtin_scalar, arith_common_type-IsNumber}

module _ (fuel : ℕ) (st : Store) (builtins : HasBuiltins st) where
  number_direct : (c : ℕ) → IsNumber c → resolve_alias st (some c) ≡ some c
  unfolding is_indirect
  number_direct c n =
      let (s, l, scalar) = builtin_scalar st builtins c n in
      resolve_alias_self st c s l (ap is_indirect scalar)

  number_generic : (c : ℕ) → IsNumber c → get_generic_type st (some c) ≡ some SymbolType.scalar_type
  unfolding get_generic_type generic
  number_generic c n =
      let (s, l, scalar) = builtin_scalar st builtins c n in rw (number_direct c n, l, scalar) refl

  -- int, double and char are each compatible with themselves.
  number_compatible :
      (c : ℕ) → IsNumber c → is_compatible_types (suc fuel) st (some c) (some c) ≡ some true
  unfolding is_compatible_types compare_types
  number_compatible c n =
      let (s, l, scalar) = builtin_scalar st builtins c n in
      rw (number_direct c n, number_generic c n, l, (==_iff c c).1 refl) refl

  -- What an operand is turned into has a type that is compatible with the wanted one.
  cast_compatible :
      (c : ℕ) (a a' : Node)
      → IsNumber c
      → implicit_cast_to (suc fuel) st c a ≡ some a'
      → is_compatible_types (suc fuel) st (resolve_alias st (type_sym a')) (some c) ≡ some true
  unfolding implicit_cast_to type_sym
  cast_compatible c a a' n e =
      elim (Option-cases
        (is_compatible_types (suc fuel) st (resolve_alias st (type_sym a)) (some c))) [
          | inl h ↦ absurd (cc (rw h at e))
          | inr (true, h) ↦ (let same : a ≡ a' = cc (rw h at e) in rw (← same) h)
          | inr (false, h) ↦
              (let new : unary NodeType.cast_node (some c) a ≡ a' = cc (rw h at e) in
                rw (← new, number_direct c n) (number_compatible c n))
        ]

  -- `a` is of a type that is compatible with `c`.
  abbrev pub Fits : ℕ → Node → Type 0
  Fits c a = is_compatible_types (suc fuel) st (resolve_alias st (type_sym a)) (some c) ≡ some true

  converted :
      (c : ℕ) (a b a' b' : Node)
      → IsNumber c
      → convert_ops_to (suc fuel) st (some c) a b ≡ some (some (a', b'))
      → Fits c a' × Fits c b'
  unfolding convert_ops_to
  converted c a b a' b' n e =
      let (x, h, e1) = >>=-some (implicit_cast_to (suc fuel) st c a) _ e in
      let (y, k, e2) = >>=-some (implicit_cast_to (suc fuel) st c b) _ e1 in
      let first : x ≡ a' = cc in
      let second : y ≡ b' = cc in
      (cast_compatible c a a' n (rw (← first) h), cast_compatible c b b' n (rw (← second) k))

  -- The node of the type `type` over operands of the number `c`.
  pub record IsOver (type : NodeType) (n : Node) (c : ℕ) : Type 0 where
    pub left : Node
    pub right : Node
    pub made : n ≡ binary type (if is_cmp_node_type type then some sym_int else some c) left right
    pub left_fits : Fits c left
    pub right_fits : Fits c right

  -- The node that is made once the operands are converted to `target`.
  made_of :
      (type : NodeType) (a b n : Node) (target type_of : Pointer)
      → (convert_ops_to (suc fuel) st target a b >>= λ ops.
          some (elim ops [ none ↦ none | some (l, r) ↦ some (binary type type_of l r) ]))
        ≡ some (some n)
      → (c : ℕ) × (l : Node) × (r : Node) × (target ≡ some c)
        × (convert_ops_to (suc fuel) st (some c) a b ≡ some (some (l, r)))
        × (n ≡ binary type type_of l r)
  unfolding convert_ops_to
  made_of type a b n none type_of e = absurd (ground arith)
  made_of type a b n (some c) type_of e =
      let (ops, h, made) = >>=-some (convert_ops_to (suc fuel) st (some c) a b) _ e in
      pair ops h made
    where
      pair :
          (ops : Option (Node × Node))
          → convert_ops_to (suc fuel) st (some c) a b ≡ some ops
          → some (elim ops [ none ↦ none | some (l, r) ↦ some (binary type type_of l r) ])
            ≡ some (some n)
          → (c' : ℕ) × (l : Node) × (r : Node) × (some c ≡ some c')
            × (convert_ops_to (suc fuel) st (some c') a b ≡ some (some (l, r)))
            × (n ≡ binary type type_of l r)
      pair none h e = cc
      pair (some (l, r)) h e = (c, l, r, refl, h, cc)

  logical_cmp : (t : NodeType) → is_logical t ≡ true → is_cmp_node_type t ≡ true
  unfolding is_logical is_cmp_node_type
  logical_cmp NodeType.or_node e = refl
  logical_cmp NodeType.and_node e = refl
  logical_cmp _ e = ground arith

  -- The common type stands for both: the operands of a logical operator are converted to int.
  target-IsNumber :
      (type : NodeType) (t1 t2 c : ℕ) (common : Pointer)
      → arith_common_type st t1 t2 ≡ some common
      → (if is_logical type then some sym_int else common) ≡ some c
      → IsNumber c
        × ((if is_cmp_node_type type then some sym_int else common)
            ≡ (if is_cmp_node_type type then some sym_int else some c))
  target-IsNumber type t1 t2 c common h t = elim (Bool-cases (is_logical type)) [
    | inl l ↦ (inl (cc (rw l at t)), rw (logical_cmp type l) refl)
    | inr l ↦
        (let e : common ≡ some c = (rw l at t) in
          (arith_common_type-IsNumber st t1 t2 c (h ∙ ap some e), rw e refl))
  ]

  pub arithmetic-IsOver :
      (type : NodeType) (a b n : Node) (t1 t2 : ℕ)
      → set_arithmetic (suc fuel) st type a b t1 t2 ≡ some (some n)
      → (c : ℕ) × IsNumber c × IsOver type n c
  unfolding set_arithmetic
  arithmetic-IsOver type a b n t1 t2 e =
      let (common, h, e1) = >>=-some (arith_common_type st t1 t2) _ e in
      let (c, l, r, t, conv, made) = made_of type a b n _ _ (succeeds _ _ e1) in
      let (number, typed) = target-IsNumber type t1 t2 c common h t in
      let (left, right) = converted c a b l r number conv in
      (
        c,
        number,
        record {
          left = l;
          right = r;
          made = made ∙ ap (λ p. binary type p l r) typed;
          left_fits = left;
          right_fits = right;
        },
      )
    where
      succeeds :
          (b : Bool) (x : Option (Option Node))
          → (if b then some none else x) ≡ some (some n)
          → x ≡ some (some n)
      succeeds b x e = ground arith

  pub no_double :
      (type : NodeType) (a b n : Node) (t1 t2 : ℕ)
      → is_int_only_node_type type ≡ true
      → set_arithmetic (suc fuel) st type a b t1 t2 ≡ some (some n)
      → type_sym n ≢ some sym_double
  unfolding set_arithmetic type_sym
  no_double type a b n t1 t2 only e double =
      let (common, h, e1) = >>=-some (arith_common_type st t1 t2) _ e in
      let (checked, e2) = passes _ _ _ only e1 in
      let (c, l, r, t, conv, made) =
        made_of type a b n (if is_logical type then some sym_int else common)
          (if is_cmp_node_type type then some sym_int else common) e2 in
      refused _ (ap type_sym (sym made) ∙ double) checked
    where
      passes :
          (d i : Bool) (x : Option (Option Node))
          → i ≡ true
          → (if d && i then some none else x) ≡ some (some n)
          → (d ≡ false) × (x ≡ some (some n))
      passes d i x h e = ground arith

      refused : (p : Pointer) → p ≡ some sym_double → is_sym p sym_double ≢ false
      refused p e h = ground arith
