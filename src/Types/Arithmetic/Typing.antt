-- ===== src/Types/Arithmetic/Typing.antt =====
-- src/parser.c: the type that an operator gets.
use jacc.Common.{
  ℕ, suc, Option, none, some, Bool, true, false, ◌&&◌, ◌||◌, if◌then◌else◌, ◌>>=◌, >>=-some, ◌≡◌,
  ◌≢◌, refl, ◌⊎◌, inl, inr, arith,
}
use jacc.Ast.{NodeType, Node, binary}
use jacc.Ast.Info.{type_sym}
use jacc.Types.Symbols.{Store, tests, is_ptr_type, sym_int, sym_double}
use jacc.Types.Resolve.{resolve_alias}
use jacc.Types.Compatible.{is_compatible_types}
use jacc.Types.Arithmetic.{
  is_int_only_node_type, is_cmp_node_type, compares_pointers, is_add, is_comma, set_arithmetic,
  set_resolved, set_binary_expr_type,
}
use jacc.Types.Arithmetic.Common.{HasBuiltins, IsNumber}
use jacc.Types.Arithmetic.Operands.{IsOver, arithmetic-IsOver, no_double}

module _ (fuel : ℕ) (st : Store) (builtins : HasBuiltins st) where
  -- A successful result of `set_binary_expr_type` away from the comma comes of the resolved types.
  resolved_types :
      (type : NodeType) (a b n : Node)
      → is_comma type ≡ false
      → set_binary_expr_type (suc fuel) st type a b ≡ some (some n)
      → (t1 : ℕ) × (t2 : ℕ) × (set_resolved (suc fuel) st type a b t1 t2 ≡ some (some n))
  unfolding set_binary_expr_type
  resolved_types type a b n c e =
      let (t1, h1, e1) = >>=-some (resolve_alias st (type_sym a)) _ (known _ _ (rw c at e)) in
      let (t2, h2, e2) = >>=-some (resolve_alias st (type_sym b)) _ e1 in (t1, t2, e2)
    where
      known :
          (b : Bool) (x : Option (Option Node))
          → (if b then some none else x) ≡ some (some n)
          → x ≡ some (some n)
      known b x e = ground arith

  -- Away from `+`, the types are compatible pointers that are compared, or numbers.
  no_sum :
      (type : NodeType) (a b n : Node) (t1 t2 : ℕ)
      → is_add type ≡ false
      → set_resolved (suc fuel) st type a b t1 t2 ≡ some (some n)
      → ((compares_pointers type ≡ true) × (n ≡ binary type (some sym_int) a b))
        ⊎ (set_arithmetic (suc fuel) st type a b t1 t2 ≡ some (some n))
  unfolding set_resolved
  no_sum type a b n t1 t2 add e =
      let (p1, h1, e1) = >>=-some (tests st is_ptr_type (some t1)) _ e in
      let (p2, h2, e2) = >>=-some (tests st is_ptr_type (some t2)) _ e1 in
      branches (compares_pointers type) (is_add type) (p1 && p2) (p1 || p2) _ _ add e2
    where
      same_types :
          (o : Option Bool)
          → (o >>= λ same. some (if same then some (binary type (some sym_int) a b) else none))
            ≡ some (some n)
          → n ≡ binary type (some sym_int) a b
      same_types none e = cc
      same_types (some true) e = cc
      same_types (some false) e = cc

      branches :
          (c d both any : Bool) (y z : Option (Option Node))
          → d ≡ false
          → (if c && both
              then (is_compatible_types (suc fuel) st (some t1) (some t2) >>= λ same.
                  some (if same then some (binary type (some sym_int) a b) else none))
              else if d && any
              then y
              else z)
            ≡ some (some n)
          → ((c ≡ true) × (n ≡ binary type (some sym_int) a b)) ⊎ (z ≡ some (some n))
      branches true d true any y z h e = inl (refl, same_types _ e)
      branches true d false any y z h e = inr (rw h at e)
      branches false d both any y z h e = inr (rw h at e)

  -- Where it succeeds for an operator other than the comma, `+`, `-`, `==` and `!=`, it makes the
  -- node over two operands that fit one of int, double and char; the node is of the type int if the
  -- operator is a comparison or logical, and else of that type.
  pub binary_expr-IsOver :
      (type : NodeType) (a b n : Node)
      → (is_comma type || (compares_pointers type || is_add type)) ≡ false
      → set_binary_expr_type (suc fuel) st type a b ≡ some (some n)
      → (c : ℕ) × IsNumber c × IsOver fuel st builtins type n c
  binary_expr-IsOver type a b n plain e =
      let comma : is_comma type ≡ false = ground arith in
      let add : is_add type ≡ false = ground arith in
      let (t1, t2, r) = resolved_types type a b n comma e in
      elim (no_sum type a b n t1 t2 add r) [
        | inl (pointers, made) ↦ absurd (ground arith)
        | inr x ↦ arithmetic-IsOver fuel st builtins type a b n t1 t2 x
      ]

  cmp_plain : (t : NodeType) → is_cmp_node_type t ≡ true → (is_comma t ≡ false) × (is_add t ≡ false)
  unfolding is_cmp_node_type is_comma is_add
  cmp_plain NodeType.comma_node e = cc
  cmp_plain NodeType.add_node e = cc
  cmp_plain _ e = (refl, refl)

  over_int :
      (type : NodeType) (n : Node) (c : ℕ)
      → is_cmp_node_type type ≡ true
      → IsOver fuel st builtins type n c
      → type_sym n ≡ some sym_int
  unfolding type_sym
  over_int type n c e o = rw (o.made, e) refl

  -- Where it succeeds for a comparison or a logical operator, of numbers or of pointers, the node is
  -- of the type int.
  pub comparison_int :
      (type : NodeType) (a b n : Node)
      → is_cmp_node_type type ≡ true
      → set_binary_expr_type (suc fuel) st type a b ≡ some (some n)
      → type_sym n ≡ some sym_int
  unfolding type_sym
  comparison_int type a b n cmp e =
      let (comma, add) = cmp_plain type cmp in
      let (t1, t2, r) = resolved_types type a b n comma e in
      elim (no_sum type a b n t1 t2 add r) [
        | inl (pointers, made) ↦ rw made refl
        | inr x ↦
            (let (c, number, o) = arithmetic-IsOver fuel st builtins type a b n t1 t2 x in
              over_int type n c cmp o)
      ]

  int_only_plain :
      (t : NodeType)
      → is_int_only_node_type t ≡ true
      → (is_comma t || (compares_pointers t || is_add t)) ≡ false
  unfolding is_int_only_node_type is_comma is_add compares_pointers
  int_only_plain NodeType.comma_node e = cc
  int_only_plain NodeType.add_node e = cc
  int_only_plain NodeType.sub_node e = cc
  int_only_plain NodeType.eq_node e = cc
  int_only_plain NodeType.ne_node e = cc
  int_only_plain _ e = refl

  -- Where it succeeds for an operator on integers alone, the node is not of the type double.
  pub int_only-ne-double :
      (type : NodeType) (a b n : Node)
      → is_int_only_node_type type ≡ true
      → set_binary_expr_type (suc fuel) st type a b ≡ some (some n)
      → type_sym n ≢ some sym_double
  int_only-ne-double type a b n only e =
      let plain = int_only_plain type only in
      let comma : is_comma type ≡ false = ground arith in
      let add : is_add type ≡ false = ground arith in
      let (t1, t2, r) = resolved_types type a b n comma e in
      elim (no_sum type a b n t1 t2 add r) [
        | inl (pointers, made) ↦ absurd (ground arith)
        | inr x ↦ no_double fuel st builtins type a b n t1 t2 only x
      ]
