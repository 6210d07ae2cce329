-- ===== src/Generator/ExprBalance.antt =====
-- src/generator.c: `generate_expr` keeps the stack balanced.
use jacc.Common.{ℕ, ◌+◌, some, Bool, true, ◌≡◌, refl, ◌∙◌, ap, arith}
use jacc.Ast.{
  NodeType, Pointer, Node, Nodes, null, leaf, unary, binary, ternary, quaternary, int_value,
  double_value, text, list, var, cons,
}
use jacc.Ast.Info.{category, node_type, type_sym, repr}
use jacc.Generator.Operands.{constant}
use jacc.Generator.Settings.{Settings, blank_operand}
use jacc.Generator.Lvalues.{variable_lvalue, member_lvalue, other_lvalue}
use jacc.Generator.Cases.{unary_operator, binary_operator}
use jacc.Generator.Expressions.{
  Parts, items_of, unary_code, call_node_code, binary_code, lvalue_unary, lvalue_binary,
  generate_expr, lvalue, push_items, push_arguments_of,
}
use jacc.Generator.Steps.{Moves, Pushes, Locates, push_when, push_typed-Moves}
use jacc.Generator.LvalueBalance.{
  variable-Locates, dereference-Locates, member-Locates, other_lvalue-Locates,
}
use jacc.Generator.CaseBalance.{
  text-Moves, double-Moves, dereference-Moves, reference-Moves, member-Moves, unary-Moves,
  binary-Moves, arithmetic-Moves, comparison-Moves,
}
use jacc.Generator.AssignBalance.{
  pointer_add-Moves, int_add-Moves, double_add-Moves, assign_word-Moves, assign_double-Moves,
}
use jacc.Generator.CallBalance.{
  widen-Pushes, narrow-Pushes, word_cast-Pushes, call_word-Moves, call_double-Moves,
}
use jacc.Generator.Balanced.{
  is_unary_operator, is_binary_operator, has_no_lvalue, Value, Arguments, Address,
}

module _ (g : Settings) where
  pub unary_falls :
      (t : NodeType) (p : Pointer) (a : Parts) (ret : Bool)
      → is_unary_operator t ≡ true
      → unary_code g t p a ret ≡ unary_operator g t (type_sym a.node) a.value a.address ret
  unfolding unary_code is_unary_operator category
  unary_falls _ p a ret e = ground arith

  pub binary_falls :
      (t : NodeType) (p : Pointer) (a b : Parts) (ret : Bool)
      → is_binary_operator t ≡ true
      → binary_code g t p a b ret ≡ binary_operator g t (type_sym a.node) a.value b.value ret
  unfolding binary_code is_binary_operator category
  binary_falls _ p a b ret e = ground arith

  unary_lvalue :
      (t : NodeType) (p : Pointer) (a : Node)
      → has_no_lvalue (unary t p a) ≡ true
      → lvalue g (unary t p a) ≡ other_lvalue g (repr t)
  unfolding lvalue lvalue_unary has_no_lvalue
  unary_lvalue NodeType.dereference_node p a e = cc
  unary_lvalue _ p a e = refl

  binary_lvalue :
      (t : NodeType) (p : Pointer) (a b : Node)
      → has_no_lvalue (binary t p a b) ≡ true
      → lvalue g (binary t p a b) ≡ other_lvalue g (repr t)
  unfolding lvalue lvalue_binary has_no_lvalue
  binary_lvalue NodeType.member_node p a b e = cc
  binary_lvalue _ p a b e = refl

  -- Where `lvalue` has no case, it leaves the stack as it was.
  no_case-Locates : (n : Node) → has_no_lvalue n ≡ true → Locates g (lvalue g n)
  unfolding lvalue has_no_lvalue node_type
  no_case-Locates null e = cc
  no_case-Locates (leaf t p) e = other_lvalue-Locates g (repr t)
  no_case-Locates (unary t p a) e = rw (unary_lvalue t p a e) (other_lvalue-Locates g (repr t))
  no_case-Locates (binary t p a b) e =
      rw (binary_lvalue t p a b e) (other_lvalue-Locates g (repr t))
  no_case-Locates (ternary t p a b c) e = other_lvalue-Locates g (repr t)
  no_case-Locates (quaternary t p a b c d) e = other_lvalue-Locates g (repr t)
  no_case-Locates (int_value p n) e = other_lvalue-Locates g (repr NodeType.int_node)
  no_case-Locates (double_value p d) e = other_lvalue-Locates g (repr NodeType.double_node)
  no_case-Locates (text t p s) e = other_lvalue-Locates g (repr t)
  no_case-Locates (list p ns) e = other_lvalue-Locates g (repr NodeType.list_node)
  no_case-Locates (var p a) e = cc

  mutual
    unfolding generate_expr lvalue push_items push_arguments_of unary_code binary_code
        call_node_code items_of lvalue_unary lvalue_binary

    pub Value-Pushes : {n : Node} {w : ℕ} → Value g n w → Pushes g (λ r. generate_expr g n r) w
    Value-Pushes (Value.int {p} {n}) k = push_when g true (constant (blank_operand g) n) k
    Value-Pushes (Value.string {p} {s}) k = text-Moves g s true k
    Value-Pushes (Value.double {p} {d} {w} v) k = double-Moves g p d w true k v
    Value-Pushes (Value.variable {p} {a} {w} v) k = record {
      apply = λ h c e.
          (push_typed-Moves g (variable_lvalue g a c).0 p w true k v).apply h
            (variable_lvalue g a c).1 ((variable-Locates g a k).apply h c e);
    }
    Value-Pushes (Value.dereference {p} {a} {w} v l) k =
        dereference-Moves g p (λ r. generate_expr g a r) w true k v (Value-Pushes l)
    Value-Pushes (Value.reference {p} {a} l) k =
        reference-Moves g (lvalue g a) true k (Address-Locates l)
    Value-Pushes (Value.member {p} {a} {b} {w} v l) k =
        member-Moves g p (member_lvalue g (lvalue g a) (type_sym b)) w true k v
          (member-Locates g (lvalue g a) (type_sym b) (Address-Locates l))
    Value-Pushes (Value.unary_int {t} {p} {a} u i l m) k = rw (unary_falls t p _ true u) (
        unary-Moves g t (type_sym a) (λ r. generate_expr g a r) (lvalue g a) true k i
          (Value-Pushes l) (Address-Locates m))
    Value-Pushes (Value.binary_int {t} {p} {a} {b} u i l m) k = rw (binary_falls t p _ _ true u) (
        binary-Moves g t (type_sym a) (λ r. generate_expr g a r) (λ r. generate_expr g b r) true k i
          (Value-Pushes l) (Value-Pushes m))
    Value-Pushes (Value.binary_double {t} {p} {a} {b} u x i l m) k =
        rw (binary_falls t p _ _ true u) (
          arithmetic-Moves g t (type_sym a) (λ r. generate_expr g a r) (λ r. generate_expr g b r)
            true k x i (Value-Pushes l) (Value-Pushes m))
    Value-Pushes (Value.comparison {t} {p} {a} {b} u x i l m) k = rw (binary_falls t p _ _ true u) (
        comparison-Moves g t (type_sym a) (λ r. generate_expr g a r) (λ r. generate_expr g b r) k x
          i (Value-Pushes l) (Value-Pushes m))
    Value-Pushes (Value.pointer_sum {p} {a} {b} v l m) k =
        pointer_add-Moves g (type_sym a) (λ r. generate_expr g a r) (λ r. generate_expr g b r) true
          k v (Value-Pushes l) (Value-Pushes m)
    Value-Pushes (Value.int_sum {p} {a} {b} v i l m) k =
        int_add-Moves g (type_sym a) (λ r. generate_expr g a r) (λ r. generate_expr g b r) true k v
          i (Value-Pushes l) (Value-Pushes m)
    Value-Pushes (Value.double_sum {p} {a} {b} v i l m) k =
        double_add-Moves g (type_sym a) (λ r. generate_expr g a r) (λ r. generate_expr g b r) true k
          v i (Value-Pushes l) (Value-Pushes m)
    Value-Pushes (Value.assign_word {p} {a} {b} {t} e d l m) k =
        assign_word-Moves g (type_sym a) (lvalue g a) (λ r. generate_expr g b r) t true k e d
          (Address-Locates l) (Value-Pushes m)
    Value-Pushes (Value.assign_double {p} {a} {b} i l m) k =
        assign_double-Moves g (type_sym a) (lvalue g a) (λ r. generate_expr g b r) true k i
          (Address-Locates l) (Value-Pushes m)
    Value-Pushes (Value.widen {p} {a} t d l) k =
        widen-Pushes g t (λ r. generate_expr g a r) refl d (Value-Pushes l) k
    Value-Pushes (Value.narrow {p} {a} t d i l) k =
        narrow-Pushes g t (λ r. generate_expr g a r) refl d i (Value-Pushes l) k
    Value-Pushes (Value.word_cast {p} {a} {to} {of} {w} t d e l) k =
        word_cast-Pushes g t (λ r. generate_expr g a r) w d e (Value-Pushes l) k
    Value-Pushes (Value.call_word {p} {q} {a} {ns} t l) k =
        call_word-Moves g t (push_items g ns) (Arguments-pushed l) true k refl
    Value-Pushes (Value.call_double {p} {q} {a} {ns} t d l) k =
        call_double-Moves g t (push_items g ns) (Arguments-pushed l) true k refl d

    pub Arguments-pushed :
        {ns : Nodes} {m : ℕ} → Arguments g ns m → (k : ℕ) → Moves g (push_items g ns) k (k + m)
    Arguments-pushed Arguments.no_argument k = record { apply = λ h c e. e ∙ ap some (omega arith) }
    Arguments-pushed (Arguments.argument {n} {ns} {m} {w} v l) k =
        let all : k + m + w ≡ k + (m + w) = omega arith in
        let both : Moves g (push_items g (cons n ns)) k (k + m + w) = record {
          apply = λ h c e.
              (Value-Pushes v (k + m)).apply h (push_items g ns c)
                ((Arguments-pushed l k).apply h c e);
        } in
        rw all at both

    pub Address-Locates : {n : Node} → Address g n → Locates g (lvalue g n)
    Address-Locates (Address.variable_at {p} {a}) = variable-Locates g a
    Address-Locates (Address.pointer_at {p} {a} l) =
        dereference-Locates g (λ r. generate_expr g a r) (Value-Pushes l)
    Address-Locates (Address.field_at {p} {a} {b} l) =
        member-Locates g (lvalue g a) (type_sym b) (Address-Locates l)
    Address-Locates (Address.no_place {n} e) = no_case-Locates n e

  -- The code of a tree of the class Value with `w` bytes takes a stack of `k` bytes to one of `k + w`
  -- bytes, whatever the code in front of it, its commands counted in the order in which they stand.
  pub value-Pushes :
      (n : Node) (w : ℕ) → Value g n w → (k : ℕ) → Moves g (generate_expr g n true) k (k + w)
  value-Pushes n w v k = Value-Pushes v k
