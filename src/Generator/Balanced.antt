-- ===== src/Generator/Balanced.antt =====
-- src/generator.c: the trees whose code keeps the stack balanced, by the types of their nodes.
use jacc.Common.{ℕ, ◌+◌, some, Bytes, Bool, true, false, ◌==◌, ◌≡◌}
use jacc.Ast.{
  NodeType, NodeCategory, Pointer, Node, Nodes, null, unary, binary, int_value, double_value, text,
  list, var, nil, cons,
}
use jacc.Ast.Info.{category, type_sym}
use jacc.Types.Symbols.{sym_double}
use jacc.Types.Resolve.{resolve_alias}
use jacc.Types.Arithmetic.{is_sym}
use jacc.Generator.Settings.{Settings}
use jacc.Generator.Calls.{is_scalar_word}
use jacc.Generator.DoubleBalance.{is_arithmetic, is_comparison}
use jacc.Generator.Steps.{HasWidth}
use jacc.Generator.CaseBalance.{IsInt, IsDouble}
use jacc.Generator.AssignBalance.{PointsTo, IsNumeric}
use jacc.Generator.CallBalance.{Casts, Calls}

-- The types of nodes that the case NC_UNARY of `generate_expr` is left with.
unfoldable pub is_unary_operator : NodeType → Bool
unfolding category
is_unary_operator NodeType.reference_node = false
is_unary_operator NodeType.dereference_node = false
is_unary_operator t = elim (category t) [ NodeCategory.unary ↦ true | _ ↦ false ]

-- And those that the case NC_BINARY is left with.
unfoldable pub is_binary_operator : NodeType → Bool
unfolding category
is_binary_operator NodeType.call_node = false
is_binary_operator NodeType.member_node = false
is_binary_operator NodeType.assign_node = false
is_binary_operator NodeType.add_node = false
is_binary_operator NodeType.cast_node = false
is_binary_operator t = elim (category t) [ NodeCategory.binary ↦ true | _ ↦ false ]

-- The nodes for which `lvalue` has no case.
unfoldable pub has_no_lvalue : Node → Bool
has_no_lvalue null = false
has_no_lvalue (unary NodeType.dereference_node p a) = false
has_no_lvalue (binary NodeType.member_node p a b) = false
has_no_lvalue (var p a) = false
has_no_lvalue _ = true

module _ (g : Settings) where
  mutual
    -- `Value n w`: the value of `n` has `w` bytes. There is no conditional operator here, since
    -- each of its branches pushes the value, and no unary operator on double but those by casts.
    pub data Value : Node → ℕ → Type 0 where
      int : {p : Pointer} {n : ℕ} → Value (int_value p n) 4
      string : {p : Pointer} {s : Bytes} → Value (text NodeType.string_node p s) 4
      double : {p : Pointer} {d : Bytes} {w : ℕ} → HasWidth g p w → Value (double_value p d) w
      variable : {p : Pointer} {a w : ℕ} → HasWidth g p w → Value (var p a) w
      dereference :
          {p : Pointer} {a : Node} {w : ℕ}
          → HasWidth g p w
          → Value a 4
          → Value (unary NodeType.dereference_node p a) w
      reference : {p : Pointer} {a : Node} → Address a → Value (unary NodeType.reference_node p a) 4
      member :
          {p : Pointer} {a b : Node} {w : ℕ}
          → HasWidth g p w
          → Address a
          → Value (binary NodeType.member_node p a b) w
      unary_int :
          {t : NodeType} {p : Pointer} {a : Node}
          → is_unary_operator t ≡ true
          → IsInt g (type_sym a)
          → Value a 4
          → Address a
          → Value (unary t p a) 4
      binary_int :
          {t : NodeType} {p : Pointer} {a b : Node}
          → is_binary_operator t ≡ true
          → IsInt g (type_sym a)
          → Value a 4
          → Value b 4
          → Value (binary t p a b) 4
      binary_double :
          {t : NodeType} {p : Pointer} {a b : Node}
          → is_binary_operator t ≡ true
          → is_arithmetic t ≡ true
          → IsDouble g (type_sym a)
          → Value a 8
          → Value b 8
          → Value (binary t p a b) 8
      comparison :
          {t : NodeType} {p : Pointer} {a b : Node}
          → is_binary_operator t ≡ true
          → is_comparison t ≡ true
          → IsDouble g (type_sym a)
          → Value a 8
          → Value b 8
          → Value (binary t p a b) 4
      pointer_sum :
          {p : Pointer} {a b : Node}
          → PointsTo g (type_sym a)
          → Value a 4
          → Value b 4
          → Value (binary NodeType.add_node p a b) 4
      int_sum :
          {p : Pointer} {a b : Node}
          → IsNumeric g (type_sym a)
          → IsInt g (type_sym a)
          → Value a 4
          → Value b 4
          → Value (binary NodeType.add_node p a b) 4
      double_sum :
          {p : Pointer} {a b : Node}
          → IsNumeric g (type_sym a)
          → IsDouble g (type_sym a)
          → Value a 8
          → Value b 8
          → Value (binary NodeType.add_node p a b) 8
      assign_word :
          {p : Pointer} {a b : Node} {t : ℕ}
          → resolve_alias g.store (type_sym a) ≡ some t
          → (t == sym_double) ≡ false
          → Address a
          → Value b 4
          → Value (binary NodeType.assign_node p a b) 4
      assign_double :
          {p : Pointer} {a b : Node}
          → IsDouble g (type_sym a)
          → Address a
          → Value b 8
          → Value (binary NodeType.assign_node p a b) 8
      widen :
          {p : Pointer} {a : Node} {to of : ℕ}
          → Casts g p (type_sym a) to of true
          → (to == sym_double) ≡ true
          → Value a 4
          → Value (unary NodeType.cast_node p a) 8
      narrow :
          {p : Pointer} {a : Node} {to of : ℕ}
          → Casts g p (type_sym a) to of false
          → (of == sym_double) ≡ true
          → is_scalar_word g to ≡ some true
          → Value a 8
          → Value (unary NodeType.cast_node p a) 4
      word_cast :
          {p : Pointer} {a : Node} {to of w : ℕ} {word : Bool}
          → Casts g p (type_sym a) to of word
          → (to == sym_double) ≡ false
          → (of == sym_double) ≡ false
          → Value a w
          → Value (unary NodeType.cast_node p a) w
      call_word :
          {p q : Pointer} {a : Node} {ns : Nodes} {size : ℕ}
          → Calls g (type_sym a) ns size p true
          → Arguments ns size
          → Value (binary NodeType.call_node p a (list q ns)) 4
      call_double :
          {p q : Pointer} {a : Node} {ns : Nodes} {size : ℕ}
          → Calls g (type_sym a) ns size p false
          → is_sym p sym_double ≡ true
          → Arguments ns size
          → Value (binary NodeType.call_node p a (list q ns)) 8

    -- The arguments of a call have so many bytes.
    pub data Arguments : Nodes → ℕ → Type 0 where
      no_argument : Arguments nil 0
      argument :
          {n : Node} {ns : Nodes} {m w : ℕ}
          → Value n w
          → Arguments ns m
          → Arguments (cons n ns) (m + w)

    -- The nodes whose lvalue is sound; where there is none, `lvalue` says so in the code.
    pub data Address : Node → Type 0 where
      variable_at : {p : Pointer} {a : ℕ} → Address (var p a)
      pointer_at :
          {p : Pointer} {a : Node} → Value a 4 → Address (unary NodeType.dereference_node p a)
      field_at :
          {p : Pointer} {a b : Node} → Address a → Address (binary NodeType.member_node p a b)
      no_place : {n : Node} → has_no_lvalue n ≡ true → Address n
