-- ===== src/Types/Arithmetic.antt =====
-- src/parser.c: the types of operators, and the casts that their operands get.
pub mod Common
pub mod Operands
pub mod Typing
use jacc.Common.{
  ℕ, Option, none, some, List, [], ◌∷◌, Bool, true, false, ◌&&◌, ◌||◌, ◌==◌, if◌then◌else◌, ◌>>=◌,
}
use jacc.Ast.{NodeType, Pointer, Node, unary, binary}
use jacc.Ast.Info.{node_type, type_sym}
use jacc.Types.Symbols.{
  Store, load, tests, is_ptr_type, is_enum_const, sym_int, sym_double, sym_char,
}
use jacc.Types.Resolve.{resolve_alias}
use jacc.Types.Compatible.{is_compatible_types}

-- `_arith_common_type`; the inner none is its result NULL, the outer one a fault.
unfoldable pub ordered_common_type : Store → ℕ → ℕ → Option Pointer
unfolding is_enum_const load
ordered_common_type st s1 s2 = do
  s ← load st (some s1)
  some (
      if is_enum_const s.type && (s2 == sym_int || s2 == sym_char)
      then some sym_int
      else if s1 == sym_double && (s2 == sym_double || (s2 == sym_int || s2 == sym_char))
      then some sym_double
      else if s1 == sym_int && (s2 == sym_int || s2 == sym_char)
      then some sym_int
      else if s1 == sym_char && s2 == sym_char
      then some sym_char
      else none)

-- `if (type != NULL) return type; return other;`
unfoldable pub or_else : Pointer → Option Pointer → Option Pointer
or_else none other = other
or_else (some t) other = some (some t)

unfoldable pub arith_common_type : Store → ℕ → ℕ → Option Pointer
unfolding ordered_common_type or_else
arith_common_type st s1 s2 = do
  type ← ordered_common_type st s1 s2
  or_else type (ordered_common_type st s2 s1)

unfoldable pub is_int_only_node_type : NodeType → Bool
is_int_only_node_type NodeType.bit_or_node = true
is_int_only_node_type NodeType.bit_and_node = true
is_int_only_node_type NodeType.bit_xor_node = true
is_int_only_node_type NodeType.lshift_node = true
is_int_only_node_type NodeType.rshift_node = true
is_int_only_node_type NodeType.mod_node = true
is_int_only_node_type _ = false

unfoldable pub is_cmp_node_type : NodeType → Bool
is_cmp_node_type NodeType.lt_node = true
is_cmp_node_type NodeType.le_node = true
is_cmp_node_type NodeType.gt_node = true
is_cmp_node_type NodeType.ge_node = true
is_cmp_node_type NodeType.eq_node = true
is_cmp_node_type NodeType.ne_node = true
is_cmp_node_type NodeType.or_node = true
is_cmp_node_type NodeType.and_node = true
is_cmp_node_type _ = false

-- `node->type == NT_SUB || node->type == NT_EQ || node->type == NT_NE`
unfoldable pub compares_pointers : NodeType → Bool
compares_pointers NodeType.sub_node = true
compares_pointers NodeType.eq_node = true
compares_pointers NodeType.ne_node = true
compares_pointers _ = false

unfoldable pub is_add : NodeType → Bool
is_add NodeType.add_node = true
is_add _ = false

-- `node->type == NT_OR || node->type == NT_AND`
unfoldable pub is_logical : NodeType → Bool
is_logical NodeType.or_node = true
is_logical NodeType.and_node = true
is_logical _ = false

unfoldable pub is_comma : NodeType → Bool
is_comma NodeType.comma_node = true
is_comma _ = false

unfoldable pub is_lvalue : NodeType → Bool
is_lvalue NodeType.variable_node = true
is_lvalue NodeType.dereference_node = true
is_lvalue NodeType.subscript_node = true
is_lvalue NodeType.member_node = true
is_lvalue NodeType.member_by_ptr_node = true
is_lvalue _ = false

unfoldable pub is_null : Pointer → Bool
is_null none = true
is_null (some a) = false

-- `pointer == &symbol`
unfoldable pub is_sym : Pointer → ℕ → Bool
is_sym none a = false
is_sym (some b) a = b == a

-- The fuel is that of the comparison of types.
module _ (fuel : ℕ) (st : Store) where
  unfoldable pub implicit_cast_to : ℕ → Node → Option Node
  unfolding type_sym
  implicit_cast_to dst_type node = do
    same ← is_compatible_types fuel st (resolve_alias st (type_sym node)) (some dst_type)
    some (if same then node else unary NodeType.cast_node (some dst_type) node)

  -- The new operands; the inner none is the result 0.
  unfoldable pub convert_op_to : Pointer → Node → Option (Option Node)
  unfolding implicit_cast_to
  convert_op_to none a = some none
  convert_op_to (some type) a = do a' ← implicit_cast_to type a; some (some a')

  unfoldable pub convert_ops_to : Pointer → Node → Node → Option (Option (Node × Node))
  unfolding implicit_cast_to
  convert_ops_to none a b = some none
  convert_ops_to (some type) a b = do
    a' ← implicit_cast_to type a
    b' ← implicit_cast_to type b
    some (some (a', b'))

  -- The branch for the sum of a pointer and a number, after the operands were put into order.
  unfoldable pub set_pointer_sum : Node → Node → ℕ → ℕ → Option (Option Node)
  unfolding convert_op_to load is_enum_const
  set_pointer_sum a b t1 t2 = do
    s2 ← load st (some t2)
    let sum = (do
      converted ← convert_op_to (some sym_int) b
      some (elim converted [
        | none ↦ none
        | some b' ↦ some (binary NodeType.add_node (some t1) a b')
      ]))
    if t2 == sym_int || (t2 == sym_char || is_enum_const s2.type) then sum else some none

  -- The branch for numbers.
  unfoldable pub set_arithmetic : NodeType → Node → Node → ℕ → ℕ → Option (Option Node)
  unfolding convert_ops_to arith_common_type is_cmp_node_type is_int_only_node_type is_logical
      is_sym
  set_arithmetic type a b t1 t2 = do
    common_type ← arith_common_type st t1 t2
    let type_of_node = if is_cmp_node_type type then some sym_int else common_type
    let converted = (do
      ops ← convert_ops_to (if is_logical type then some sym_int else common_type) a b
      some (elim ops [ none ↦ none | some (a', b') ↦ some (binary type type_of_node a' b') ]))
    if is_sym type_of_node sym_double && is_int_only_node_type type then some none else converted

  -- The types of both operands are known: `a` and `b`, resolved to `t1` and `t2`.
  unfoldable pub set_resolved : NodeType → Node → Node → ℕ → ℕ → Option (Option Node)
  unfolding tests set_pointer_sum set_arithmetic compares_pointers is_add is_ptr_type
  set_resolved type a b t1 t2 = do
    p1 ← tests st is_ptr_type (some t1)
    p2 ← tests st is_ptr_type (some t2)
    let difference = (do
      same ← is_compatible_types fuel st (some t1) (some t2)
      some (if same then some (binary type (some sym_int) a b) else none))
    let sum = if p2 then set_pointer_sum b a t2 t1 else set_pointer_sum a b t1 t2
    let other = if is_add type && (p1 || p2) then sum else set_arithmetic type a b t1 t2
    if compares_pointers type && (p1 && p2) then difference else other

  -- The node of this type over `a` and `b` afterwards; the inner none is the result 0.
  unfoldable pub set_binary_expr_type : NodeType → Node → Node → Option (Option Node)
  unfolding type_sym is_comma is_null set_resolved
  set_binary_expr_type type a b =
      let known = (do
        t1 ← resolve_alias st (type_sym a)
        t2 ← resolve_alias st (type_sym b)
        set_resolved type a b t1 t2) in
      if is_null (type_sym a) || is_null (type_sym b)
      then some none
      else if is_comma type
      then some (some (binary type (type_sym b) a b))
      else known

  -- The type of `++` and `--`; the inner none is the result 0.
  unfoldable pub set_inc_expr_type : NodeType → Node → Option (Option Node)
  unfolding is_lvalue node_type type_sym
  set_inc_expr_type type a =
      let typed = (do
        t ← resolve_alias st (type_sym a)
        some (
            if t == sym_int || (t == sym_char || t == sym_double)
            then some (unary type (some t) a)
            else none)) in
      if is_lvalue (node_type a) then typed else some none
