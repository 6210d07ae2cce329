-- ===== src/Ast.antt =====
-- src/parser.h: the trees that the parser builds.
pub mod Info
use jacc.Common.{ℕ, Option, Bytes}

-- src/parser.h with src/nodes.def: the types of nodes.
pub data NodeType : Type 0 where
  reference_node dereference_node identity_node negation_node complement_node : NodeType
  logical_negation_node prefix_inc_node prefix_dec_node postfix_inc_node : NodeType
  postfix_dec_node comma_node or_node and_node bit_or_node bit_xor_node bit_and_node : NodeType
  eq_node ne_node lt_node le_node gt_node ge_node lshift_node rshift_node add_node : NodeType
  sub_node mul_node div_node mod_node assign_node add_assign_node sub_assign_node : NodeType
  mul_assign_node div_assign_node mod_assign_node lshift_assign_node : NodeType
  rshift_assign_node or_assign_node and_assign_node xor_assign_node subscript_node : NodeType
  member_node member_by_ptr_node call_node cast_node ternary_node variable_node : NodeType
  int_node double_node string_node ident_node nop_node return_node if_node : NodeType
  while_node do_while_node for_node break_node continue_node goto_node label_node : NodeType
  switch_node case_node default_node list_node unknown_node : NodeType

pub data NodeCategory : Type 0 where
  unary binary ternary atom statement unknown : NodeCategory

-- A pointer to a symbol is its address, and NULL is none.
abbrev pub Pointer : Type 0
Pointer = Option ℕ

-- struct node and the structs that extend it, by the number of their `ops`. The first argument
-- after the type is `type_sym`. `null` is the pointer NULL. A `double_value` holds the eight bytes
-- of the value. A `text` is a struct string_node, of the type NT_STRING or NT_IDENT.
mutual
  pub data Node : Type 0 where
    null : Node
    leaf : NodeType → Pointer → Node
    unary : NodeType → Pointer → Node → Node
    binary : NodeType → Pointer → Node → Node → Node
    ternary : NodeType → Pointer → Node → Node → Node → Node
    quaternary : NodeType → Pointer → Node → Node → Node → Node → Node
    int_value : Pointer → ℕ → Node
    double_value : Pointer → Bytes → Node
    text : NodeType → Pointer → Bytes → Node
    list : Pointer → Nodes → Node
    var : Pointer → ℕ → Node

  pub data Nodes : Type 0 where
    nil : Nodes
    cons : Node → Nodes → Nodes
