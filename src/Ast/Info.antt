-- ===== src/Ast/Info.antt =====
-- src/parser.c with src/nodes.def: the table nodes_info, and the functions that read a node.
pub mod Repr
unfoldable pub use Repr.{repr}
use jacc.Common.{ℕ, zero, suc, none, some, Option, Bytes, bytes}
use jacc.Ast.{
  NodeType, NodeCategory, Pointer, Node, Nodes, null, leaf, unary, binary, ternary, quaternary,
  int_value, double_value, text, list, var, nil, cons,
}

-- `nodes_info[type].cat`
unfoldable pub category : NodeType → NodeCategory
category NodeType.reference_node = NodeCategory.unary
category NodeType.dereference_node = NodeCategory.unary
category NodeType.identity_node = NodeCategory.unary
category NodeType.negation_node = NodeCategory.unary
category NodeType.complement_node = NodeCategory.unary
category NodeType.logical_negation_node = NodeCategory.unary
category NodeType.prefix_inc_node = NodeCategory.unary
category NodeType.prefix_dec_node = NodeCategory.unary
category NodeType.postfix_inc_node = NodeCategory.unary
category NodeType.postfix_dec_node = NodeCategory.unary
category NodeType.comma_node = NodeCategory.binary
category NodeType.or_node = NodeCategory.binary
category NodeType.and_node = NodeCategory.binary
category NodeType.bit_or_node = NodeCategory.binary
category NodeType.bit_xor_node = NodeCategory.binary
category NodeType.bit_and_node = NodeCategory.binary
category NodeType.eq_node = NodeCategory.binary
category NodeType.ne_node = NodeCategory.binary
category NodeType.lt_node = NodeCategory.binary
category NodeType.le_node = NodeCategory.binary
category NodeType.gt_node = NodeCategory.binary
category NodeType.ge_node = NodeCategory.binary
category NodeType.lshift_node = NodeCategory.binary
category NodeType.rshift_node = NodeCategory.binary
category NodeType.add_node = NodeCategory.binary
category NodeType.sub_node = NodeCategory.binary
category NodeType.mul_node = NodeCategory.binary
category NodeType.div_node = NodeCategory.binary
category NodeType.mod_node = NodeCategory.binary
category NodeType.assign_node = NodeCategory.binary
category NodeType.add_assign_node = NodeCategory.binary
category NodeType.sub_assign_node = NodeCategory.binary
category NodeType.mul_assign_node = NodeCategory.binary
category NodeType.div_assign_node = NodeCategory.binary
category NodeType.mod_assign_node = NodeCategory.binary
category NodeType.lshift_assign_node = NodeCategory.binary
category NodeType.rshift_assign_node = NodeCategory.binary
category NodeType.or_assign_node = NodeCategory.binary
category NodeType.and_assign_node = NodeCategory.binary
category NodeType.xor_assign_node = NodeCategory.binary
category NodeType.subscript_node = NodeCategory.binary
category NodeType.member_node = NodeCategory.binary
category NodeType.member_by_ptr_node = NodeCategory.binary
category NodeType.call_node = NodeCategory.binary
category NodeType.cast_node = NodeCategory.binary
category NodeType.ternary_node = NodeCategory.ternary
category NodeType.variable_node = NodeCategory.atom
category NodeType.int_node = NodeCategory.atom
category NodeType.double_node = NodeCategory.atom
category NodeType.string_node = NodeCategory.atom
category NodeType.ident_node = NodeCategory.atom
category NodeType.nop_node = NodeCategory.atom
category NodeType.return_node = NodeCategory.statement
category NodeType.if_node = NodeCategory.statement
category NodeType.while_node = NodeCategory.statement
category NodeType.do_while_node = NodeCategory.statement
category NodeType.for_node = NodeCategory.statement
category NodeType.break_node = NodeCategory.statement
category NodeType.continue_node = NodeCategory.statement
category NodeType.goto_node = NodeCategory.statement
category NodeType.label_node = NodeCategory.statement
category NodeType.switch_node = NodeCategory.statement
category NodeType.case_node = NodeCategory.statement
category NodeType.default_node = NodeCategory.statement
category NodeType.list_node = NodeCategory.statement
category NodeType.unknown_node = NodeCategory.unknown

-- `nodes_info[type].op_count`
unfoldable pub op_count : NodeType → ℕ
op_count NodeType.reference_node = 1
op_count NodeType.dereference_node = 1
op_count NodeType.identity_node = 1
op_count NodeType.negation_node = 1
op_count NodeType.complement_node = 1
op_count NodeType.logical_negation_node = 1
op_count NodeType.prefix_inc_node = 1
op_count NodeType.prefix_dec_node = 1
op_count NodeType.postfix_inc_node = 1
op_count NodeType.postfix_dec_node = 1
op_count NodeType.comma_node = 2
op_count NodeType.or_node = 2
op_count NodeType.and_node = 2
op_count NodeType.bit_or_node = 2
op_count NodeType.bit_xor_node = 2
op_count NodeType.bit_and_node = 2
op_count NodeType.eq_node = 2
op_count NodeType.ne_node = 2
op_count NodeType.lt_node = 2
op_count NodeType.le_node = 2
op_count NodeType.gt_node = 2
op_count NodeType.ge_node = 2
op_count NodeType.lshift_node = 2
op_count NodeType.rshift_node = 2
op_count NodeType.add_node = 2
op_count NodeType.sub_node = 2
op_count NodeType.mul_node = 2
op_count NodeType.div_node = 2
op_count NodeType.mod_node = 2
op_count NodeType.assign_node = 2
op_count NodeType.add_assign_node = 2
op_count NodeType.sub_assign_node = 2
op_count NodeType.mul_assign_node = 2
op_count NodeType.div_assign_node = 2
op_count NodeType.mod_assign_node = 2
op_count NodeType.lshift_assign_node = 2
op_count NodeType.rshift_assign_node = 2
op_count NodeType.or_assign_node = 2
op_count NodeType.and_assign_node = 2
op_count NodeType.xor_assign_node = 2
op_count NodeType.subscript_node = 2
op_count NodeType.member_node = 2
op_count NodeType.member_by_ptr_node = 2
op_count NodeType.call_node = 2
op_count NodeType.cast_node = 1
op_count NodeType.ternary_node = 3
op_count NodeType.variable_node = 0
op_count NodeType.int_node = 0
op_count NodeType.double_node = 0
op_count NodeType.string_node = 0
op_count NodeType.ident_node = 0
op_count NodeType.nop_node = 0
op_count NodeType.return_node = 1
op_count NodeType.if_node = 3
op_count NodeType.while_node = 2
op_count NodeType.do_while_node = 2
op_count NodeType.for_node = 4
op_count NodeType.break_node = 0
op_count NodeType.continue_node = 0
op_count NodeType.goto_node = 1
op_count NodeType.label_node = 2
op_count NodeType.switch_node = 2
op_count NodeType.case_node = 2
op_count NodeType.default_node = 1
op_count NodeType.list_node = 0
op_count NodeType.unknown_node = 0

-- `expr->type`; `null` has none, and reads as NT_UNKNOWN where no caller looks at it.
unfoldable pub node_type : Node → NodeType
node_type null = NodeType.unknown_node
node_type (leaf t p) = t
node_type (unary t p a) = t
node_type (binary t p a b) = t
node_type (ternary t p a b c) = t
node_type (quaternary t p a b c d) = t
node_type (int_value p n) = NodeType.int_node
node_type (double_value p d) = NodeType.double_node
node_type (text t p s) = t
node_type (list p ns) = NodeType.list_node
node_type (var p a) = NodeType.variable_node

-- `expr->type_sym`
unfoldable pub type_sym : Node → Pointer
type_sym null = none
type_sym (leaf t p) = p
type_sym (unary t p a) = p
type_sym (binary t p a b) = p
type_sym (ternary t p a b c) = p
type_sym (quaternary t p a b c d) = p
type_sym (int_value p n) = p
type_sym (double_value p d) = p
type_sym (text t p s) = p
type_sym (list p ns) = p
type_sym (var p a) = p

-- `((struct list_node*)node)->size`
unfoldable pub size : Nodes → ℕ
size nil = 0
size (cons n ns) = suc (size ns)

-- parser_node_subnodes_count
unfoldable pub parser_node_subnodes_count : Node → ℕ
unfolding size op_count node_type
parser_node_subnodes_count (list p ns) = size ns
parser_node_subnodes_count n = op_count (node_type n)

-- `items[index]`
unfoldable pub item : Nodes → ℕ → Option Node
item nil i = none
item (cons n ns) zero = some n
item (cons n ns) (suc i) = item ns i

-- The operands of a node that is no list.
unfoldable pub ops : Node → Nodes
ops (unary t p a) = cons a nil
ops (binary t p a b) = cons a (cons b nil)
ops (ternary t p a b c) = cons a (cons b (cons c nil))
ops (quaternary t p a b c d) = cons a (cons b (cons c (cons d nil)))
ops n = nil

-- parser_get_subnode; none is a read outside of the operands.
unfoldable pub parser_get_subnode : Node → ℕ → Option Node
unfolding item ops
parser_get_subnode (list p ns) i = item ns i
parser_get_subnode n i = item (ops n) i
