-- ===== src/Ast/Info/Repr.antt =====
-- src/nodes.def: how the nodes are shown.
use jacc.Common.{Bytes, bytes}
use jacc.Ast.{NodeType}

-- `nodes_info[type].repr`
unfoldable pub repr : NodeType → Bytes
repr NodeType.reference_node = bytes "&"
repr NodeType.dereference_node = bytes "*"
repr NodeType.identity_node = bytes "+"
repr NodeType.negation_node = bytes "-"
repr NodeType.complement_node = bytes "~"
repr NodeType.logical_negation_node = bytes "!"
repr NodeType.prefix_inc_node = bytes "++@"
repr NodeType.prefix_dec_node = bytes "--@"
repr NodeType.postfix_inc_node = bytes "@++"
repr NodeType.postfix_dec_node = bytes "@--"
repr NodeType.comma_node = bytes ","
repr NodeType.or_node = bytes "||"
repr NodeType.and_node = bytes "&&"
repr NodeType.bit_or_node = bytes "|"
repr NodeType.bit_xor_node = bytes "^"
repr NodeType.bit_and_node = bytes "&"
repr NodeType.eq_node = bytes "=="
repr NodeType.ne_node = bytes "!="
repr NodeType.lt_node = bytes "<"
repr NodeType.le_node = bytes "<="
repr NodeType.gt_node = bytes ">"
repr NodeType.ge_node = bytes ">="
repr NodeType.lshift_node = bytes "<<"
repr NodeType.rshift_node = bytes ">>"
repr NodeType.add_node = bytes "+"
repr NodeType.sub_node = bytes "-"
repr NodeType.mul_node = bytes "*"
repr NodeType.div_node = bytes "/"
repr NodeType.mod_node = bytes "%"
repr NodeType.assign_node = bytes "="
repr NodeType.add_assign_node = bytes "+="
repr NodeType.sub_assign_node = bytes "-="
repr NodeType.mul_assign_node = bytes "*="
repr NodeType.div_assign_node = bytes "/="
repr NodeType.mod_assign_node = bytes "%="
repr NodeType.lshift_assign_node = bytes "<<="
repr NodeType.rshift_assign_node = bytes ">>="
repr NodeType.or_assign_node = bytes "|="
repr NodeType.and_assign_node = bytes "&="
repr NodeType.xor_assign_node = bytes "^="
repr NodeType.subscript_node = bytes "[]"
repr NodeType.member_node = bytes "."
repr NodeType.member_by_ptr_node = bytes "->"
repr NodeType.call_node = bytes "call"
repr NodeType.cast_node = bytes "cast"
repr NodeType.ternary_node = bytes "?:"
repr NodeType.variable_node = bytes "var"
repr NodeType.int_node = bytes "int"
repr NodeType.double_node = bytes "double"
repr NodeType.string_node = bytes "string"
repr NodeType.ident_node = bytes "ident"
repr NodeType.nop_node = bytes "nop"
repr NodeType.return_node = bytes "return"
repr NodeType.if_node = bytes "if"
repr NodeType.while_node = bytes "while"
repr NodeType.do_while_node = bytes "do while"
repr NodeType.for_node = bytes "for"
repr NodeType.break_node = bytes "break"
repr NodeType.continue_node = bytes "continue"
repr NodeType.goto_node = bytes "goto"
repr NodeType.label_node = bytes "label"
repr NodeType.switch_node = bytes "switch"
repr NodeType.case_node = bytes "case"
repr NodeType.default_node = bytes "default"
repr NodeType.list_node = bytes "list"
repr NodeType.unknown_node = bytes "???"
