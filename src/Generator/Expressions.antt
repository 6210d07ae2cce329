-- ===== src/Generator/Expressions.antt =====
-- src/generator.c: `generate_expr` and `lvalue`. A node that has fewer operands than its type wants
-- stops the generation, which reads outside of the node there.
use jacc.Common.{[], ◌∷◌, Bool, true, false}
use jacc.Asm.{Instruction, Operand}
use jacc.Ast.{
  NodeType, NodeCategory, Pointer, Node, Nodes, null, leaf, unary, binary, ternary, quaternary,
  int_value, double_value, text, list, var, nil, cons,
}
use jacc.Ast.Info.{category, repr, type_sym, node_type}
use jacc.Generator.Operands.{constant}
use jacc.Generator.Emit.{Code}
use jacc.Generator.Operators.{when}
use jacc.Generator.Settings.{Settings, put, blank_operand, stop, push_typed}
use jacc.Generator.Lvalues.{
  no_lvalue, variable_lvalue, dereference_lvalue, member_lvalue, other_lvalue,
}
use jacc.Generator.Statements.{
  generate_if, generate_while, generate_do_while, generate_for, generate_return, unknown_statement,
}
use jacc.Generator.Calls.{generate_call, generate_cast}
use jacc.Generator.Cases.{
  leaf_code, text_code, double_code, dereference_code, reference_code, member_code, unary_operator,
  binary_operator, add_code, assign_code,
}

-- What is done for an operand: its value or effect, its lvalue, and as arguments of a call.
pub record Parts : Type 0 where
  pub node : Node
  pub value : Bool → Code → Code
  pub address : Code → Operand × Code
  pub push_arguments : Code → Code

abbrev parts_of : Node → (Bool → Code → Code) → (Code → Operand × Code) → (Code → Code) → Parts
parts_of node value address push_arguments = record {
  node = node;
  value = value;
  address = address;
  push_arguments = push_arguments;
}

-- The items of a list node.
unfoldable pub items_of : Node → Nodes
items_of (list p ns) = ns
items_of _ = nil

module _ (g : Settings) where
  -- The switches of `generate_expr` and `generate_statement` on a node of the type `t` with one
  -- operand.
  unfoldable pub unary_code : NodeType → Pointer → Parts → Bool → Code → Code
  unfolding category type_sym reference_code dereference_code generate_cast generate_return
      unknown_statement unary_operator stop
  unary_code NodeType.reference_node p a ret = reference_code g a.address ret
  unary_code NodeType.dereference_node p a ret = dereference_code g p a.value ret
  unary_code NodeType.cast_node p a ret = generate_cast g p (type_sym a.node) a.value ret
  unary_code NodeType.return_node p a ret = generate_return g p a.value
  unary_code NodeType.goto_node p a ret = unknown_statement g (repr NodeType.goto_node)
  unary_code NodeType.default_node p a ret = unknown_statement g (repr NodeType.default_node)
  unary_code t p a ret = elim (category t) [
    | NodeCategory.unary ↦ unary_operator g t (type_sym a.node) a.value a.address ret
    | _ ↦ stop
  ]

  -- The arguments of a call are the items of its second operand, which is a list.
  unfoldable pub call_node_code : Pointer → Parts → Parts → Bool → Code → Code
  unfolding generate_call items_of type_sym
  call_node_code p a b ret =
      generate_call g (type_sym a.node) (items_of b.node) b.push_arguments p ret

  unfoldable pub binary_code : NodeType → Pointer → Parts → Parts → Bool → Code → Code
  unfolding category type_sym call_node_code member_code assign_code add_code generate_while
      generate_do_while unknown_statement binary_operator member_lvalue stop
  binary_code NodeType.call_node p a b ret = call_node_code p a b ret
  binary_code NodeType.member_node p a b ret =
      member_code g p (member_lvalue g a.address (type_sym b.node)) ret
  binary_code NodeType.assign_node p a b ret = assign_code g (type_sym a.node) a.address b.value ret
  binary_code NodeType.add_node p a b ret = add_code g (type_sym a.node) a.value b.value ret
  binary_code NodeType.while_node p a b ret = generate_while g a.value b.value
  binary_code NodeType.do_while_node p a b ret = generate_do_while g a.value b.value
  binary_code NodeType.label_node p a b ret = unknown_statement g (repr NodeType.label_node)
  binary_code NodeType.switch_node p a b ret = unknown_statement g (repr NodeType.switch_node)
  binary_code NodeType.case_node p a b ret = unknown_statement g (repr NodeType.case_node)
  binary_code NodeType.cast_node p a b ret = stop
  binary_code t p a b ret = elim (category t) [
    | NodeCategory.binary ↦ binary_operator g t (type_sym a.node) a.value b.value ret
    | _ ↦ stop
  ]

  unfoldable pub ternary_code : NodeType → Parts → Parts → Parts → Bool → Code → Code
  unfolding generate_if stop
  ternary_code NodeType.ternary_node a b c ret = generate_if g a.value b.value c.value ret
  ternary_code NodeType.if_node a b c ret = generate_if g a.value b.value c.value false
  ternary_code _ a b c ret = stop

  unfoldable pub quaternary_code : NodeType → Parts → Parts → Parts → Parts → Bool → Code → Code
  unfolding generate_for stop
  quaternary_code NodeType.for_node a b c d ret = generate_for g a.value b.value c.value d.value
  quaternary_code _ a b c d ret = stop

  unfoldable pub lvalue_unary : NodeType → (Bool → Code → Code) → Code → Operand × Code
  unfolding dereference_lvalue other_lvalue repr
  lvalue_unary NodeType.dereference_node left = dereference_lvalue g left
  lvalue_unary t left = other_lvalue g (repr t)

  unfoldable pub lvalue_binary :
      NodeType → (Code → Operand × Code) → Pointer → Code → Operand × Code
  unfolding member_lvalue other_lvalue repr
  lvalue_binary NodeType.member_node address field = member_lvalue g address field
  lvalue_binary t address field = other_lvalue g (repr t)

  -- The recursion. `generate_list` is the loop of NT_LIST, and `push_items` that of NT_CALL, which
  -- pushes the last argument first.
  unfoldable mutual
    unfolding leaf_code unary_code binary_code ternary_code quaternary_code text_code double_code
        push_typed variable_lvalue lvalue_unary lvalue_binary other_lvalue no_lvalue constant stop

    pub generate_expr : Node → Bool → Code → Code
    generate_expr null ret = λ c. c
    generate_expr (leaf t p) ret = leaf_code g t
    generate_expr (unary t p a) ret =
        unary_code t p (parts_of a (λ r. generate_expr a r) (lvalue a) (push_arguments_of a)) ret
    generate_expr (binary t p a b) ret =
        binary_code t p (parts_of a (λ r. generate_expr a r) (lvalue a) (push_arguments_of a))
          (parts_of b (λ r. generate_expr b r) (lvalue b) (push_arguments_of b)) ret
    generate_expr (ternary t p a b c) ret =
        ternary_code t (parts_of a (λ r. generate_expr a r) (lvalue a) (push_arguments_of a))
          (parts_of b (λ r. generate_expr b r) (lvalue b) (push_arguments_of b))
          (parts_of c (λ r. generate_expr c r) (lvalue c) (push_arguments_of c)) ret
    generate_expr (quaternary t p a b c d) ret =
        quaternary_code t (parts_of a (λ r. generate_expr a r) (lvalue a) (push_arguments_of a))
          (parts_of b (λ r. generate_expr b r) (lvalue b) (push_arguments_of b))
          (parts_of c (λ r. generate_expr c r) (lvalue c) (push_arguments_of c))
          (parts_of d (λ r. generate_expr d r) (lvalue d) (push_arguments_of d)) ret
    generate_expr (int_value p n) ret =
        when g.blank g.decimal ret (put g Instruction.push (constant (blank_operand g) n ∷ []))
    generate_expr (double_value p d) ret = double_code g p d ret
    generate_expr (text t p s) ret = text_code g t s ret
    generate_expr (list p ns) ret = generate_list ns
    generate_expr (var p a) ret =
        λ c. let (op, c') = variable_lvalue g a c in push_typed g op p ret c'

    pub lvalue : Node → Code → Operand × Code
    lvalue null = λ c. no_lvalue g c
    lvalue (unary t p a) = lvalue_unary t (λ r. generate_expr a r)
    lvalue (binary t p a b) = lvalue_binary t (lvalue a) (type_sym b)
    lvalue (var p a) = variable_lvalue g a
    lvalue n = other_lvalue g (repr (node_type n))

    pub generate_list : Nodes → Code → Code
    generate_list nil = λ c. c
    generate_list (cons n ns) = λ c. generate_list ns (generate_expr n false c)

    pub push_items : Nodes → Code → Code
    push_items nil = λ c. c
    push_items (cons n ns) = λ c. generate_expr n true (push_items ns c)

    pub push_arguments_of : Node → Code → Code
    push_arguments_of (list p ns) = push_items ns
    push_arguments_of _ = stop
