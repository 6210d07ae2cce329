-- ===== src/Generator/CaseBalance.antt =====
-- src/generator.c: the stack that the cases of `generate_expr` use, by what
-- the code of the operands does to it.
use jacc.Common.{ℕ, ◌+◌, some, Bytes, Bool, true, false, ◌==◌, ◌≡◌, sym, arith}
use jacc.Asm.{Operand}
use jacc.Ast.{NodeType, Pointer}
use jacc.Ast.Info.{repr}
use jacc.Types.Symbols.{sym_double}
use jacc.Types.Resolve.{resolve_alias}
use jacc.Generator.Operands.{label, deref}
use jacc.Generator.Emit.{Code, gen_label, emit_data}
use jacc.Generator.Operators.{eax}
use jacc.Generator.Settings.{Settings, blank_operand}
use jacc.Generator.Lvalues.{generate_lvalue}
use jacc.Generator.Steps.{
  Moves, grown, done, ◌⨾◌, pops, push_when, HasWidth, push_typed-Moves, Pushes, Locates,
}
use jacc.Generator.Data.{emit_data_array}
use jacc.Generator.IntBalance.{unary_int_op-Takes, binary_int_op-Takes}
use jacc.Generator.DoubleBalance.{
  is_arithmetic, is_comparison, double_arithmetic-Takes, double_comparison-Takes,
}
use jacc.Generator.LvalueBalance.{lea-Moves, generate_lvalue-Moves}
use jacc.Generator.Cases.{
  c_string, text_code, double_code, dereference_code, reference_code, member_code, acts_as_int,
  unary_operator, binary_operator,
}

module _ (g : Settings) where
  pub text-Moves :
      (s : Bytes) (ret : Bool) (k : ℕ)
      → Moves g (text_code g NodeType.string_node s ret) k (grown g ret 4 k)
  unfolding text_code emit_data_array emit_data gen_label
  text-Moves s ret k = record {
    apply = λ h c e.
        (let (l, c') = emit_data_array g.decimal g.blank (c_string s) c in
          (push_when g ret (label (blank_operand g) l) k).apply h c' e);
  }

  pub double-Moves :
      (p : Pointer) (d : Bytes) (w : ℕ) (ret : Bool) (k : ℕ)
      → HasWidth g p w
      → Moves g (double_code g p d ret) k (grown g ret w k)
  unfolding double_code emit_data_array emit_data gen_label
  double-Moves p d w ret k v = record {
    apply = λ h c e.
        (let (l, c') = emit_data_array g.decimal g.blank d c in
          (push_typed-Moves g (deref (blank_operand g) (label (blank_operand g) l)) p w ret k
              v).apply
            h c' e);
  }

  pub dereference-Moves :
      (p : Pointer) (left : Bool → Code → Code) (w : ℕ) (ret : Bool) (k : ℕ)
      → HasWidth g p w
      → Pushes g left 4
      → Moves g (dereference_code g p left ret) k (grown g ret w k)
  unfolding dereference_code
  dereference-Moves p left w ret k v l =
      (l k ⨾ pops g eax k ⨾ push_typed-Moves g _ p w ret k v ⨾ done).moves

  pub reference-Moves :
      (address : Code → Operand × Code) (ret : Bool) (k : ℕ)
      → Locates g address
      → Moves g (reference_code g address ret) k (grown g ret 4 k)
  unfolding reference_code
  reference-Moves address ret k l = (lea-Moves g address k l ⨾ push_when g ret eax k ⨾ done).moves

  pub member-Moves :
      (p : Pointer) (address : Code → Operand × Code) (w : ℕ) (ret : Bool) (k : ℕ)
      → HasWidth g p w
      → Locates g address
      → Moves g (member_code g p address ret) k (grown g ret w k)
  unfolding member_code
  member-Moves p address w ret k v l =
      (lea-Moves g address k l ⨾ push_typed-Moves g _ p w ret k v ⨾ done).moves

  -- The operand's type is one that the operators on int are for.
  pub record IsInt (p : Pointer) : Type 0 where
    pub type : ℕ
    pub resolved : resolve_alias g.store p ≡ some type
    pub no_double : (type == sym_double) ≡ false
    pub as_int : acts_as_int g type ≡ some true

  abbrev pub IsDouble : Pointer → Type 0
  IsDouble p = resolve_alias g.store p ≡ some sym_double

  pub unary-Moves :
      (t : NodeType) (p : Pointer) (left : Bool → Code → Code) (address : Code → Operand × Code)
      (ret : Bool) (k : ℕ)
      → IsInt p
      → Pushes g left 4
      → Locates g address
      → Moves g (unary_operator g t p left address ret) k (grown g ret 4 k)
  unfolding unary_operator
  unary-Moves t p left address ret k v l a =
      rw (v.resolved, v.no_double, v.as_int)
        (unary_int_op-Takes g.blank g.decimal t (left true) (generate_lvalue g address) (repr t) ret
          k (l k) (generate_lvalue-Moves g address k a))

  pub binary-Moves :
      (t : NodeType) (p : Pointer) (left right : Bool → Code → Code) (ret : Bool) (k : ℕ)
      → IsInt p
      → Pushes g left 4
      → Pushes g right 4
      → Moves g (binary_operator g t p left right ret) k (grown g ret 4 k)
  unfolding binary_operator
  binary-Moves t p left right ret k v l r =
      rw (v.resolved, v.no_double, v.as_int)
        (binary_int_op-Takes g.blank g.decimal t (left true) (right true) (repr t) ret k (l k)
          (r (k + 4)))

  pub arithmetic-Moves :
      (t : NodeType) (p : Pointer) (left right : Bool → Code → Code) (ret : Bool) (k : ℕ)
      → is_arithmetic t ≡ true
      → IsDouble p
      → Pushes g left 8
      → Pushes g right 8
      → Moves g (binary_operator g t p left right ret) k (grown g ret 8 k)
  unfolding binary_operator
  arithmetic-Moves t p left right ret k i v l r =
      let more : k + 8 + 8 ≡ k + 16 = omega arith in
      rw v (
        double_arithmetic-Takes g.blank g.decimal t (left true) (right true) (repr t) ret k i (l k)
          (rw (sym more) (r (k + 8))))

  pub comparison-Moves :
      (t : NodeType) (p : Pointer) (left right : Bool → Code → Code) (k : ℕ)
      → is_comparison t ≡ true
      → IsDouble p
      → Pushes g left 8
      → Pushes g right 8
      → Moves g (binary_operator g t p left right true) k (k + 4)
  unfolding binary_operator
  comparison-Moves t p left right k i v l r =
      rw v (double_comparison-Takes g.blank g.decimal t (left true) (right true) (repr t) k i l r).0
