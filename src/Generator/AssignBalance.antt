-- ===== src/Generator/AssignBalance.antt =====
-- src/generator.c: the stack that sums and assignments use, by what
-- the code of the operands does to it.
use jacc.Common.{ℕ, ◌+◌, some, [], ◌∷◌, Bool, true, false, ◌==◌, ◌>>=◌, ◌≡◌, refl}
use jacc.Asm.{Instruction, Operand}
use jacc.Asm.Codes.{reg_code, type_code}
use jacc.Asm.Instructions.{op_count}
use jacc.Ast.{NodeType, Pointer}
use jacc.Types.Symbols.{Symbol, load, tests, is_ptr_type, sym_double}
use jacc.Types.Resolve.{resolve_alias}
use jacc.Generator.Operands.{reg, constant, deref}
use jacc.Generator.Emit.{Code, fill_ops}
use jacc.Generator.Operators.{eax, ebx}
use jacc.Generator.Balance.{moves_esp, height_after}
use jacc.Generator.Settings.{Settings, blank_operand}
use jacc.Generator.Steps.{
  Moves, grown, done, ◌⨾◌, keeps, pops, drops, push_when, read, Pushes, Locates,
}
use jacc.Generator.DoubleBalance.{is_arithmetic}
use jacc.Generator.LvalueBalance.{generate_lvalue-Moves}
use jacc.Generator.Cases.{
  binary_operator, pointer_sum, add_code, assign_double, assign_word, assign_code,
}
use jacc.Generator.CaseBalance.{IsInt, IsDouble, binary-Moves, arithmetic-Moves}

module _ (g : Settings) where
  sum-Moves :
      (size : ℕ) (left right : Bool → Code → Code) (ret : Bool) (k : ℕ)
      → Pushes g left 4
      → Pushes g right 4
      → Moves g (pointer_sum g size left right ret) k (grown g ret 4 k)
  unfolding pointer_sum height_after moves_esp reg constant reg_code type_code fill_ops op_count
  sum-Moves size left right ret k l r =
      (l k
        ⨾ r (k + 4)
        ⨾ pops g eax (k + 4)
        ⨾ keeps g Instruction.mov (ebx ∷ constant (blank_operand g) size ∷ []) (k + 4) refl
        ⨾ keeps g Instruction.imul (ebx ∷ []) (k + 4) refl
        ⨾ pops g ebx k
        ⨾ keeps g Instruction.add (eax ∷ ebx ∷ []) k refl
        ⨾ push_when g ret eax k
        ⨾ done).moves

  -- A type whose elements have a known size.
  pub record PointsTo (p : Pointer) : Type 0 where
    pub type : ℕ
    pub resolved : resolve_alias g.store p ≡ some type
    pub is_ptr : tests g.store is_ptr_type (some type) ≡ some true
    pub base : Symbol
    pub base_at : (load g.store (some type) >>= λ s. load g.store s.base_type) ≡ some base

  -- A type that is no pointer and no array.
  pub record IsNumeric (p : Pointer) : Type 0 where
    pub type : ℕ
    pub resolved : resolve_alias g.store p ≡ some type
    pub no_ptr : tests g.store is_ptr_type (some type) ≡ some false

  pub pointer_add-Moves :
      (p : Pointer) (left right : Bool → Code → Code) (ret : Bool) (k : ℕ)
      → PointsTo p
      → Pushes g left 4
      → Pushes g right 4
      → Moves g (add_code g p left right ret) k (grown g ret 4 k)
  unfolding add_code
  pointer_add-Moves p left right ret k v l r =
      rw (v.resolved, v.is_ptr)
        (read g _ (λ b. pointer_sum g b.size left right ret) v.base k (grown g ret 4 k) v.base_at
          (sum-Moves v.base.size left right ret k l r))

  -- Away from pointers, the code of `+` is that of the other operators.
  add_numbers :
      (p : Pointer) (left right : Bool → Code → Code) (ret : Bool)
      → IsNumeric p
      → add_code g p left right ret ≡ binary_operator g NodeType.add_node p left right ret
  unfolding add_code
  add_numbers p left right ret v = rw (v.resolved, v.no_ptr) refl

  pub int_add-Moves :
      (p : Pointer) (left right : Bool → Code → Code) (ret : Bool) (k : ℕ)
      → IsNumeric p
      → IsInt g p
      → Pushes g left 4
      → Pushes g right 4
      → Moves g (add_code g p left right ret) k (grown g ret 4 k)
  int_add-Moves p left right ret k n v l r =
      rw (add_numbers p left right ret n)
        (binary-Moves g NodeType.add_node p left right ret k v l r)

  pub double_add-Moves :
      (p : Pointer) (left right : Bool → Code → Code) (ret : Bool) (k : ℕ)
      → IsNumeric p
      → IsDouble g p
      → Pushes g left 8
      → Pushes g right 8
      → Moves g (add_code g p left right ret) k (grown g ret 8 k)
  unfolding is_arithmetic
  double_add-Moves p left right ret k n v l r =
      rw (add_numbers p left right ret n)
        (arithmetic-Moves g NodeType.add_node p left right ret k refl v l r)

  pub assign_word-Moves :
      (p : Pointer) (address : Code → Operand × Code) (right : Bool → Code → Code) (t : ℕ)
      (ret : Bool) (k : ℕ)
      → resolve_alias g.store p ≡ some t
      → (t == sym_double) ≡ false
      → Locates g address
      → Pushes g right 4
      → Moves g (assign_code g p address right ret) k (grown g ret 4 k)
  unfolding assign_code assign_word height_after
  assign_word-Moves p address right t ret k e d a r =
      rw (e, d)
        ((generate_lvalue-Moves g address k a
          ⨾ r (k + 4)
          ⨾ pops g ebx (k + 4)
          ⨾ pops g eax k
          ⨾ keeps g Instruction.mov (deref (blank_operand g) eax ∷ ebx ∷ []) k refl
          ⨾ push_when g ret ebx k
          ⨾ done).moves)

  pub assign_double-Moves :
      (p : Pointer) (address : Code → Operand × Code) (right : Bool → Code → Code) (ret : Bool)
      (k : ℕ)
      → IsDouble g p
      → Locates g address
      → Pushes g right 8
      → Moves g (assign_code g p address right ret) k (grown g ret 8 k)
  unfolding assign_code assign_double height_after
  assign_double-Moves p address right true k v a r = rw v (
      (r k
        ⨾ keeps g Instruction.fld _ (k + 8) refl
        ⨾ generate_lvalue-Moves g address (k + 8) a
        ⨾ pops g eax (k + 8)
        ⨾ keeps g Instruction.fst _ (k + 8) refl
        ⨾ keeps g Instruction.fstp _ (k + 8) refl
        ⨾ done).moves)
  assign_double-Moves p address right false k v a r = rw v (
      (r k
        ⨾ keeps g Instruction.fld _ (k + 8) refl
        ⨾ generate_lvalue-Moves g address (k + 8) a
        ⨾ pops g eax (k + 8)
        ⨾ drops g 8 k
        ⨾ keeps g Instruction.fstp _ k refl
        ⨾ done).moves)
