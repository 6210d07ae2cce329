-- ===== src/Generator/DoubleBalance.antt =====
-- src/generator.c: the stack that the code of the binary operators on double uses.
use jacc.Common.{
  ℕ, ◌+◌, ◌-◌, List, [], ◌∷◌, Bytes, Bool, true, false, ltb, if◌then◌else◌, ◌≡◌, refl, sym, some,
  arith,
}
use jacc.Asm.{Instruction, Operand, Command}
use jacc.Asm.Codes.{reg_code, type_code}
use jacc.Asm.Instructions.{op_count}
use jacc.Generator.Operands.{reg, constant, deref, qword}
use jacc.Ast.{NodeType}
use jacc.Generator.Emit.{Code, fill_ops, unset, emit}
use jacc.Generator.Operators.{ecx, esp, cl, st0, st1}
use jacc.Generator.Doubles.{
  generate_double_cmp, end_double, binary_double_case, generate_binary_double_op,
}
use jacc.Generator.Balance.{
  moves_esp, drop_bytes, height_after, Takes, emit-Takes, end-Takes, next-Takes, quiet,
}

-- The operators whose result is a double.
unfoldable pub is_arithmetic : NodeType → Bool
is_arithmetic NodeType.add_node = true
is_arithmetic NodeType.sub_node = true
is_arithmetic NodeType.mul_node = true
is_arithmetic NodeType.div_node = true
is_arithmetic _ = false

-- The comparisons.
unfoldable pub is_comparison : NodeType → Bool
is_comparison NodeType.eq_node = true
is_comparison NodeType.ne_node = true
is_comparison NodeType.le_node = true
is_comparison NodeType.lt_node = true
is_comparison NodeType.ge_node = true
is_comparison NodeType.gt_node = true
is_comparison _ = false

drop_lem : (n k : ℕ) → drop_bytes n (k + n) ≡ some k
unfolding drop_bytes
drop_lem n k =
    let e : k + n - n ≡ k = omega arith in
    let f : ltb (k + n) n ≡ false = ground arith in rw (f, e) refl

module _ (blank : Command) (decimal : ℕ → Bytes) where
  abbrev top : List Operand
  top = qword (deref (unset blank decimal) esp) ∷ []

  -- `add esp, n`
  add_esp-Takes :
      (n k : ℕ)
      → Takes blank decimal
          (emit blank decimal Instruction.add (esp ∷ constant (unset blank decimal) n ∷ []))
          (k + n)
          k
  unfolding height_after moves_esp reg constant reg_code type_code fill_ops op_count
  add_esp-Takes n k =
      emit-Takes blank decimal Instruction.add (esp ∷ constant (unset blank decimal) n ∷ []) (k + n)
        k (drop_lem n k)

  -- A comparison drops the eight bytes of an operand and pushes an int.
  double_cmp-Takes :
      (cmd : Instruction) (k : ℕ)
      → ((m : ℕ)
          → height_after cmd (fill_ops (op_count cmd) (cl ∷ []) (record blank { type = cmd })) m
            ≡ some m)
      → Takes blank decimal (generate_double_cmp blank decimal cmd) (k + 8) (k + 4)
  unfolding generate_double_cmp height_after
  double_cmp-Takes cmd k same = next-Takes blank decimal _ _ (k + 8) k (k + 4) (add_esp-Takes 8 k) (
      quiet blank decimal Instruction.xor (ecx ∷ ecx ∷ []) _ k (k + 4) refl (
        quiet blank decimal Instruction.fcomip (st1 ∷ []) _ k (k + 4) refl (
          quiet blank decimal cmd (cl ∷ []) _ k (k + 4) (same k) (
            next-Takes blank decimal (emit blank decimal Instruction.push (ecx ∷ [])) _ k (k + 4)
              (k + 4) (emit-Takes blank decimal Instruction.push (ecx ∷ []) k (k + 4) refl)
              (quiet blank decimal Instruction.ffreep (st0 ∷ []) [] (k + 4) (k + 4) refl
                (end-Takes blank decimal (k + 4)))))))

  end-double_Takes : (ret : Bool) (k : ℕ) → Takes blank decimal (end_double blank decimal ret) k k
  unfolding end_double height_after
  end-double_Takes true k =
      quiet blank decimal Instruction.fstp top _ k k refl
        (quiet blank decimal Instruction.ffreep (st0 ∷ []) [] k k refl (end-Takes blank decimal k))
  end-double_Takes false k =
      quiet blank decimal Instruction.ffreep (st0 ∷ []) [] k k refl (end-Takes blank decimal k)

  arithmetic_case :
      (type : NodeType) (repr : Bytes) (ret : Bool) (k : ℕ)
      → is_arithmetic type ≡ true
      → Takes blank decimal (binary_double_case blank decimal type repr ret) k k
  unfolding binary_double_case height_after is_arithmetic
  arithmetic_case NodeType.add_node repr ret k h =
      quiet blank decimal Instruction.faddp [] _ k k refl (
        next-Takes blank decimal (end_double blank decimal ret) [] k k k (end-double_Takes ret k)
          (end-Takes blank decimal k))
  arithmetic_case NodeType.sub_node repr ret k h =
      quiet blank decimal Instruction.fsubp [] _ k k refl (
        next-Takes blank decimal (end_double blank decimal ret) [] k k k (end-double_Takes ret k)
          (end-Takes blank decimal k))
  arithmetic_case NodeType.mul_node repr ret k h =
      quiet blank decimal Instruction.fmulp [] _ k k refl (
        next-Takes blank decimal (end_double blank decimal ret) [] k k k (end-double_Takes ret k)
          (end-Takes blank decimal k))
  arithmetic_case NodeType.div_node repr ret k h =
      quiet blank decimal Instruction.fdivp [] _ k k refl (
        next-Takes blank decimal (end_double blank decimal ret) [] k k k (end-double_Takes ret k)
          (end-Takes blank decimal k))
  arithmetic_case _ repr ret k h = cc

  comparison_case :
      (type : NodeType) (repr : Bytes) (ret : Bool) (k : ℕ)
      → is_comparison type ≡ true
      → Takes blank decimal (binary_double_case blank decimal type repr ret) (k + 8) (k + 4)
  unfolding binary_double_case height_after is_comparison
  comparison_case NodeType.eq_node repr ret k h = double_cmp-Takes Instruction.sete k (λ m. refl)
  comparison_case NodeType.ne_node repr ret k h = double_cmp-Takes Instruction.setne k (λ m. refl)
  comparison_case NodeType.le_node repr ret k h = double_cmp-Takes Instruction.setae k (λ m. refl)
  comparison_case NodeType.lt_node repr ret k h = double_cmp-Takes Instruction.seta k (λ m. refl)
  comparison_case NodeType.ge_node repr ret k h = double_cmp-Takes Instruction.setbe k (λ m. refl)
  comparison_case NodeType.gt_node repr ret k h = double_cmp-Takes Instruction.setb k (λ m. refl)
  comparison_case _ repr ret k h = cc

  -- The operands are evaluated, and all of their bytes but `n` are dropped.
  operands_Takes :
      (type : NodeType) (left right : Code → Code) (repr : Bytes) (ret : Bool) (k l m : ℕ)
      → Takes blank decimal left k (k + 8)
      → Takes blank decimal right (k + 8) (k + 16)
      → l + (if ret then 8 else 16) ≡ k + 16
      → Takes blank decimal (binary_double_case blank decimal type repr ret) l m
      → Takes blank decimal (generate_binary_double_op blank decimal type left right repr ret) k m
  unfolding generate_binary_double_op height_after
  operands_Takes type left right repr ret k l m a b e rest =
      next-Takes blank decimal left _ k (k + 8) m a (
        quiet blank decimal Instruction.fld top _ (k + 8) m refl (
          next-Takes blank decimal right _ (k + 8) (k + 16) m b (
            quiet blank decimal Instruction.fld top _ (k + 16) m refl (
              next-Takes blank decimal _ _ (k + 16) l m
                (rw e at (add_esp-Takes (if ret then 8 else 16) l))
                (next-Takes blank decimal _ [] l m m rest (end-Takes blank decimal m))))))

  -- Where the code of each operand pushes eight bytes, the code of an arithmetic operator on double
  -- pushes eight bytes if its value is wanted, and none if it is not.
  pub double_arithmetic-Takes :
      (type : NodeType) (left right : Code → Code) (repr : Bytes) (ret : Bool) (k : ℕ)
      → is_arithmetic type ≡ true
      → Takes blank decimal left k (k + 8)
      → Takes blank decimal right (k + 8) (k + 16)
      → Takes blank decimal
          (generate_binary_double_op blank decimal type left right repr ret)
          k
          (if ret then k + 8 else k)
  double_arithmetic-Takes type left right repr true k h a b =
      operands_Takes type left right repr true k (k + 8) (k + 8) a b (omega arith)
        (arithmetic_case type repr true (k + 8) h)
  double_arithmetic-Takes type left right repr false k h a b =
      operands_Takes type left right repr false k k k a b refl (arithmetic_case type repr false k h)

  -- Where the code of each operand pushes eight bytes, the code of a comparison on double pushes
  -- four bytes if its value is wanted; if it is not, and there were `k + 8` bytes on the stack,
  -- `k + 4` are left, so four bytes of what was there before are lost.
  pub double_comparison-Takes :
      (type : NodeType) (left right : Code → Code) (repr : Bytes) (k : ℕ)
      → is_comparison type ≡ true
      → ((m : ℕ) → Takes blank decimal left m (m + 8))
      → ((m : ℕ) → Takes blank decimal right m (m + 8))
      → Takes blank decimal
          (generate_binary_double_op blank decimal type left right repr true)
          k
          (k + 4)
        × Takes blank decimal
            (generate_binary_double_op blank decimal type left right repr false)
            (k + 8)
            (k + 4)
  double_comparison-Takes type left right repr k h a b =
      let more : (m : ℕ) → m + 8 + 8 ≡ m + 16 = λ m. omega arith in
      (
        operands_Takes type left right repr true k (k + 8) (k + 4) (a k)
            (rw (sym (more k)) (b (k + 8))) (omega arith) (comparison_case type repr true k h),
        operands_Takes type left right repr false (k + 8) (k + 8) (k + 4) (a (k + 8))
            (rw (sym (more (k + 8))) (b (k + 8 + 8))) refl (comparison_case type repr false k h),
      )
