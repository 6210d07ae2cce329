-- ===== src/Generator/IntBalance.antt =====
-- src/generator.c: the stack that the code of the operators on int uses.
use jacc.Common.{
  ℕ, ◌+◌, List, [], ◌∷◌, ◌++◌, Bytes, Bool, true, false, if◌then◌else◌, ◌≡◌, refl, some,
}
use jacc.Asm.{Instruction, Operand, Command}
use jacc.Asm.Codes.{reg_code, type_code}
use jacc.Asm.Instructions.{op_count}
use jacc.Generator.Operands.{reg, label, deref, dword}
use jacc.Ast.{NodeType}
use jacc.Generator.Emit.{Code, fill_ops, gen_label, unset, emit, emit_label, run}
use jacc.Generator.Operators.{
  eax, ebx, ecx, edx, cl, generate_int_cmp, generate_int_logical_op, unary_int_case,
  generate_unary_int_op, binary_int_case, generate_binary_int_op, unknown_unary, unknown_binary,
  when,
}
use jacc.Generator.Balance.{
  moves_esp, height_after, Takes, emit-Takes, text-Takes, end-Takes, next-Takes, quiet, pop_lem,
}

module _ (blank : Command) (decimal : ℕ → Bytes) where
  int_cmp-Takes :
      (cmd : Instruction) (k : ℕ)
      → height_after cmd (fill_ops (op_count cmd) (cl ∷ []) (record blank { type = cmd })) k
        ≡ some k
      → Takes blank decimal (generate_int_cmp blank decimal cmd) k k
  unfolding generate_int_cmp height_after
  int_cmp-Takes cmd k same = quiet blank decimal Instruction.xor (ecx ∷ ecx ∷ []) _ k k refl (
      quiet blank decimal Instruction.cmp (eax ∷ ebx ∷ []) _ k k refl (
        quiet blank decimal cmd (cl ∷ []) _ k k same (
          quiet blank decimal Instruction.mov (eax ∷ ecx ∷ []) _ k k refl
            (end-Takes blank decimal k))))

  logical_op-Takes :
      (cmd : Instruction) (k : ℕ)
      → ((args : List Operand)
          → height_after cmd (fill_ops (op_count cmd) args (record blank { type = cmd })) k
            ≡ some k)
      → Takes blank decimal (generate_int_logical_op blank decimal cmd) k k
  unfolding generate_int_logical_op gen_label emit_label height_after
  logical_op-Takes cmd k same = record {
    apply = λ h c e.
        (let lbl = (gen_label c).0 in
          let body = quiet blank decimal Instruction.xor (ecx ∷ ecx ∷ []) _ k k refl (
            quiet blank decimal Instruction.test (eax ∷ eax ∷ []) _ k k refl (
              quiet blank decimal cmd (label (unset blank decimal) lbl ∷ []) _ k k (same _) (
                quiet blank decimal Instruction.test (ebx ∷ ebx ∷ []) _ k k refl (
                  next-Takes blank decimal (emit_label blank decimal lbl) _ k k k
                    (text-Takes blank decimal _ k)
                    (quiet blank decimal Instruction.setnz (cl ∷ []) _ k k refl (
                      quiet blank decimal Instruction.mov (eax ∷ ecx ∷ []) [] k k refl
                        (end-Takes blank decimal k))))))) in
          body.apply h ((gen_label c).1) e);
  }

  shift-Takes :
      (cmd : Instruction) (k : ℕ)
      → height_after cmd (fill_ops (op_count cmd) (eax ∷ cl ∷ []) (record blank { type = cmd })) k
        ≡ some k
      → Takes blank decimal
          (run (
            emit blank decimal Instruction.mov (ecx ∷ ebx ∷ [])
            ∷ emit blank decimal cmd (eax ∷ cl ∷ [])
            ∷ []))
          k
          k
  unfolding height_after
  shift-Takes cmd k same =
      quiet blank decimal Instruction.mov (ecx ∷ ebx ∷ []) _ k k refl
        (quiet blank decimal cmd (eax ∷ cl ∷ []) [] k k same (end-Takes blank decimal k))

  binary_case-Takes :
      (type : NodeType) (repr : Bytes) (k : ℕ)
      → Takes blank decimal (binary_int_case blank decimal type repr) k k
  unfolding binary_int_case height_after moves_esp fill_ops op_count reg reg_code type_code
  binary_case-Takes NodeType.add_node repr k =
      emit-Takes blank decimal Instruction.add (eax ∷ ebx ∷ []) k k refl
  binary_case-Takes NodeType.sub_node repr k =
      emit-Takes blank decimal Instruction.sub (eax ∷ ebx ∷ []) k k refl
  binary_case-Takes NodeType.mul_node repr k =
      emit-Takes blank decimal Instruction.imul (ebx ∷ []) k k refl
  binary_case-Takes NodeType.lshift_node repr k = shift-Takes Instruction.sal k refl
  binary_case-Takes NodeType.rshift_node repr k = shift-Takes Instruction.sar k refl
  binary_case-Takes NodeType.div_node repr k =
      quiet blank decimal Instruction.cdq [] _ k k refl
        (quiet blank decimal Instruction.idiv (ebx ∷ []) [] k k refl (end-Takes blank decimal k))
  binary_case-Takes NodeType.mod_node repr k = quiet blank decimal Instruction.cdq [] _ k k refl (
      quiet blank decimal Instruction.idiv (ebx ∷ []) _ k k refl (
        quiet blank decimal Instruction.mov (eax ∷ edx ∷ []) [] k k refl
          (end-Takes blank decimal k)))
  binary_case-Takes NodeType.eq_node repr k = int_cmp-Takes Instruction.sete k refl
  binary_case-Takes NodeType.ne_node repr k = int_cmp-Takes Instruction.setne k refl
  binary_case-Takes NodeType.le_node repr k = int_cmp-Takes Instruction.setle k refl
  binary_case-Takes NodeType.lt_node repr k = int_cmp-Takes Instruction.setl k refl
  binary_case-Takes NodeType.ge_node repr k = int_cmp-Takes Instruction.setge k refl
  binary_case-Takes NodeType.gt_node repr k = int_cmp-Takes Instruction.setg k refl
  binary_case-Takes NodeType.bit_xor_node repr k =
      emit-Takes blank decimal Instruction.xor (eax ∷ ebx ∷ []) k k refl
  binary_case-Takes NodeType.bit_or_node repr k =
      emit-Takes blank decimal Instruction.or (eax ∷ ebx ∷ []) k k refl
  binary_case-Takes NodeType.bit_and_node repr k =
      emit-Takes blank decimal Instruction.and (eax ∷ ebx ∷ []) k k refl
  binary_case-Takes NodeType.and_node repr k = logical_op-Takes Instruction.jz k (λ args. refl)
  binary_case-Takes NodeType.or_node repr k = logical_op-Takes Instruction.jnz k (λ args. refl)
  binary_case-Takes _ repr k = text-Takes blank decimal (unknown_binary ++ repr) k

  push_if :
      (ret : Bool) (k : ℕ)
      → Takes blank decimal
          (run (when blank decimal ret (emit blank decimal Instruction.push (eax ∷ [])) ∷ []))
          k
          (if ret then k + 4 else k)
  unfolding height_after
  push_if true k =
      next-Takes blank decimal (emit blank decimal Instruction.push (eax ∷ [])) [] k (k + 4) (k + 4)
        (emit-Takes blank decimal Instruction.push (eax ∷ []) k (k + 4) refl)
        (end-Takes blank decimal (k + 4))
  push_if false k =
      next-Takes blank decimal (λ c. c) [] k k k (record { apply = λ h c e. e })
        (end-Takes blank decimal k)

  -- Where the code of each operand pushes four bytes, the code of a binary operator on int pushes
  -- four bytes if its value is wanted, and none if it is not.
  pub binary_int_op-Takes :
      (type : NodeType) (left right : Code → Code) (repr : Bytes) (ret : Bool) (k : ℕ)
      → Takes blank decimal left k (k + 4)
      → Takes blank decimal right (k + 4) (k + 4 + 4)
      → Takes blank decimal
          (generate_binary_int_op blank decimal type left right repr ret)
          k
          (if ret then k + 4 else k)
  unfolding generate_binary_int_op height_after
  binary_int_op-Takes type left right repr ret k l r =
      next-Takes blank decimal left _ k (k + 4) (if ret then k + 4 else k) l (
        next-Takes blank decimal right _ (k + 4) (k + 4 + 4) _ r (
          next-Takes blank decimal (emit blank decimal Instruction.pop (ebx ∷ [])) _ (k + 4 + 4)
            (k + 4) _
            (emit-Takes blank decimal Instruction.pop (ebx ∷ []) (k + 4 + 4) (k + 4)
              (pop_lem blank decimal (k + 4)))
            (next-Takes blank decimal (emit blank decimal Instruction.pop (eax ∷ [])) _ (k + 4) k _
              (emit-Takes blank decimal Instruction.pop (eax ∷ []) (k + 4) k
                (pop_lem blank decimal k))
              (next-Takes blank decimal (binary_int_case blank decimal type repr) _ k k _
                (binary_case-Takes type repr k) (push_if ret k)))))

  -- The two orders in which a prefix and a postfix operator load and change the operand.
  when-Takes :
      (ret : Bool) (cmd : Instruction) (args : List Operand) (fs : List (Code → Code)) (k m : ℕ)
      → height_after cmd (fill_ops (op_count cmd) args (record blank { type = cmd })) k ≡ some k
      → Takes blank decimal (run fs) k m
      → Takes blank decimal (run (when blank decimal ret (emit blank decimal cmd args) ∷ fs)) k m
  when-Takes true cmd args fs k m e rest = quiet blank decimal cmd args fs k m e rest
  when-Takes false cmd args fs k m e rest =
      next-Takes blank decimal (λ c. c) fs k k m (record { apply = λ h c p. p }) rest

  -- The address of the operand goes to EBX.
  address_popped :
      (address : Code → Code) (fs : List (Code → Code)) (k : ℕ)
      → Takes blank decimal address k (k + 4)
      → Takes blank decimal (run fs) k k
      → Takes blank decimal (run (address ∷ emit blank decimal Instruction.pop (ebx ∷ []) ∷ fs)) k k
  unfolding height_after
  address_popped address fs k a rest = next-Takes blank decimal address _ k (k + 4) k a (
      next-Takes blank decimal (emit blank decimal Instruction.pop (ebx ∷ [])) fs (k + 4) k k
        (emit-Takes blank decimal Instruction.pop (ebx ∷ []) (k + 4) k (pop_lem blank decimal k))
        rest)

  -- The operand in memory at EBX.
  abbrev cell : Operand
  cell = dword (deref (unset blank decimal) ebx)

  unary_case-Takes :
      (type : NodeType) (address : Code → Code) (repr : Bytes) (ret : Bool) (k : ℕ)
      → Takes blank decimal address k (k + 4)
      → Takes blank decimal (unary_int_case blank decimal type address repr ret) k k
  unfolding unary_int_case height_after
  unary_case-Takes NodeType.logical_negation_node address repr ret k a =
      quiet blank decimal Instruction.xor (ecx ∷ ecx ∷ []) _ k k refl (
        quiet blank decimal Instruction.test (eax ∷ eax ∷ []) _ k k refl (
          quiet blank decimal Instruction.setz (cl ∷ []) _ k k refl (
            quiet blank decimal Instruction.mov (eax ∷ ecx ∷ []) [] k k refl
              (end-Takes blank decimal k))))
  unary_case-Takes NodeType.complement_node address repr ret k a =
      emit-Takes blank decimal Instruction.not (eax ∷ []) k k refl
  unary_case-Takes NodeType.negation_node address repr ret k a =
      emit-Takes blank decimal Instruction.neg (eax ∷ []) k k refl
  unary_case-Takes NodeType.identity_node address repr ret k a = end-Takes blank decimal k
  unary_case-Takes NodeType.prefix_inc_node address repr ret k a = address_popped address _ k a (
      quiet blank decimal Instruction.inc (cell ∷ []) _ k k refl
        (when-Takes ret Instruction.mov (eax ∷ cell ∷ []) [] k k refl (end-Takes blank decimal k)))
  unary_case-Takes NodeType.prefix_dec_node address repr ret k a = address_popped address _ k a (
      quiet blank decimal Instruction.dec (cell ∷ []) _ k k refl
        (when-Takes ret Instruction.mov (eax ∷ cell ∷ []) [] k k refl (end-Takes blank decimal k)))
  unary_case-Takes NodeType.postfix_inc_node address repr ret k a = address_popped address _ k a (
      when-Takes ret Instruction.mov (eax ∷ cell ∷ []) _ k k refl
        (quiet blank decimal Instruction.inc (cell ∷ []) [] k k refl (end-Takes blank decimal k)))
  unary_case-Takes NodeType.postfix_dec_node address repr ret k a = address_popped address _ k a (
      when-Takes ret Instruction.mov (eax ∷ cell ∷ []) _ k k refl
        (quiet blank decimal Instruction.dec (cell ∷ []) [] k k refl (end-Takes blank decimal k)))
  unary_case-Takes _ address repr ret k a = text-Takes blank decimal (unknown_unary ++ repr) k

  -- Where the code of the operand and that of its address push four bytes, the code of a unary
  -- operator on int pushes four bytes if its value is wanted, and none if it is not.
  pub unary_int_op-Takes :
      (type : NodeType) (left address : Code → Code) (repr : Bytes) (ret : Bool) (k : ℕ)
      → Takes blank decimal left k (k + 4)
      → Takes blank decimal address k (k + 4)
      → Takes blank decimal
          (generate_unary_int_op blank decimal type left address repr ret)
          k
          (if ret then k + 4 else k)
  unfolding generate_unary_int_op height_after
  unary_int_op-Takes type left address repr ret k l a =
      next-Takes blank decimal left _ k (k + 4) _ l (
        next-Takes blank decimal (emit blank decimal Instruction.pop (eax ∷ [])) _ (k + 4) k _
          (emit-Takes blank decimal Instruction.pop (eax ∷ []) (k + 4) k (pop_lem blank decimal k))
          (next-Takes blank decimal (unary_int_case blank decimal type address repr ret) _ k k _
            (unary_case-Takes type address repr ret k a) (push_if ret k)))
