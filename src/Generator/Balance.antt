-- ===== src/Generator/Balance.antt =====
-- src/generator.c: how much of the machine's stack the code of an operator uses.
use jacc.Common.{
  ℕ, zero, suc, ◌+◌, ◌-◌, List, [], ◌∷◌, ◌++◌, Bytes, Bool, false, if◌then◌else◌, ltb, ◌&&◌, Option,
  none, some, ◌>>=◌, ◌≡◌, refl, ap, ◌∙◌, arith,
}
use jacc.Asm.{Instruction, Register, OperandType, Operand, Command}
use jacc.Asm.Codes.{is_reg, is_type}
use jacc.Asm.Instructions.{op_count}
use jacc.Generator.Emit.{Code, add_opcode, fill_ops, emit, emit_text, run}

-- Whether the command is one of `add esp, n` and `sub esp, n`.
unfoldable pub moves_esp : Command → Bool
moves_esp c =
    is_type c.op0.type OperandType.register
    && (is_reg c.op0.reg Register.esp && is_type c.op1.type OperandType.constant)

unfoldable pub drop_bytes : ℕ → ℕ → Option ℕ
drop_bytes n h = if ltb h n then none else some (h - n)

-- The bytes on the stack after a command, from `h` before it; none where more is dropped than
-- there is.
unfoldable pub height_after : Instruction → Command → ℕ → Option ℕ
unfolding moves_esp drop_bytes
height_after Instruction.push c h = some (h + 4)
height_after Instruction.pop c h = drop_bytes 4 h
height_after Instruction.add c h = if moves_esp c then drop_bytes c.op1.value h else some h
height_after Instruction.sub c h = if moves_esp c then some (h + c.op1.value) else some h
height_after _ c h = some h

-- The bytes on the stack after a list of commands.
unfoldable pub height : List Command → ℕ → Option ℕ
unfolding height_after
height [] h = some h
height (c ∷ cs) h = height_after c.type c h >>= λ k. height cs k

height-append :
    (xs : List Command) (c : Command) (h : ℕ)
    → height (xs ++ c ∷ []) h ≡ (height xs h >>= λ k. height_after c.type c k)
unfolding height
height-append [] c h = none_right (height_after c.type c h)
  where
    none_right : (o : Option ℕ) → (o >>= λ k. some k) ≡ o
    none_right none = refl
    none_right (some k) = refl
height-append (x ∷ xs) c h =
    bind_cases (height_after x.type x h) (height (xs ++ c ∷ [])) (height xs)
      (λ k. height_after c.type c k) (height-append xs c)
  where
    bind_cases :
        (o : Option ℕ) (f g e : ℕ → Option ℕ)
        → ((k : ℕ) → f k ≡ (g k >>= λ m. e m))
        → (o >>= λ k. f k) ≡ ((o >>= λ k. g k) >>= λ k. e k)
    bind_cases none f g e eq = refl
    bind_cases (some k) f g e eq = eq k

fill_ops-type : (n : ℕ) (args : List Operand) (c : Command) → (fill_ops n args c).type ≡ c.type
unfolding fill_ops
fill_ops-type zero args c = refl
fill_ops-type (suc zero) [] c = refl
fill_ops-type (suc zero) (a ∷ args) c = refl
fill_ops-type (suc (suc n)) [] c = refl
fill_ops-type (suc (suc n)) (a ∷ []) c = refl
fill_ops-type (suc (suc n)) (a ∷ b ∷ args) c = refl

module _ (blank : Command) (decimal : ℕ → Bytes) where
  -- The code that has been emitted takes a stack of `h` bytes to one of `k` bytes.
  abbrev pub IsAt : ℕ → ℕ → Code → Type 0
  IsAt h k c = height c.opcode_list h ≡ some k

  emit_step :
      (cmd : Instruction) (args : List Operand) (h k k' : ℕ) (c : Code)
      → IsAt h k c
      → height_after cmd (fill_ops (op_count cmd) args (record blank { type = cmd })) k ≡ some k'
      → IsAt h k' (emit blank decimal cmd args c)
  unfolding emit add_opcode
  emit_step cmd args h k k' c e f =
      let new = fill_ops (op_count cmd) args (record blank { type = cmd }) in
      height-append c.opcode_list new h
      ∙ ap (λ o. o >>= λ m. height_after new.type new m) e
      ∙ ap (λ t. height_after t new k)
          (fill_ops-type (op_count cmd) args (record blank { type = cmd }))
      ∙ f

  text_step :
      (text : Bytes) (h k : ℕ) (c : Code) → IsAt h k c → IsAt h k (emit_text blank decimal text c)
  unfolding emit_text add_opcode height_after
  text_step text h k c e =
      let new = record blank { type = Instruction.text; text = text } in
      height-append c.opcode_list new h ∙ ap (λ o. o >>= λ m. height_after new.type new m) e

  -- A statement that takes every stack of `k` bytes to one of `m` bytes, whatever came before it.
  pub record Takes (f : Code → Code) (k m : ℕ) : Type 0 where
    pub apply : (h : ℕ) (c : Code) → IsAt h k c → IsAt h m (f c)

  pub emit-Takes :
      (cmd : Instruction) (args : List Operand) (k m : ℕ)
      → height_after cmd (fill_ops (op_count cmd) args (record blank { type = cmd })) k ≡ some m
      → Takes (emit blank decimal cmd args) k m
  emit-Takes cmd args k m f = record { apply = λ h c e. emit_step cmd args h k m c e f }

  pub text-Takes : (text : Bytes) (k : ℕ) → Takes (emit_text blank decimal text) k k
  text-Takes text k = record { apply = λ h c e. text_step text h k c e }

  pub end-Takes : (k : ℕ) → Takes (run []) k k
  unfolding run
  end-Takes k = record { apply = λ h c e. e }

  pub next-Takes :
      (f : Code → Code) (fs : List (Code → Code)) (k l m : ℕ)
      → Takes f k l
      → Takes (run fs) l m
      → Takes (run (f ∷ fs)) k m
  unfolding run
  next-Takes f fs k l m first rest = record {
    apply = λ h c e. rest.apply h (f c) (first.apply h c e);
  }

  -- A command that leaves the stack alone, and the statements behind it.
  pub quiet :
      (cmd : Instruction) (args : List Operand) (fs : List (Code → Code)) (k m : ℕ)
      → height_after cmd (fill_ops (op_count cmd) args (record blank { type = cmd })) k ≡ some k
      → Takes (run fs) k m
      → Takes (run (emit blank decimal cmd args ∷ fs)) k m
  quiet cmd args fs k m f rest =
      next-Takes (emit blank decimal cmd args) fs k k m (emit-Takes cmd args k k f) rest

  pub pop_lem : (k : ℕ) → drop_bytes 4 (k + 4) ≡ some k
  unfolding drop_bytes
  pop_lem k =
      let e : k + 4 - 4 ≡ k = omega arith in
      let f : ltb (k + 4) 4 ≡ false = ground arith in rw (f, e) refl
