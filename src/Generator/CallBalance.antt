-- ===== src/Generator/CallBalance.antt =====
-- src/generator.c: the stack that casts and calls use, by what
-- the code of the operands does to it.
use jacc.Common.{
  ℕ, ◌+◌, some, [], ◌∷◌, Bool, true, false, ◌&&◌, ◌==◌, if◌then◌else◌, ◌≡◌, refl, arith,
}
use jacc.Asm.{Instruction}
use jacc.Ast.{Pointer, Nodes}
use jacc.Types.Symbols.{Symbol, load, sym_double}
use jacc.Types.Resolve.{resolve_alias}
use jacc.Types.Arithmetic.{is_sym}
use jacc.Generator.Emit.{Code, run}
use jacc.Generator.Operators.{eax, st0, when}
use jacc.Generator.Balance.{height_after}
use jacc.Generator.Settings.{Settings, put}
use jacc.Generator.Steps.{
  Moves, grown, done, ◌⨾◌, keeps, pushes, drops, grows, read, Pushes, Leaves,
}
use jacc.Generator.Calls.{
  arguments_size, target, is_word, call_result, call_code, generate_call, is_scalar_word,
  int_to_double, double_to_int, convert, generate_cast,
}

module _ (g : Settings) where
  -- The types of a cast and of its operand.
  pub record Casts (to of : Pointer) (ret_type s0 : ℕ) (word : Bool) : Type 0 where
    pub to_resolved : resolve_alias g.store to ≡ some ret_type
    pub of_resolved : resolve_alias g.store of ≡ some s0
    pub of_word : is_scalar_word g s0 ≡ some word

  module _ {to of : Pointer} {ret_type s0 : ℕ} {word : Bool} (t : Casts to of ret_type s0 word)
      (operand : Bool → Code → Code) where
    -- Without a value, the cast is what its operand is.
    pub cast-Leaves : Leaves g operand → Leaves g (λ r. generate_cast g to of operand r)
    unfolding generate_cast
    cast-Leaves l k = rw (t.to_resolved, t.of_resolved) ((l k ⨾ nothing k ⨾ done).moves)
      where
        nothing : (k : ℕ) → Moves g (when g.blank g.decimal false (convert g s0 ret_type)) k k
        nothing k = record { apply = λ h c e. e }

    converted :
        (w v : ℕ)
        → Pushes g operand w
        → ((k : ℕ) → Moves g (convert g s0 ret_type) (k + w) (k + v))
        → Pushes g (λ r. generate_cast g to of operand r) v
    unfolding generate_cast
    converted w v p c k = rw (t.to_resolved, t.of_resolved) ((p k ⨾ c k ⨾ done).moves)

    pub widen-Pushes :
        word ≡ true
        → (ret_type == sym_double) ≡ true
        → Pushes g operand 4
        → Pushes g (λ r. generate_cast g to of operand r) 8
    unfolding convert int_to_double height_after
    widen-Pushes w d p = converted 4 8 p (λ k.
        (let more : k + 4 + 4 ≡ k + 8 = omega arith in
          rw (t.of_word, w, d)
            ((keeps g Instruction.fild _ (k + 4) refl
              ⨾ rw more at (grows g 4 (k + 4))
              ⨾ keeps g Instruction.fstp _ (k + 8) refl
              ⨾ done).moves)))

    pub narrow-Pushes :
        word ≡ false
        → (s0 == sym_double) ≡ true
        → is_scalar_word g ret_type ≡ some true
        → Pushes g operand 8
        → Pushes g (λ r. generate_cast g to of operand r) 4
    unfolding convert double_to_int height_after
    narrow-Pushes w d i p = converted 8 4 p (λ k.
        (let more : k + 4 + 4 ≡ k + 8 = omega arith in
          rw (t.of_word, w, d, i)
            ((keeps g Instruction.fld _ (k + 8) refl
              ⨾ keeps g Instruction.fisttp _ (k + 8) refl
              ⨾ rw more at (drops g 4 (k + 4))
              ⨾ done).moves)))

    pub word_cast-Pushes :
        (w : ℕ)
        → (ret_type == sym_double) ≡ false
        → (s0 == sym_double) ≡ false
        → Pushes g operand w
        → Pushes g (λ r. generate_cast g to of operand r) w
    unfolding convert
    word_cast-Pushes w d e p = converted w w p (λ k. rw (t.of_word, d, e) (unchanged word k))
      where
        unchanged :
            (b : Bool) (k : ℕ)
            → Moves g (if b && false then int_to_double g else run []) (k + w) (k + w)
        unchanged true k = done.moves
        unchanged false k = done.moves

    pub double_cast-Pushes :
        (w : ℕ)
        → word ≡ false
        → (s0 == sym_double) ≡ true
        → is_scalar_word g ret_type ≡ some false
        → Pushes g operand w
        → Pushes g (λ r. generate_cast g to of operand r) w
    unfolding convert
    double_cast-Pushes w f d i p = converted w w p (λ k. rw (t.of_word, f, d, i) done.moves)

  -- The result of a call after the arguments were dropped.
  call_code-Moves :
      (f : Symbol) (size : ℕ) (arguments : Code → Code) (p : Pointer) (word ret : Bool) (k m : ℕ)
      → Moves g arguments k (k + size)
      → is_word g p ≡ some word
      → Moves g (call_result g p word ret) k m
      → Moves g (call_code g f size arguments p ret) k m
  unfolding call_code height_after
  call_code-Moves f size arguments p word ret k m a w r =
      (a
        ⨾ keeps g Instruction.call (target g f ∷ []) (k + size) refl
        ⨾ drops g size k
        ⨾ read g (is_word g p) (λ b. call_result g p b ret) word k m w r
        ⨾ done).moves

  -- A call of a function that is known, whose arguments have `size` bytes.
  pub record Calls (function : Pointer) (arguments : Nodes) (size : ℕ) (type : Pointer)
      (word : Bool) : Type 0 where
    pub callee : Symbol
    pub callee_at : load g.store function ≡ some callee
    pub sizes : arguments_size g arguments ≡ some size
    pub is_word_type : is_word g type ≡ some word

  module _ {function : Pointer} {arguments : Nodes} {size : ℕ} {p : Pointer} {word : Bool}
      (t : Calls function arguments size p word) (push_arguments : Code → Code)
      (pushed : (k : ℕ) → Moves g push_arguments k (k + size)) where
    call-Moves :
        (ret : Bool) (k m : ℕ)
        → Moves g (call_result g p word ret) k m
        → Moves g (generate_call g function arguments push_arguments p ret) k m
    unfolding generate_call
    call-Moves ret k m r =
        rw (t.sizes, t.callee_at)
          (call_code-Moves t.callee size push_arguments p word ret k m (pushed k) t.is_word_type r)

    pub call_word-Moves :
        (ret : Bool) (k : ℕ)
        → word ≡ true
        → Moves g (generate_call g function arguments push_arguments p ret) k (grown g ret 4 k)
    unfolding call_result
    call_word-Moves ret k w = call-Moves ret k (grown g ret 4 k) (rw w (result ret))
      where
        result :
            (ret : Bool)
            → Moves g
                (if ret then put g Instruction.push (eax ∷ []) else run [])
                k
                (grown g ret 4 k)
        result true = pushes g eax k
        result false = done.moves

    pub call_double-Moves :
        (ret : Bool) (k : ℕ)
        → word ≡ false
        → is_sym p sym_double ≡ true
        → Moves g (generate_call g function arguments push_arguments p ret) k (grown g ret 8 k)
    unfolding call_result height_after
    call_double-Moves true k w d =
        call-Moves true k (k + 8)
          (rw (w, d) ((grows g 8 k ⨾ keeps g Instruction.fstp _ (k + 8) refl ⨾ done).moves))
    call_double-Moves false k w d =
        call-Moves false k k (rw (w, d) (keeps g Instruction.ffreep (st0 ∷ []) k refl))

    -- A call of a function of any other type pushes nothing, whether a value is wanted or not.
    pub call_other-Moves :
        (ret : Bool) (k : ℕ)
        → word ≡ false
        → is_sym p sym_double ≡ false
        → Moves g (generate_call g function arguments push_arguments p ret) k k
    unfolding call_result
    call_other-Moves ret k w d = call-Moves ret k k (rw (w, d) done.moves)
