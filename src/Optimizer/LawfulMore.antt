-- ===== src/Optimizer/LawfulMore.antt =====
-- src/optimizer.c: the other passes shrink the code and keep its labels, and so does a whole window.
use jacc.Common.{
  ◌≤◌, neg_int, add_int, is_negative, ltb, arith, ◌≡◌, refl, false, List, [], ◌∷◌, some,
  if◌then◌else◌,
}
use jacc.Asm.{Command, Instruction, Register}
use jacc.Optimizer.Equality.{signed_value}
use jacc.Asm.Instructions.{is, code}
use jacc.Optimizer.Moves.{
  opt_mov, mov_mov, mov_test, mov_imul, opt_cond_jmp, jump_of_set, invert_instruction,
}
use jacc.Optimizer.Arithmetic.{opt_add_sub, add_sub_pair, opt_imul2, opt_idiv}
use jacc.Optimizer.Loop.{nop_range}
use jacc.Optimizer.Weight.{
  weight, texts, Lawful, Lawful-if, Lawful-else, Lawful-unless, Lawful-when, type_weight,
  pass_codes,
}

pub opt_imul2-Lawful : (cs : List Command) → Lawful 1 cs (opt_imul2 cs)
unfolding opt_imul2 nop_range weight texts
opt_imul2-Lawful [] = tt
opt_imul2-Lawful (a ∷ cs) =
    Lawful-if 1 (a ∷ cs) _ _ _
      λ h. record { keeps = refl; lighter = ground pass_codes; same_texts = ground pass_codes }

pub opt_idiv-Lawful : (cs : List Command) → Lawful 3 cs (opt_idiv cs)
unfolding opt_idiv nop_range weight texts
opt_idiv-Lawful [] = tt
opt_idiv-Lawful (a ∷ []) = tt
opt_idiv-Lawful (a ∷ b ∷ []) = tt
opt_idiv-Lawful (a ∷ b ∷ c ∷ cs) =
    Lawful-if 3 (a ∷ b ∷ c ∷ cs) _ _ _
      λ h. record { keeps = refl; lighter = ground pass_codes; same_texts = ground pass_codes }

pub opt_mov-Lawful : (cs : List Command) → Lawful 2 cs (opt_mov cs)
unfolding opt_mov nop_range weight texts
opt_mov-Lawful [] = tt
opt_mov-Lawful (a ∷ []) = tt
opt_mov-Lawful (a ∷ b ∷ cs) =
    let l = a ∷ b ∷ cs in
    Lawful-unless 2 l _ _ λ m.
      Lawful-else 2 l (mov_mov a b) 1 (record a { op0 = b.op0 } ∷ b ∷ cs) _
        (λ h. record { keeps = refl; lighter = ground pass_codes; same_texts = ground pass_codes })
        λ _.
          Lawful-else 2 l (mov_test a b) 1
            (record a { type = Instruction.test; op0 = a.op1 } ∷ b ∷ cs) _
            (λ h. record {
              keeps = refl;
              lighter = ground pass_codes;
              same_texts = ground pass_codes;
            })
            λ _.
              Lawful-if 2 l (mov_imul a b) 1
                (record a { type = Instruction.imul2; op0 = record (a.op0) { reg = Register.eax } }
                  ∷ b
                  ∷ cs)
                λ h. record {
                  keeps = refl;
                  lighter = ground pass_codes;
                  same_texts = ground pass_codes;
                }

pub opt_add_sub-Lawful : (cs : List Command) → Lawful 2 cs (opt_add_sub cs)
unfolding opt_add_sub nop_range weight texts
opt_add_sub-Lawful [] = tt
opt_add_sub-Lawful (a ∷ []) = tt
opt_add_sub-Lawful (a ∷ b ∷ cs) =
    let l = a ∷ b ∷ cs in
    let value = add_int (signed_value a.type a.op1.value) (signed_value b.type b.op1.value) in
    let sum =
      record a { type = Instruction.add; op1 = record (a.op1) { value = value } } ∷ b ∷ cs in
    Lawful-when 2 l (add_sub_pair a b) _ λ h.
      Lawful-else 2 l (is_negative value) 1
        (record a { type = Instruction.sub; op1 = record (a.op1) { value = neg_int value } }
          ∷ b
          ∷ cs)
        (if ltb 0 value then some (1, sum) else some (0, l))
        (λ _. record { keeps = refl; lighter = ground pass_codes; same_texts = ground pass_codes })
        λ _.
          Lawful-else 2 l (ltb 0 value) 1 sum (some (0, l))
            (λ _. record {
              keeps = refl;
              lighter = ground pass_codes;
              same_texts = ground pass_codes;
            })
            λ _. record {
              keeps = refl;
              lighter = ground pass_codes;
              same_texts = ground pass_codes;
            }

-- A `setcc` and its jump, inverted or not, are no TEXT.
jump_of_set-ne_text :
    (t : Instruction)
    → (is (jump_of_set t) Instruction.text ≡ false)
      × (is (invert_instruction (jump_of_set t)) Instruction.text ≡ false)
unfolding jump_of_set invert_instruction code
jump_of_set-ne_text Instruction.text = (refl, refl)
jump_of_set-ne_text _ = (refl, refl)

set-weight :
    (t : Instruction)
    → is (jump_of_set t) Instruction.nop ≡ false
    → (is t Instruction.text ≡ false) × (type_weight t ≡ 2)
unfolding jump_of_set code
set-weight Instruction.text h = cc
set-weight Instruction.sete h = (refl, refl)
set-weight Instruction.setne h = (refl, refl)
set-weight Instruction.setle h = (refl, refl)
set-weight Instruction.setl h = (refl, refl)
set-weight Instruction.setge h = (refl, refl)
set-weight Instruction.setg h = (refl, refl)
set-weight _ h = cc

type_weight-le : (t : Instruction) → type_weight t ≤ 3
type_weight-le t = ground arith

pub opt_cond_jmp-Lawful : (cs : List Command) → Lawful 3 cs (opt_cond_jmp cs)
unfolding opt_cond_jmp nop_range weight texts
opt_cond_jmp-Lawful [] = tt
opt_cond_jmp-Lawful (a ∷ []) = tt
opt_cond_jmp-Lawful (a ∷ b ∷ []) = tt
opt_cond_jmp-Lawful (a ∷ b ∷ c ∷ cs) = Lawful-if 3 (a ∷ b ∷ c ∷ cs) _ _ _ λ h.
    let jump = jump_of_set-ne_text a.type in
    let set = set-weight a.type (ground arith) in
    let low = type_weight-le (jump_of_set a.type) in
    let low' = type_weight-le (invert_instruction (jump_of_set a.type)) in
    record {
      keeps = refl;
      lighter = ground (pass_codes, jump, set, low, low');
      same_texts = ground (pass_codes, jump, set);
    }
