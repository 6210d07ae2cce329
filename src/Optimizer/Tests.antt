-- ===== src/Optimizer/Tests.antt =====
-- src/optimizer.c: the theorems at concrete commands.
use jacc.Common.{
  ℕ, ◌≡◌, ◌≢◌, refl, some, List, [], ◌∷◌, ◌≤◌, ◌-◌, length, take, int_mod, arith, Bool, true, ◌&&◌,
  if◌then◌else◌, ap, inl, inr, Bool-cases,
}
use jacc.Asm.{
  Instruction, Register, register, constant, OperandType, OperandSize, Label, RegOrLabel, Operand,
  Command,
}
use jacc.Asm.Instructions.{code}
use jacc.Asm.Codes.{type_code, reg_code, is_type, is_reg, is_type_sound}
use jacc.Optimizer.Equality.{is_eq, is_eq_type, is_eq_reg, signed_value}
use jacc.Optimizer.Loop.{passes, sweep, optimizer_optimize}
use jacc.Optimizer.Arithmetic.{
  opt_add_sub, add_sub_pair, is_power_of_2, opt_imul2, opt_idiv, idiv_triple,
}
use jacc.Optimizer.Moves.{opt_cond_jmp, jump_of_set, set_test_jump}
use jacc.Optimizer.Weight.{weight, texts}
use jacc.Optimizer.Window.{passes-AllLawful}
use jacc.Optimizer.Compact.{compact, sweep-compact}
use jacc.Optimizer.Progress.{optimize-Ends}
use jacc.Optimizer.Meaning.{run_constant, imul2-effect, imul2_zero-wrong}
use jacc.Optimizer.Machine.{Places, run_commands}
use jacc.Optimizer.Sums.{add_sub-effect}
use jacc.Optimizer.Jumps.{run_set, tests_zero, jumps, branches, cond_jmp-jumps}
use jacc.Optimizer.Division.{quotient, run_shift, idiv_negative-wrong}

abbrev no_label : Label
no_label = record { id = 0; name = 0 }

abbrev no_base : RegOrLabel
no_base = record { type = OperandType.register; reg = Register.eax; label = no_label }

abbrev register_operand : Register → Operand
register_operand r = record {
  type = OperandType.register;
  reg = r;
  label = no_label;
  memory = record {
    base = no_base;
    index = no_base;
    size = OperandSize.dword;
    offset = 0;
    scale = 0;
  };
  value = 0;
}

abbrev constant_operand : ℕ → Operand
constant_operand v = record (register_operand Register.eax) {
  type = OperandType.constant;
  value = v;
}

abbrev label_operand : ℕ → Operand
label_operand n = record (register_operand Register.eax) {
  type = OperandType.label;
  label = record { id = n; name = 0 };
}

abbrev command : Instruction → Operand → Operand → Command
command t a b = record { type = t; op0 = a; op1 = b; text = [] }

abbrev eax : Operand
eax = register_operand Register.eax

abbrev ebx : Operand
ebx = register_operand Register.ebx

-- push eax; pop eax; text
abbrev push_pop : List Command
push_pop =
    command Instruction.push eax eax
    ∷ command Instruction.pop eax eax
    ∷ record (command Instruction.text eax eax) { text = b'x' ∷ [] }
    ∷ []

optimize-Ends_example :
    (out : List Command) × (optimizer_optimize 20 20 push_pop ≡ some out)
    × (texts out ≡ texts push_pop)
    × (weight out ≤ weight push_pop)
    × (length out ≤ length push_pop)
unfolding weight code
optimize-Ends_example = optimize-Ends 20 20 push_pop (omega arith) (omega arith)

sweep-compact_example : sweep passes 20 push_pop ≡ compact passes 20 push_pop
sweep-compact_example = sweep-compact passes 20 push_pop passes-AllLawful

-- add eax, 3; sub eax, 5
abbrev add_three : Command
add_three = command Instruction.add eax (constant_operand 3)

abbrev sub_five : Command
sub_five = command Instruction.sub eax (constant_operand 5)

abbrev sub_two : List Command
sub_two = command Instruction.sub eax (constant_operand 2) ∷ sub_five ∷ []

-- imul eax, 8
abbrev times_eight : Command
times_eight = command Instruction.imul2 eax (constant_operand 8)

imul2-effect_example :
    (c : Command) × (opt_imul2 (times_eight ∷ []) ≡ some (1, c ∷ []))
    × (c.op0 ≡ times_eight.op0)
    × ((x : ℕ)
        → run_constant c.type x c.op1.value ≡ run_constant times_eight.type x times_eight.op1.value)
unfolding is_power_of_2
imul2-effect_example = imul2-effect times_eight [] refl refl refl (omega arith) (omega arith)

-- imul eax, 0
abbrev times_zero : Command
times_zero = command Instruction.imul2 eax (constant_operand 0)

imul2_zero-wrong_example :
    (c : Command) × (opt_imul2 (times_zero ∷ []) ≡ some (1, c ∷ []))
    × (run_constant c.type 5 c.op1.value ≢ run_constant times_zero.type 5 times_zero.op1.value)
imul2_zero-wrong_example =
    imul2_zero-wrong times_zero [] 5 refl refl refl (omega arith) (omega arith)

-- setl cl; test ecx, ecx; jz
abbrev set_less : Command
set_less = command Instruction.setl (register_operand Register.cl) eax

abbrev test_ecx : Command
test_ecx = command Instruction.test (register_operand Register.ecx) (register_operand Register.ecx)

abbrev jump_zero : Command
jump_zero = command Instruction.jz (label_operand 4) eax

-- Each register holds its code; the other operands hold nothing.
abbrev numbered : Register → ℕ
numbered = reg_code

abbrev no_cells : Operand → ℕ
no_cells o = 0

cond_jmp-jumps_example :
    (j : Command) × (opt_cond_jmp (set_less ∷ test_ecx ∷ jump_zero ∷ [])
      ≡ some (1, j ∷ test_ecx ∷ jump_zero ∷ []))
    × (j.op0 ≡ jump_zero.op0)
    × (jumps j.type 3 4
        ≡ branches jump_zero.type (tests_zero no_cells test_ecx (run_set set_less 3 4 numbered)))
unfolding jump_of_set set_test_jump is_eq code type_code reg_code
cond_jmp-jumps_example =
    cond_jmp-jumps set_less test_ecx jump_zero [] 3 4 numbered no_cells refl (omega arith)

-- mov ebx, 4; cdq; idiv ebx
abbrev mov_four : Command
mov_four = command Instruction.mov ebx (constant_operand 4)

abbrev cdq_command : Command
cdq_command = command Instruction.cdq eax eax

abbrev idiv_ebx : Command
idiv_ebx = command Instruction.idiv ebx eax

idiv_negative-wrong_example :
    (s : Command) × (opt_idiv (mov_four ∷ cdq_command ∷ idiv_ebx ∷ [])
      ≡ some (1, s ∷ cdq_command ∷ idiv_ebx ∷ []))
    × (run_shift s.type (int_mod - 1) s.op1.value ≢ quotient (int_mod - 1) mov_four.op1.value)
unfolding idiv_triple is_power_of_2 is_eq code type_code reg_code
idiv_negative-wrong_example =
    idiv_negative-wrong mov_four cdq_command idiv_ebx [] (int_mod - 1) refl (omega arith)
      (omega arith) (omega arith) (omega arith) (omega arith)

-- A processor with EAX and one other register, as a pair.
abbrev is_eax : Operand → Bool
is_eax o = is_type o.type register && is_reg o.reg Register.eax

is_eq-eax : (p q : Operand) → is_eq p q ≡ true → is_eax q ≡ is_eax p
is_eq-eax p q h = elim (Bool-cases (is_type p.type register)) [
  | inl t ↦ rw (is_eq_type p q h, is_eq_reg p q (is_type_sound p.type register t) h) refl
  | inr f ↦ (let same = is_eq_type p q h in rw (← same, f) refl)
]

abbrev read_register : Operand → ℕ × ℕ → ℕ
read_register o m = if is_eax o then m.0 else m.1

abbrev write_register : Operand → ℕ → ℕ × ℕ → ℕ × ℕ
write_register o v m = if is_eax o then (v, m.1) else (m.0, v)

register_read_write : (o : Operand) (v : ℕ) (m : ℕ × ℕ) → read_register o (write_register o v m) ≡ v
register_read_write o v m = ground arith

register_write_write :
    (o : Operand) (v w : ℕ) (m : ℕ × ℕ)
    → write_register o w (write_register o v m) ≡ write_register o w m
register_write_write o v w m = ground arith

register_write_read : (o : Operand) (m : ℕ × ℕ) → write_register o (read_register o m) m ≡ m
register_write_read o m = ground arith

abbrev two_registers : Places (ℕ × ℕ)
two_registers = record {
  is_place = λ o. is_type o.type register;
  read = read_register;
  write = write_register;
  read_write = λ o v m p h. register_read_write o v m;
  write_write = λ o v w m p. register_write_write o v w m;
  write_read = λ o m p. register_write_read o m;
  same_read = λ p q m h. ap (λ b. if b then m.0 else m.1) (is_eq-eax p q h);
  same_write = λ p q v m h. ap (λ b. if b then (v, m.1) else (m.0, v)) (is_eq-eax p q h);
}

add_sub-effect_example :
    run_commands two_registers (take 1 sub_two) (9, 4)
    ≡ run_commands two_registers (add_three ∷ sub_five ∷ []) (9, 4)
unfolding opt_add_sub add_sub_pair signed_value is_eq code type_code reg_code
add_sub-effect_example =
    add_sub-effect two_registers add_three sub_five [] 1 sub_two (9, 4) refl (omega arith)
      (omega arith) (omega arith) refl
