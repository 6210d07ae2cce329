-- ===== src/Optimizer/Machine.antt =====
-- src/optimizer.c: the commands that the rewritten arithmetic consists of, run on the registers and
-- the memory of a processor. The processor is a parameter, with what its manual says of them.
use jacc.Common.{ℕ, Bool, true, List, [], ◌∷◌, ◌≡◌, if◌then◌else◌, IsInt}
use jacc.Asm.{constant, Operand, Command}
use jacc.Asm.Codes.{is_type}
use jacc.Optimizer.Equality.{is_eq}
use jacc.Optimizer.Meaning.{run_constant}

-- `is_place` tells the operands that name a 32-bit register or cell, which can be read and
-- written. Equal operands name the same one.
pub record Places (M : Type 0) : Type 0 where
  pub is_place : Operand → Bool
  pub read : Operand → M → ℕ
  pub write : Operand → ℕ → M → M
  pub read_write :
      (o : Operand) (v : ℕ) (m : M) → is_place o ≡ true → IsInt v → read o (write o v m) ≡ v
  pub write_write :
      (o : Operand) (v w : ℕ) (m : M) → is_place o ≡ true → write o w (write o v m) ≡ write o w m
  pub write_read : (o : Operand) (m : M) → is_place o ≡ true → write o (read o m) m ≡ m
  pub same_read : (p q : Operand) (m : M) → is_eq p q ≡ true → read q m ≡ read p m
  pub same_write : (p q : Operand) (v : ℕ) (m : M) → is_eq p q ≡ true → write q v m ≡ write p v m

module _ {M : Type 0} (places : Places M) where
  -- what a source operand holds
  abbrev pub source : Operand → M → ℕ
  source o m = if is_type o.type constant then o.value else places.read o m

  -- The command changes its destination by its source.
  abbrev pub run_command : Command → M → M
  run_command c m =
      places.write c.op0 (run_constant c.type (places.read c.op0 m) (source c.op1 m)) m

  abbrev pub run_commands : List Command → M → M
  run_commands [] m = m
  run_commands (c ∷ cs) m = run_commands cs (run_command c m)
