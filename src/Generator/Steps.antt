-- ===== src/Generator/Steps.antt =====
-- src/generator.c: the stack that single commands and their sequences use.
use jacc.Common.{
  ℕ, ◌+◌, ◌-◌, Option, some, List, [], ◌∷◌, Bytes, Bool, true, false, ◌==◌, if◌then◌else◌, ltb, ◌≡◌,
  refl, arith,
}
use jacc.Asm.{Instruction, Register, Label, Operand, Command}
use jacc.Asm.Codes.{reg_code, type_code}
use jacc.Asm.Instructions.{op_count}
use jacc.Ast.{Pointer}
use jacc.Types.Symbols.{sym_double}
use jacc.Types.Resolve.{resolve_alias}
use jacc.Generator.Operands.{reg, constant, label, deref, dword, qword}
use jacc.Generator.Emit.{Code, fill_ops, gen_label, emit_label, push_value, run}
use jacc.Generator.Operators.{esp, when}
use jacc.Generator.Settings.{Settings, put, blank_operand, reading, push_typed}
use jacc.Generator.Statements.{mark, jump, with_labels}
use jacc.Generator.Balance.{
  moves_esp, drop_bytes, height_after, Takes, emit-Takes, text-Takes, end-Takes, next-Takes,
  pop_lem,
}

module _ (g : Settings) where
  -- The code of `f` takes a stack of `k` bytes to one of `m` bytes.
  abbrev pub Moves : (Code → Code) → ℕ → ℕ → Type 0
  Moves f k m = Takes g.blank g.decimal f k m

  -- The bytes on the stack after a value of `w` bytes was pushed if it is wanted.
  abbrev pub grown : Bool → ℕ → ℕ → ℕ
  grown ret w k = if ret then k + w else k

module _ (blank : Command) (decimal : ℕ → Bytes) where
  -- Statements one after another.
  pub record Steps (fs : List (Code → Code)) (k m : ℕ) : Type 0 where
    pub moves : Takes blank decimal (run fs) k m

module _ {blank : Command} {decimal : ℕ → Bytes} where
  pub done : {k : ℕ} → Steps blank decimal [] k k
  done {k} = record { moves = end-Takes blank decimal k }

  infixr 5 ◌⨾◌
  pub ◌⨾◌ :
      {f : Code → Code} {fs : List (Code → Code)} {k l m : ℕ}
      → Takes blank decimal f k l
      → Steps blank decimal fs l m
      → Steps blank decimal (f ∷ fs) k m
  ◌⨾◌ {f} {fs} {k} {l} {m} a b = record { moves = next-Takes blank decimal f fs k l m a b.moves }

module _ (g : Settings) where
  pub keeps :
      (cmd : Instruction) (args : List Operand) (k : ℕ)
      → height_after cmd (fill_ops (op_count cmd) args (record (g.blank) { type = cmd })) k ≡ some k
      → Moves g (put g cmd args) k k
  keeps cmd args k e = emit-Takes g.blank g.decimal cmd args k k e

  pub pushes : (op : Operand) (k : ℕ) → Moves g (put g Instruction.push (op ∷ [])) k (k + 4)
  unfolding height_after
  pushes op k = emit-Takes g.blank g.decimal Instruction.push (op ∷ []) k (k + 4) refl

  pub pops : (op : Operand) (k : ℕ) → Moves g (put g Instruction.pop (op ∷ [])) (k + 4) k
  unfolding height_after
  pops op k =
      emit-Takes g.blank g.decimal Instruction.pop (op ∷ []) (k + 4) k (pop_lem g.blank g.decimal k)

  drop_lem : (n k : ℕ) → drop_bytes n (k + n) ≡ some k
  unfolding drop_bytes
  drop_lem n k =
      let e : k + n - n ≡ k = omega arith in
      let f : ltb (k + n) n ≡ false = ground arith in rw (f, e) refl

  pub drops :
      (n k : ℕ)
      → Moves g (put g Instruction.add (esp ∷ constant (blank_operand g) n ∷ [])) (k + n) k
  unfolding height_after moves_esp reg constant reg_code type_code fill_ops op_count
  drops n k =
      emit-Takes g.blank g.decimal Instruction.add (esp ∷ constant (blank_operand g) n ∷ []) (k + n)
        k (drop_lem n k)

  pub grows :
      (n k : ℕ)
      → Moves g (put g Instruction.sub (esp ∷ constant (blank_operand g) n ∷ [])) k (k + n)
  unfolding height_after moves_esp reg constant reg_code type_code fill_ops op_count
  grows n k =
      emit-Takes g.blank g.decimal Instruction.sub (esp ∷ constant (blank_operand g) n ∷ []) k
        (k + n) refl

  pub marks : (l : Label) (k : ℕ) → Moves g (mark g l) k k
  unfolding emit_label
  marks l k = text-Takes g.blank g.decimal _ k

  pub jumps :
      (cmd : Instruction) (l : Label) (k : ℕ)
      → ((args : List Operand)
          → height_after cmd (fill_ops (op_count cmd) args (record (g.blank) { type = cmd })) k
            ≡ some k)
      → Moves g (jump g cmd l) k k
  jumps cmd l k same = keeps cmd (label (blank_operand g) l ∷ []) k (same _)

  pub push_when :
      (ret : Bool) (op : Operand) (k : ℕ)
      → Moves g (when g.blank g.decimal ret (put g Instruction.push (op ∷ []))) k (grown g ret 4 k)
  push_when true op k = pushes op k
  push_when false op k = record { apply = λ h c e. e }

  pub read :
      {A : Type 0} (o : Option A) (f : A → Code → Code) (a : A) (k m : ℕ)
      → o ≡ some a
      → Moves g (f a) k m
      → Moves g (reading o f) k m
  read o f a k m e t = rw e t

  pub labelled :
      (f : Label → Label → Code → Code) (k m : ℕ)
      → ((l1 l2 : Label) → Moves g (f l1 l2) k m)
      → Moves g (with_labels g f) k m
  unfolding gen_label
  labelled f k m t = record {
    apply = λ h c e.
        (t (gen_label c).0 (gen_label (gen_label c).1).0).apply h (gen_label (gen_label c).1).1 e;
  }

  -- A value of the type `p` has `w` bytes on the stack.
  pub record HasWidth (p : Pointer) (w : ℕ) : Type 0 where
    pub type : ℕ
    pub resolved : resolve_alias g.store p ≡ some type
    pub width : w ≡ (if type == sym_double then 8 else 4)

  pub push_typed-Moves :
      (op : Operand) (p : Pointer) (w : ℕ) (ret : Bool) (k : ℕ)
      → HasWidth p w
      → Moves g (push_typed g op p ret) k (grown g ret w k)
  unfolding push_typed push_value reg constant deref qword height_after
  push_typed-Moves op p w false k v = record { apply = λ h c e. e }
  push_typed-Moves op p w true k v =
      read (resolve_alias g.store p) (λ t. push_value g.blank g.decimal op (t == sym_double) true)
        v.type k (k + w) v.resolved (rw v.width (value (v.type == sym_double)))
    where
      value :
          (is_double : Bool)
          → Moves g
              (push_value g.blank g.decimal op is_double true)
              k
              (k + (if is_double then 8 else 4))
      value true =
          let top = qword (deref (blank_operand g) (reg Register.esp)) ∷ [] in
          record {
            apply = λ h c e.
                (let c1 = put g Instruction.sub (esp ∷ constant (blank_operand g) 8 ∷ []) c in
                  let c2 = put g Instruction.fld (qword op ∷ []) c1 in
                  let at_c2 =
                    (keeps Instruction.fld (qword op ∷ []) (k + 8) refl).apply h c1
                      ((grows 8 k).apply h c e) in
                  (keeps Instruction.fstp top (k + 8) refl).apply h c2 at_c2);
          }
      value false = pushes (dword op) k

  -- The value of `left` has `w` bytes on the stack.
  abbrev pub Pushes : (Bool → Code → Code) → ℕ → Type 0
  Pushes left w = (k : ℕ) → Moves g (left true) k (k + w)

  -- Without a value, `left` leaves the stack as it was.
  abbrev pub Leaves : (Bool → Code → Code) → Type 0
  Leaves left = (k : ℕ) → Moves g (left false) k k

  -- And so does the lvalue.
  abbrev pub Locates : (Code → Operand × Code) → Type 0
  Locates address = (k : ℕ) → Moves g (λ c. (address c).1) k k
