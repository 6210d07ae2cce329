-- ===== src/Generator/LvalueBalance.antt =====
-- src/generator.c: the stack that lvalues use, by what
-- the code of the operands does to it.
use jacc.Common.{
  Option, ℕ, ◌+◌, none, some, [], ◌∷◌, ◌++◌, Bytes, bytes, Bool, true, false, ◌==◌, if◌then◌else◌,
  refl,
}
use jacc.Asm.{Instruction, Operand}
use jacc.Ast.{Pointer}
use jacc.Types.Symbols.{SymbolType, Symbol, load}
use jacc.Generator.Emit.{Code, emit_text}
use jacc.Generator.Operators.{eax}
use jacc.Generator.Balance.{height_after, IsAt, text-Takes}
use jacc.Generator.Settings.{Settings, stop}
use jacc.Generator.Lvalues.{
  no_lvalue, symbol_code, label_of, declare_global, global_operand, variable_case, variable_read,
  field_operand, variable_lvalue, dereference_lvalue, lea, member_lvalue, other_lvalue,
  generate_lvalue,
}
use jacc.Generator.Steps.{Moves, done, ◌⨾◌, keeps, pushes, pops, Pushes, Locates}

module _ (g : Settings) where
  pub no_lvalue-Locates : Locates g (no_lvalue g)
  unfolding no_lvalue stop
  no_lvalue-Locates k = record { apply = λ h c e. e }

  pub other_lvalue-Locates : (t : Bytes) → Locates g (other_lvalue g t)
  unfolding other_lvalue no_lvalue stop
  other_lvalue-Locates t k = record {
    apply = λ h c e.
        (text-Takes g.blank g.decimal (bytes "; '" ++ t ++ bytes "' is not lvalue") k).apply h c e;
  }

  -- The label of a global variable goes to the data section.
  global-Locates : (a : ℕ) (s : Symbol) → Locates g (global_operand g a s)
  unfolding global_operand
  global-Locates a s k = record { apply = λ h c e. declared ((label_of c.labels a).id == 0) h c e }
    where
      declared :
          (b : Bool) (h : ℕ) (c : Code)
          → IsAt g.blank g.decimal h k c
          → IsAt g.blank g.decimal h k (if b then declare_global g a s c else c)
      declared true h c e = e
      declared false h c e = e

  unhandled-Locates :
      (t : ℕ)
      → Locates g (λ c.
        no_lvalue g
          (emit_text g.blank g.decimal (bytes "; unhandled var symbol " ++ g.decimal t) c))
  unfolding no_lvalue stop
  unhandled-Locates t k = record {
    apply = λ h c e.
        (text-Takes g.blank g.decimal (bytes "; unhandled var symbol " ++ g.decimal t) k).apply h c
          e;
  }

  case-Locates : (t : SymbolType) (a : ℕ) (s : Symbol) → Locates g (variable_case g t a s)
  unfolding variable_case
  case-Locates SymbolType.parameter a s k = record { apply = λ h c e. e }
  case-Locates SymbolType.variable a s k = record { apply = λ h c e. e }
  case-Locates SymbolType.global_variable a s k = global-Locates a s k
  case-Locates t a s k = unhandled-Locates (symbol_code t) k

  read-Locates : (a : ℕ) (o : Option Symbol) → Locates g (variable_read g a o)
  unfolding variable_read
  read-Locates a none k = no_lvalue-Locates k
  read-Locates a (some s) k = case-Locates s.type a s k

  -- The lvalue of a variable leaves the stack as it was.
  pub variable-Locates : (a : ℕ) → Locates g (variable_lvalue g a)
  unfolding variable_lvalue
  variable-Locates a k = read-Locates a (load g.store (some a)) k

  pub dereference-Locates :
      (left : Bool → Code → Code) → Pushes g left 4 → Locates g (dereference_lvalue g left)
  unfolding dereference_lvalue
  dereference-Locates left p k = (p k ⨾ pops g eax k ⨾ done).moves

  pub lea-Moves :
      (address : Code → Operand × Code) (k : ℕ) → Locates g address → Moves g (lea g address) k k
  unfolding lea height_after
  lea-Moves address k l = record {
    apply = λ h c e.
        (keeps g Instruction.lea (eax ∷ (address c).0 ∷ []) k refl).apply h (address c).1
          ((l k).apply h c e);
  }

  field-Locates : (o : Option Symbol) → Locates g (field_operand g o)
  unfolding field_operand
  field-Locates none k = no_lvalue-Locates k
  field-Locates (some s) k = record { apply = λ h c e. e }

  pub member-Locates :
      (address : Code → Operand × Code) (field : Pointer)
      → Locates g address
      → Locates g (member_lvalue g address field)
  unfolding member_lvalue
  member-Locates address field l k = record {
    apply = λ h c e.
        (field-Locates (load g.store field) k).apply h (lea g address c)
          ((lea-Moves address k l).apply h c e);
  }

  pub generate_lvalue-Moves :
      (address : Code → Operand × Code) (k : ℕ)
      → Locates g address
      → Moves g (generate_lvalue g address) k (k + 4)
  unfolding generate_lvalue
  generate_lvalue-Moves address k l = (lea-Moves address k l ⨾ pushes g eax k ⨾ done).moves
