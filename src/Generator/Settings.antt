-- ===== src/Generator/Settings.antt =====
-- src/generator.c: what the generation of a function reads and does not change.
use jacc.Common.{ℕ, Option, none, some, List, Bytes, Bool, true, false, ◌==◌}
use jacc.Asm.{Instruction, Label, Operand, Command}
use jacc.Ast.{Pointer}
use jacc.Types.Symbols.{Store, sym_double}
use jacc.Types.Resolve.{resolve_alias}
use jacc.Generator.Emit.{Code, unset, emit, push_value}

-- `blank` and `decimal` are those of Emit, `address_of` tells where the characters of a text stand,
-- `fuel` is that of the comparisons of types, `store` holds the symbols, and `return_label` is
-- `cur_function->return_label`.
pub record Settings : Type 0 where
  pub blank : Command
  pub decimal : ℕ → Bytes
  pub address_of : Bytes → ℕ
  pub fuel : ℕ
  pub store : Store
  pub return_label : Label

unfoldable pub stop : Code → Code
stop c = record c { fault = true }

-- Goes on with a value that was read, or stops.
abbrev pub reading {ℓ} : {A : Type ℓ} → Option A → (A → Code → Code) → Code → Code
reading none f = stop
reading (some a) f = f a

module _ (g : Settings) where
  abbrev pub put : Instruction → List Operand → Code → Code
  put cmd args = emit g.blank g.decimal cmd args

  abbrev pub blank_operand : Operand
  blank_operand = unset g.blank g.decimal

  -- `push_value` on a symbol, which is resolved only if the value is wanted.
  unfoldable pub push_typed : Operand → Pointer → Bool → Code → Code
  unfolding push_value
  push_typed op type false = λ c. c
  push_typed op type true =
      reading (resolve_alias g.store type)
        (λ t. push_value g.blank g.decimal op (t == sym_double) true)
