-- ===== src/Generator/Branches.antt =====
-- src/generator.c: the if statement of `generate_statement` runs the part that its condition asks
-- for.
use jacc.Common.{List, [], ◌∷◌, Bytes, Bool, true, false, ◌≡◌, ◌∙◌, ◌∙◌, bytes_eq, drop}
use jacc.Asm.{Label, Command}
use jacc.Generator.Emit.{Code, gen_label}
use jacc.Generator.Settings.{Settings}
use jacc.Generator.Statements.{generate_if}
use jacc.Generator.Frame.{mark_text}
use jacc.Generator.Control.{is_mark, Control}
use jacc.Generator.Loops.{emits}

module _ (g : Settings) (c : Code) (condition then_part else_part : Bytes) where
  abbrev pub if_code : List Command
  if_code =
      (generate_if g (emits g condition true) (emits g then_part false) (emits g else_part false)
        false (record c { opcode_list = [] })).opcode_list

  abbrev pub else_label : Label
  else_label = (gen_label c).0

  abbrev pub end_label : Label
  end_label = (gen_label (gen_label c).1).0

  module _ (one : is_mark condition ≡ false) (two : is_mark then_part ≡ false)
      (three : is_mark else_part ≡ false) (four : bytes_eq then_part condition ≡ false)
      (five : bytes_eq else_part condition ≡ false)
      (differ : bytes_eq (mark_text g.decimal else_label) (mark_text g.decimal end_label)
        ≡ false) where
    abbrev pub entry : Bool → Bool → Bool → Control
    entry v a z = record {
      rest = if_code;
      values = v ∷ [];
      stack = [];
      eax = a;
      zero_flag = z;
      done = [];
    }

    -- the state behind the first label, after the condition
    abbrev at_else : Control
    at_else = record (entry false false true) {
      rest = drop 7 if_code;
      values = [];
      done = condition ∷ [];
    }
