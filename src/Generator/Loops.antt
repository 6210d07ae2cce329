-- ===== src/Generator/Loops.antt =====
-- src/generator.c: the loops of `generate_statement` run their parts in the order that C asks for.
use jacc.Common.{
  ℕ, zero, suc, ◌+◌, List, [], ◌∷◌, Bytes, Bool, true, false, ◌≡◌, refl, ap, sym, ◌∙◌, arith,
  bytes_eq, bytes_eq_refl, drop,
}
use jacc.Asm.{Label, Command}
use jacc.Asm.Codes.{reg_code, type_code}
use jacc.Asm.Instructions.{op_count}
use jacc.Generator.Operands.{label, reg}
use jacc.Generator.Emit.{Code, run, emit, emit_text, emit_label, fill_ops, add_opcode, gen_label}
use jacc.Generator.Settings.{Settings}
use jacc.Generator.Statements.{branch, generate_while}
use jacc.Generator.Frame.{names, mark_text, from_mark}
use jacc.Generator.Control.{push_condition, run_part, is_mark, Control, to_label, next, go, runs}

pub runs-runs :
    (decimal : ℕ → Bytes) (p : List Command) (q : Bytes) (m n : ℕ) (s : Control)
    → runs decimal p q n (runs decimal p q m s) ≡ runs decimal p q (m + n) s
unfolding runs
runs-runs decimal p q zero n s =
    (let same : n ≡ 0 + n = omega arith in ap (λ k. runs decimal p q k s) same)
runs-runs decimal p q (suc m) n s =
    let more : suc m + n ≡ suc (m + n) = omega arith in
    runs-runs decimal p q m n (go decimal p q s) ∙ ap (λ k. runs decimal p q k s) (sym more)

pub part_is_no_mark :
    (t : Bytes) (decimal : ℕ → Bytes) (l : Label)
    → is_mark t ≡ false
    → bytes_eq t (mark_text decimal l) ≡ false
unfolding is_mark bytes_eq
part_is_no_mark [] decimal l h = refl
part_is_no_mark (x ∷ []) decimal l h = ground arith
part_is_no_mark (x ∷ y ∷ t) decimal l h = ground arith

-- A part that emits its text where its value is wanted, or only where it is not, and else nothing.
abbrev pub emits : Settings → Bytes → Bool → Bool → Code → Code
emits g t true true = emit_text g.blank g.decimal t
emits g t false false = emit_text g.blank g.decimal t
emits g t true false = run []
emits g t false true = run []

-- The values of a condition that holds `n` times and then does not.
abbrev pub turns : ℕ → List Bool
turns zero = false ∷ []
turns (suc n) = true ∷ turns n

module _ (g : Settings) (c : Code) (condition body : Bytes) where
  abbrev pub while_code : List Command
  while_code =
      (generate_while g (emits g condition true) (emits g body false)
        (record c { opcode_list = [] })).opcode_list

  abbrev pub first_label : Label
  first_label = (gen_label c).0

  abbrev pub second_label : Label
  second_label = (gen_label (gen_label c).1).0

  -- The parts of `n` rounds, the last one first, in front of `done`.
  abbrev pub rounds : ℕ → List Bytes → List Bytes
  rounds zero done = done
  rounds (suc n) done = body ∷ condition ∷ rounds n done

  rounds_later :
      (n : ℕ) (done : List Bytes) → rounds n (body ∷ condition ∷ done) ≡ rounds (suc n) done
  rounds_later zero done = refl
  rounds_later (suc n) done = ap (λ d. body ∷ condition ∷ d) (rounds_later n done)

  -- behind the first label
  abbrev inside : List Command
  inside = drop 1 while_code

  module _ (one : is_mark condition ≡ false) (two : is_mark body ≡ false)
      (apart : bytes_eq body condition ≡ false)
      (differ : bytes_eq (mark_text g.decimal first_label) (mark_text g.decimal second_label)
        ≡ false) where
    to_first : from_mark (mark_text g.decimal first_label) while_code ≡ inside
    unfolding from_mark generate_while branch gen_label emit_label emit_text emit add_opcode run
    to_first = rw bytes_eq_refl refl

    to_second : from_mark (mark_text g.decimal second_label) while_code ≡ []
    unfolding from_mark generate_while branch gen_label emit_label emit_text emit add_opcode run
        fill_ops op_count
    to_second =
        rw
          (
            differ,
            part_is_no_mark condition g.decimal second_label one,
            part_is_no_mark body g.decimal second_label two,
            bytes_eq_refl,
          )
          refl

    -- the state before the condition
    abbrev before : List Bool → Bool → Bool → List Bytes → Control
    before values a z done = record {
      rest = inside;
      values = values;
      stack = [];
      eax = a;
      zero_flag = z;
      done = done;
    }

    turn :
        (values : List Bool) (a z : Bool) (done : List Bytes)
        → runs g.decimal while_code condition 6 (before (true ∷ values) a z done)
          ≡ before values true false (body ∷ condition ∷ done)
    unfolding runs go next run_part push_condition names reg reg_code type_code to_label
        generate_while branch gen_label emit_label label emit_text emit add_opcode fill_ops op_count
        run is_mark
    turn values a z done =
        rw (one, bytes_eq_refl, two, apart)
          (ap (λ r. record (before values true false (body ∷ condition ∷ done)) { rest = r })
            to_first)

    leave :
        (a z : Bool) (done : List Bytes)
        → runs g.decimal while_code condition 4 (before (false ∷ []) a z done)
          ≡ record (before [] false true (condition ∷ done)) { rest = [] }
    unfolding runs go next run_part push_condition names reg reg_code type_code to_label
        generate_while branch gen_label emit_label label emit_text emit add_opcode fill_ops op_count
        run is_mark
    leave a z done =
        rw (one, bytes_eq_refl)
          (ap (λ r. record (before [] false true (condition ∷ done)) { rest = r }) to_second)

    loop :
        (n : ℕ) (a z : Bool) (done : List Bytes)
        → (k : ℕ) × (runs g.decimal while_code condition k (before (turns n) a z done)
            ≡ record (before [] false true (condition ∷ rounds n done)) { rest = [] })
    loop zero a z done = (4, leave a z done)
    loop (suc n) a z done =
        let (k, e) = loop n true false (body ∷ condition ∷ done) in
        (
          6 + k,
          sym (runs-runs g.decimal while_code condition 6 k (before (turns (suc n)) a z done))
              ∙ ap (runs g.decimal while_code condition k) (turn (turns n) a z done)
              ∙ e
              ∙ ap (λ d. record (before [] false true (condition ∷ d)) { rest = [] })
                  (rounds_later n done),
        )
