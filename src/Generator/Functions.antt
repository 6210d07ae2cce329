-- ===== src/Generator/Functions.antt =====
-- src/generator.c: generate_function, generator_init and generator_process.
use jacc.Common.{
  ℕ, none, some, List, [], ◌∷◌, ◌++◌, Bytes, bytes, bytes_eq, Bool, false, ◌==◌, if◌then◌else◌,
}
use jacc.Asm.{Instruction, Register, Label, Operand}
use jacc.Symtable.{Symtable}
use jacc.Types.Symbols.{Symbol, load, has_flag, is_function, sf_extern}
use jacc.Types.Compatible.{values}
use jacc.Generator.Operands.{reg, constant, label, text_label, deref, dword}
use jacc.Generator.Emit.{Code, gen_label, emit_text, run}
use jacc.Generator.Operators.{esp, when}
use jacc.Generator.Settings.{Settings, put, blank_operand, stop}
use jacc.Generator.Statements.{mark, jump}
use jacc.Generator.Expressions.{generate_expr}

abbrev ebp : Operand
ebp = reg Register.ebp

module _ (g : Settings) where
  abbrev name_of : Bytes → Operand
  name_of t = text_label (blank_operand g) (g.address_of t)

  abbrev pub main_esp : Operand
  main_esp = dword (deref (blank_operand g) (name_of (bytes "@main_esp")))

  abbrev comment : Bytes → Code → Code
  comment t = emit_text g.blank g.decimal t

  -- The commands in front of the body.
  unfoldable pub prologue : Symbol → Bool → Code → Code
  unfolding emit_text reg dword deref text_label constant
  prologue func is_main = run (
      comment (bytes "; start " ++ func.name)
      ∷ comment (bytes "_" ++ func.name ++ bytes ":")
      ∷ when g.blank g.decimal is_main (put g Instruction.mov (main_esp ∷ esp ∷ []))
      ∷ put g Instruction.push (ebp ∷ [])
      ∷ put g Instruction.mov (ebp ∷ esp ∷ [])
      ∷ (if func.locals_size == 0
          then run []
          else put g Instruction.sub (esp ∷ constant (blank_operand g) func.locals_size ∷ []))
      ∷ [])

  -- The end of `main`, which compares ESP with the one at its start.
  unfoldable pub leave_main : Code → Code
  unfolding gen_label reg dword deref text_label constant label
  leave_main c =
      let (l1, c1) = gen_label c in
      run
        (put g Instruction.cmp (esp ∷ main_esp ∷ [])
          ∷ jump g Instruction.je l1
          ∷ put g Instruction.push (name_of (bytes "@stack_corruption_msg") ∷ [])
          ∷ put g Instruction.call (deref (blank_operand g) (name_of (bytes "printf")) ∷ [])
          ∷ put g Instruction.add (esp ∷ constant (blank_operand g) 4 ∷ [])
          ∷ mark g l1
          ∷ put g Instruction.push (constant (blank_operand g) 0 ∷ [])
          ∷ put g Instruction.call (deref (blank_operand g) (name_of (bytes "ExitProcess")) ∷ [])
          ∷ [])
        c1

  -- The commands behind the body.
  unfoldable pub epilogue : Symbol → Label → Bool → Code → Code
  unfolding leave_main emit_text reg constant
  epilogue func return_label is_main = run (
      (if func.locals_size == 0
        then run []
        else put g Instruction.add (esp ∷ constant (blank_operand g) func.locals_size ∷ []))
      ∷ mark g return_label
      ∷ put g Instruction.mov (esp ∷ ebp ∷ [])
      ∷ put g Instruction.pop (ebp ∷ [])
      ∷ (if is_main then leave_main else put g Instruction.ret [])
      ∷ comment (bytes "; end " ++ func.name ++ 10 ∷ [])
      ∷ [])

  unfoldable pub generate_function : Symbol → Code → Code
  unfolding has_flag gen_label prologue epilogue generate_expr
  generate_function func c =
      let (return_label, c1) = gen_label c in
      let is_main = bytes_eq func.name (bytes "main") in
      let defined =
        run
          (prologue func is_main
            ∷ generate_expr (record g { return_label = return_label }) func.expr false
            ∷ epilogue func return_label is_main
            ∷ [])
          c1 in
      if has_flag func.flags sf_extern then c else defined

  -- The loop of `generator_process` over the symbols of the table.
  unfoldable pub generate_functions : List ℕ → Code → Code
  unfolding load is_function generate_function stop
  generate_functions [] c = c
  generate_functions (a ∷ rest) c = generate_functions rest (elim (load g.store (some a)) [
    | none ↦ stop c
    | some s ↦ if is_function s.type then generate_function s c else c
  ])

  -- `state` has the labels that were given before.
  unfoldable pub generator_process : Symtable ℕ → Code → Code
  unfolding values generate_functions
  generator_process symtable state =
      generate_functions (values symtable) (record state { opcode_list = []; data_list = [] })

unfoldable pub generator_init : Code → Code
generator_init state = record state { label_counter = 0 }
