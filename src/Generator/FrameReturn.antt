-- ===== src/Generator/FrameReturn.antt =====
-- src/generator.c: the `ret` of a function finds the stack, EBP and the address as the call left
-- them.
use jacc.Common.{
  ℕ, ◌+◌, ◌-◌, ◌≡◌, refl, arith, ◌∙◌, some, List, bytes_eq_refl, ap, true, false, ◌==◌,
  if◌then◌else◌, inl, inr, Bool-cases,
}
use jacc.Asm.{Label, Operand, Command}
use jacc.Asm.Codes.{reg_code, type_code}
use jacc.Asm.Instructions.{op_count}
use jacc.Generator.Balance.{moves_esp}
use jacc.Generator.Operands.{reg, constant}
use jacc.Types.Symbols.{Symbol}
use jacc.Generator.Emit.{run, emit, emit_text, emit_label, fill_ops, add_opcode}
use jacc.Generator.Settings.{Settings}
use jacc.Generator.Functions.{prologue, epilogue}
use jacc.Generator.Frame.{
  Frame, step, names, pushed, run_frame, to_ret, mark_text, from_mark, commands_of,
}

module _ (g : Settings) (other : Operand → ℕ) where
  -- The frame behind the prologue.
  abbrev pub started : Symbol → Frame → Frame
  started func f = run_frame other (commands_of (prologue g func false)) f

  abbrev pub epilogue_code : Symbol → Label → List Command
  epilogue_code func l = commands_of (epilogue g func l false)

  -- The frame of the function whose caller had the frame `f`, with `n` bytes for local variables.
  abbrev pub entered : ℕ → Frame → Frame
  entered n f = record {
    height = f.height + 4 + n;
    ebp = f.height + 4;
    cells = λ d. if d == f.height + 4 then f.ebp else f.cells d;
  }

  pub prologue-entered :
      (func : Symbol) (f : Frame)
      → run_frame other (commands_of (prologue g func false)) f ≡ entered func.locals_size f
  unfolding prologue commands_of run_frame run emit emit_text reg constant fill_ops op_count
      add_opcode step names pushed moves_esp reg_code type_code
  prologue-entered func f = elim (Bool-cases (func.locals_size == 0)) [
    | inl z ↦
        let same : f.height + 4 ≡ f.height + 4 + func.locals_size = ground arith in
        rw z (ap (λ h. record (entered 0 f) { height = h }) same)
    | inr n ↦ rw n refl
  ]

  epilogue_ret :
      (func : Symbol) (l : Label) (f : Frame)
      → to_ret other (commands_of (epilogue g func l false)) f
        ≡ some (record f { height = f.ebp - 4; ebp = f.cells f.ebp })
  unfolding epilogue commands_of to_ret run emit emit_text emit_label reg constant fill_ops op_count
      add_opcode step names pushed moves_esp reg_code type_code
  epilogue_ret func l f = elim (Bool-cases (func.locals_size == 0)) [
    | inl z ↦ rw z refl
    | inr n ↦ rw n refl
  ]

  return_ret :
      (func : Symbol) (l : Label) (f : Frame)
      → to_ret other (from_mark (mark_text g.decimal l) (commands_of (epilogue g func l false))) f
        ≡ some (record f { height = f.ebp - 4; ebp = f.cells f.ebp })
  unfolding epilogue commands_of to_ret from_mark run emit emit_text emit_label reg constant
      fill_ops op_count add_opcode step names pushed moves_esp reg_code type_code
  return_ret func l f = elim (Bool-cases (func.locals_size == 0)) [
    | inl z ↦ rw (z, bytes_eq_refl) refl
    | inr n ↦ rw (n, bytes_eq_refl) refl
  ]

  -- The `ret` of a function that is not `main` finds the stack as high as at the call, with the
  -- address that the call pushed on top, and EBP as the caller had it: behind the whole epilogue,
  -- and behind the label to which a `return` jumps. This holds for every frame that the body
  -- leaves, however many bytes are on the stack, if EBP, the saved EBP and that address are as
  -- they were behind the prologue, which has made room for the local variables.
  pub function-returns :
      (func : Symbol) (l : Label) (caller after : Frame)
      → after.ebp ≡ (started func caller).ebp
      → after.cells (caller.height + 4) ≡ (started func caller).cells (caller.height + 4)
      → after.cells caller.height ≡ (started func caller).cells caller.height
      → ((started func caller).height ≡ caller.height + 4 + func.locals_size)
        × (to_ret other (epilogue_code func l) after ≡ some (record caller { cells = after.cells }))
        × (to_ret other (from_mark (mark_text g.decimal l) (epilogue_code func l)) after
            ≡ some (record caller { cells = after.cells }))
        × (after.cells caller.height ≡ caller.cells caller.height)
  function-returns func l caller after e v a =
      let enter = prologue-entered func caller in
      let top : (caller.height + 4 == caller.height + 4) ≡ true = ground arith in
      let apart : (caller.height == caller.height + 4) ≡ false = ground arith in
      let e' : after.ebp ≡ caller.height + 4 = e ∙ ap (λ f. f.ebp) enter in
      let v' : after.cells (caller.height + 4) ≡ caller.ebp =
        v ∙ ap (λ f. f.cells (caller.height + 4)) enter ∙ rw top refl in
      let a' : after.cells caller.height ≡ caller.cells caller.height =
        a ∙ ap (λ f. f.cells caller.height) enter ∙ rw apart refl in
      let below : after.ebp - 4 ≡ caller.height = omega arith in
      let back : record after { height = after.ebp - 4; ebp = after.cells after.ebp }
          ≡ record caller { cells = after.cells } =
        rw (below, e', v') refl in
      (
        ap (λ f. f.height) enter,
        epilogue_ret func l after ∙ ap some back,
        return_ret func l after ∙ ap some back,
        a',
      )
