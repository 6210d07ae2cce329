-- ===== src/Optimizer/Loop.antt =====
-- src/optimizer.c: `optimizer_optimize`. The list of commands is compacted in place: `pos` is where
-- the next command that stays is written, and `i` where the next one is read.
use jacc.Common.{
  ℕ, zero, suc, ◌+◌, Bool, true, false, Option, none, some, List, [], ◌∷◌, ◌++◌, ltb, if◌then◌else◌,
  length, take, drop, set,
}
use jacc.Asm.{Instruction, Command}
use jacc.Asm.Instructions.{is}
use jacc.Optimizer.Passes.{
  Pass, opt_push_pop2, opt_push_pop, opt_mov_self, opt_lea_lea, opt_lea_mov, opt_lea_deref,
  opt_lea_mov_ref, opt_fstp_fld,
}
use jacc.Optimizer.Moves.{opt_mov, opt_cond_jmp}
use jacc.Optimizer.Arithmetic.{opt_add_sub, opt_imul2, opt_idiv}

-- struct optimization_pass
pub record OptimizationPass : Type 0 where
  pub func : Pass
  pub frame_size : ℕ

abbrev pass : Pass → ℕ → OptimizationPass
pass f n = record { func = f; frame_size = n }

unfoldable pub passes : List OptimizationPass
passes =
    pass opt_push_pop2 4
    ∷ pass opt_push_pop 2
    ∷ pass opt_mov_self 1
    ∷ pass opt_lea_lea 2
    ∷ pass opt_lea_mov 2
    ∷ pass opt_lea_deref 2
    ∷ pass opt_lea_mov_ref 2
    ∷ pass opt_add_sub 2
    ∷ pass opt_mov 2
    ∷ pass opt_imul2 1
    ∷ pass opt_idiv 3
    ∷ pass opt_fstp_fld 2
    ∷ pass opt_cond_jmp 3
    ∷ []

unfoldable pub max_frame_size : ℕ → List OptimizationPass → ℕ
max_frame_size m [] = m
max_frame_size m (p ∷ ps) = max_frame_size (if ltb m p.frame_size then p.frame_size else m) ps

-- The commands before the first NOP, at most `n`: `frame_size` at the start of the passes.
unfoldable pub frame_at : ℕ → List Command → ℕ
frame_at zero cs = 0
frame_at (suc n) [] = 0
frame_at (suc n) (c ∷ cs) = if is c.type Instruction.nop then 0 else suc (frame_at n cs)

abbrev pub to_nop : Command → Command
to_nop c = record c { type = Instruction.nop }

-- The loop over `k` from `result` to the frame size of the pass.
unfoldable pub nop_range : ℕ → ℕ → List Command → List Command
nop_range zero zero cs = cs
nop_range zero (suc n) [] = []
nop_range zero (suc n) (c ∷ cs) = to_nop c ∷ nop_range zero n cs
nop_range (suc k) zero cs = cs
nop_range (suc k) (suc n) [] = []
nop_range (suc k) (suc n) (c ∷ cs) = c ∷ nop_range k n cs

-- The loop over the passes at one place: the commands from `i` on, and what is known of them.
pub record Window : Type 0 where
  pub frame : ℕ
  pub match : Bool
  pub cmds : List Command

unfoldable pub apply_pass : OptimizationPass → Window → Window
unfolding nop_range
apply_pass p w = if ltb w.frame p.frame_size then w else elim (p.func w.cmds) [
  | none ↦ w
  | some (result, cmds) ↦ record {
    frame = if ltb result w.frame then result else w.frame;
    match = true;
    cmds = nop_range result p.frame_size cmds;
  }
]

unfoldable pub apply_passes : List OptimizationPass → Window → Window
unfolding apply_pass
apply_passes [] w = w
apply_passes (p ∷ ps) w = apply_passes ps (apply_pass p w)

unfoldable pub window_at : List OptimizationPass → List Command → Window
unfolding apply_passes frame_at max_frame_size
window_at ps cs =
    apply_passes ps (record { frame = frame_at (max_frame_size 0 ps) cs; match = false; cmds = cs })

-- The loop over `i`.
pub record Sweep : Type 0 where
  pub cmds : List Command
  pub i : ℕ
  pub pos : ℕ
  pub changed : Bool

-- `list->data[pos + j] = list->data[i + j]` for each of the next `n` values of `j`
unfoldable pub copy_down : ℕ → ℕ → ℕ → List Command → List Command
copy_down zero pos i cs = cs
copy_down (suc n) pos i cs =
    copy_down n (suc pos) (suc i) (elim (drop i cs) [ [] ↦ cs | c ∷ rest ↦ set cs pos c ])

unfoldable pub sweep_step : List OptimizationPass → Sweep → Sweep
sweep_step ps s = elim (drop s.i s.cmds) [
  | [] ↦ s
  | c ∷ rest ↦
      if is c.type Instruction.text
      then record s { cmds = set s.cmds s.pos c; pos = s.pos + 1; i = s.i + 1 }
      else if is c.type Instruction.nop
      then record s { i = s.i + 1 }
      else (let w = window_at ps (c ∷ rest) in
          if w.match
          then record {
            cmds = copy_down w.frame s.pos s.i (take s.i s.cmds ++ w.cmds);
            pos = s.pos + w.frame;
            i = s.i + w.frame;
            changed = true;
          }
          else record s { cmds = set s.cmds s.pos c; pos = s.pos + 1; i = s.i + 1 })
]

-- `none` where the fuel runs out before `i` reaches `count`.
unfoldable pub sweep_loop : List OptimizationPass → ℕ → Sweep → Option Sweep
sweep_loop ps zero s = none
sweep_loop ps (suc fuel) s =
    let rest = sweep_loop ps fuel (sweep_step ps s) in
    if ltb s.i (length s.cmds) then rest else some s

-- `list->count = pos`: the compacted list, and whether a pass has matched.
abbrev pub swept : Option Sweep → Option (List Command × Bool)
swept none = none
swept (some s) = some (take s.pos s.cmds, s.changed)

-- One run of the loop over `changed`.
unfoldable pub sweep : List OptimizationPass → ℕ → List Command → Option (List Command × Bool)
sweep ps fuel cs =
    swept (sweep_loop ps fuel (record { cmds = cs; i = 0; pos = 0; changed = false }))

unfoldable pub optimize_loop : List OptimizationPass → ℕ → ℕ → List Command → Option (List Command)
optimize_loop ps fuel zero cs = none
optimize_loop ps fuel (suc rounds) cs = elim (sweep ps fuel cs) [
  | none ↦ none
  | some (out, changed) ↦ elim changed [
    | true ↦ optimize_loop ps fuel rounds out
    | false ↦ some out
  ]
]

-- `optimizer_optimize`, with fuel for one sweep and a bound on the sweeps.
unfoldable pub optimizer_optimize : ℕ → ℕ → List Command → Option (List Command)
optimizer_optimize fuel rounds cs = optimize_loop passes fuel rounds cs
