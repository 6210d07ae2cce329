-- ===== src/Optimizer/InPlace.antt =====
-- src/optimizer.c: the in-place loop of `optimizer_optimize` against a plain rewriting of the list.
use mathlib.Core.List.{append_assoc, append-nil}
use mathlib.Core.Path.{ap₂}
use jacc.Common.{
  ℕ, zero, suc, ◌+◌, ◌≤◌, ◌<◌, ◌≡◌, refl, ap, sym, ◌∙◌, Bool, true, false, ◌||◌, List, [], ◌∷◌,
  ◌++◌, arith, inl, inr, Bool-cases, if◌then◌else◌, length, take, drop, set, length-set,
  length-append, length-take, length-drop, take-append_left, take-take, take-set_end,
  drop-set_below, drop-suc, drop-append_exact, drop-drop, drop-cons,
}
use jacc.Asm.{Command, Instruction}
use jacc.Asm.Instructions.{is}
use jacc.Optimizer.Loop.{OptimizationPass, Window, window_at, Sweep, copy_down, sweep_step}
use jacc.Optimizer.Window.{AllLawful, IsWindow, window_at-IsWindow}

-- The first step of a rewriting: what it gives out, what is left to rewrite, whether a pass matched.
pub record Chunk : Type 0 where
  pub out : List Command
  pub rest : List Command
  pub match : Bool

unfoldable pub chunk_of : Command → List Command → Window → Chunk
chunk_of c rest w =
    if w.match
    then record { out = take w.frame w.cmds; rest = drop w.frame w.cmds; match = true }
    else record { out = c ∷ []; rest = rest; match = false }

unfoldable pub chunk : List OptimizationPass → Command → List Command → Chunk
unfolding chunk_of
chunk ps c rest =
    if is c.type Instruction.text
    then record { out = c ∷ []; rest = rest; match = false }
    else if is c.type Instruction.nop
    then record { out = []; rest = rest; match = false }
    else chunk_of c rest (window_at ps (c ∷ rest))

-- Copying down leaves the part below `pos` alone, appends the copied commands to it, and changes
-- nothing from `i + n` on.
copy_down_lem :
    (n pos i : ℕ) (cs : List Command)
    → pos ≤ i
    → i + n ≤ length cs
    → (take (pos + n) (copy_down n pos i cs) ≡ take pos cs ++ take n (drop i cs))
      × (drop (i + n) (copy_down n pos i cs) ≡ drop (i + n) cs)
      × (length (copy_down n pos i cs) ≡ length cs)
unfolding copy_down
copy_down_lem zero pos i cs p q =
    (ap (λ k. take k cs) (omega arith) ∙ sym (append-nil (take pos cs)), refl, refl)
copy_down_lem (suc n) pos i cs p q =
    let record { head = c; tail = rest; eq = e } = drop-cons i cs (omega arith) in
    let below = drop-set_below cs (suc i) pos c (omega arith) in
    let same = length-set cs pos c in
    let (t, d, l) = copy_down_lem n (suc pos) (suc i) (set cs pos c) (omega arith) (omega arith) in
    let right : pos + suc n ≡ suc pos + n = omega arith in
    let right' : i + suc n ≡ suc i + n = omega arith in
    (
      rw (e, right)
          (t
            ∙ ap₂ (λ x y. x ++ take n y) (take-set_end cs pos c (omega arith))
                (below ∙ drop-suc cs i e)
            ∙ append_assoc (take pos cs) (c ∷ []) (take n rest)),
      rw (e, right') (d ∙ drop-set_below cs (suc i + n) pos c (omega arith)),
      rw e (l ∙ same),
    )

-- One step of the loop, from `s` to `s'`, gives out the chunk `k`.
pub record Emits (s : Sweep) (k : Chunk) (s' : Sweep) : Type 0 where
  pub ordered : s'.pos ≤ s'.i
  pub emitted : take s'.pos s'.cmds ≡ take s.pos s.cmds ++ k.out
  pub left : drop s'.i s'.cmds ≡ k.rest
  pub flag : s'.changed ≡ (s.changed || k.match)

module _ (s : Sweep) (p : s.pos ≤ s.i) (c : Command) (rest : List Command)
    (e : drop s.i s.cmds ≡ c ∷ rest) where
  in_range : s.i < length s.cmds
  in_range = omega (arith, length-drop s.i s.cmds, ap length e)

  -- a command that stays
  keep-Emits :
      Emits s
        (record { out = c ∷ []; rest = rest; match = false })
        (record s { cmds = set s.cmds s.pos c; pos = s.pos + 1; i = s.i + 1 })
  keep-Emits =
      let next : s.pos + 1 ≡ suc s.pos = omega arith in
      let next' : s.i + 1 ≡ suc s.i = omega arith in
      record {
        ordered = omega arith;
        emitted = rw next (take-set_end s.cmds s.pos c (omega (arith, in_range)));
        left =
            rw next'
              (drop-set_below s.cmds (suc s.i) s.pos c (omega arith) ∙ drop-suc s.cmds s.i e);
        flag = ground arith;
      }

  -- a NOP
  skip-Emits : Emits s (record { out = []; rest = rest; match = false }) (record s { i = s.i + 1 })
  skip-Emits =
      let next' : s.i + 1 ≡ suc s.i = omega arith in
      record {
        ordered = omega arith;
        emitted = sym (append-nil _);
        left = rw next' (drop-suc s.cmds s.i e);
        flag = ground arith;
      }

  -- a window in which a pass has matched
  match-Emits :
      (w : Window)
      → IsWindow (c ∷ rest) w
      → Emits s
          (record { out = take w.frame w.cmds; rest = drop w.frame w.cmds; match = true })
          (record {
            cmds = copy_down w.frame s.pos s.i (take s.i s.cmds ++ w.cmds);
            pos = s.pos + w.frame;
            i = s.i + w.frame;
            changed = true;
          })
  match-Emits w h =
      let joined = take s.i s.cmds ++ w.cmds in
      let before : s.i ≡ length (take s.i s.cmds) =
        omega (arith, length-take s.i s.cmds, in_range) in
      let behind : drop s.i joined ≡ w.cmds =
        drop-append_exact s.i (take s.i s.cmds) w.cmds before in
      let room : s.i + w.frame ≤ length joined =
        omega (arith, length-append (take s.i s.cmds) w.cmds, h.inside, h.keeps) in
      let (t, d, _) = copy_down_lem w.frame s.pos s.i joined p room in
      record {
        ordered = omega arith;
        emitted =
            t
            ∙ ap₂ (λ x y. x ++ take w.frame y)
                (take-append_left s.pos (take s.i s.cmds) w.cmds (omega arith)
                  ∙ take-take s.pos s.i s.cmds p)
                behind;
        left = d ∙ sym (drop-drop s.i w.frame joined) ∙ ap (drop w.frame) behind;
        flag = ground arith;
      }

  pub sweep_step-Emits :
      (ps : List OptimizationPass) → AllLawful ps → Emits s (chunk ps c rest) (sweep_step ps s)
  unfolding chunk sweep_step
  sweep_step-Emits ps law = elim (Bool-cases (is c.type Instruction.text)) [
    | inl t ↦ rw (e, sweep_step, t) keep-Emits
    | inr t ↦ elim (Bool-cases (is c.type Instruction.nop)) [
      | inl n ↦ rw (e, sweep_step, t, n) skip-Emits
      | inr n ↦ elim (Bool-cases (window_at ps (c ∷ rest)).match) [
        | inl m ↦ rw (e, sweep_step, t, n, m) (match-Emits _ (window_at-IsWindow ps (c ∷ rest) law))
        | inr m ↦ rw (e, sweep_step, t, n, m) keep-Emits
      ]
    ]
  ]
