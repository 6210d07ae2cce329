-- ===== src/Optimizer/Compact.antt =====
-- src/optimizer.c: one sweep refines a plain rewriting of the list, and what a sweep does to the
-- weight and to the texts.
use mathlib.Core.List.{append_assoc, append-nil}
use jacc.Common.{
  ℕ, zero, suc, ◌≤◌, ◌≡◌, refl, ap, sym, ◌∙◌, Bool, true, false, ◌||◌, List, [], ◌∷◌, ◌++◌, Option,
  none, some, arith, inl, inr, Bool-cases, ltb, length, take, drop, drop-cons,
}
use jacc.Asm.{Command}
use jacc.Optimizer.Loop.{OptimizationPass, Sweep, sweep_step, sweep_loop, swept, sweep}
use jacc.Optimizer.Window.{AllLawful}
use jacc.Optimizer.InPlace.{chunk, sweep_step-Emits}

abbrev Out : Type 0
Out = Option (List Command × Bool)

-- The output `out` in front of that of the rest.
abbrev pub prepend : List Command → Bool → Out → Out
prepend out m none = none
prepend out m (some (rest, m')) = some (out ++ rest, m || m')

-- The rewriting that a sweep stands for, with fuel.
unfoldable pub compact : List OptimizationPass → ℕ → List Command → Out
compact ps zero cs = none
compact ps (suc fuel) [] = some ([], false)
compact ps (suc fuel) (c ∷ rest) =
    let k = chunk ps c rest in prepend k.out k.match (compact ps fuel k.rest)

prepend-prepend :
    (a b : List Command) (m n : Bool) (o : Out)
    → prepend a m (prepend b n o) ≡ prepend (a ++ b) (m || n) o
prepend-prepend a b m n none = refl
prepend-prepend a b true n (some (rest, m')) =
    ap (λ l. some (l, true)) (sym (append_assoc a b rest))
prepend-prepend a b false n (some (rest, m')) =
    ap (λ l. some (l, n || m')) (sym (append_assoc a b rest))

drop-all : (n : ℕ) (cs : List Command) → length cs ≤ n → drop n cs ≡ []
drop-all zero [] h = refl
drop-all zero (c ∷ cs) h = absurd (omega arith)
drop-all (suc n) [] h = refl
drop-all (suc n) (c ∷ cs) h = drop-all n cs (omega arith)

sweep_loop-compact :
    (ps : List OptimizationPass)
    → AllLawful ps
    → (fuel : ℕ) (s : Sweep) → s.pos ≤ s.i
    → swept (sweep_loop ps fuel s)
      ≡ prepend (take s.pos s.cmds) s.changed (compact ps fuel (drop s.i s.cmds))
unfolding sweep_loop compact
sweep_loop-compact ps law zero s p = refl
sweep_loop-compact ps law (suc fuel) s p = elim (Bool-cases (ltb s.i (length s.cmds))) [
  | inl t ↦
      let record { head = c; tail = rest; eq = e } = drop-cons s.i s.cmds (ground arith) in
      let h = sweep_step-Emits s p c rest e ps law in
      rw (t, e)
        (sweep_loop-compact ps law fuel (sweep_step ps s) h.ordered
          ∙ rw (h.emitted, h.left, h.flag)
              (sym (
                prepend-prepend (take s.pos s.cmds) (chunk ps c rest).out s.changed
                  (chunk ps c rest).match (compact ps fuel (chunk ps c rest).rest))))
  | inr t ↦
      rw (t, drop-all s.i s.cmds (ground arith)) (ground (arith, append-nil (take s.pos s.cmds)))
]

prepend-nil : (o : Out) → prepend [] false o ≡ o
prepend-nil none = refl
prepend-nil (some (out, m)) = refl

-- For every table of lawful passes and every fuel, one sweep of the loop in place gives what
-- the rewriting `compact` of the list gives with the same fuel.
pub sweep-compact :
    (ps : List OptimizationPass) (fuel : ℕ) (cs : List Command)
    → AllLawful ps
    → sweep ps fuel cs ≡ compact ps fuel cs
unfolding sweep
sweep-compact ps fuel cs law =
    sweep_loop-compact ps law fuel _ (omega arith) ∙ prepend-nil (compact ps fuel cs)
