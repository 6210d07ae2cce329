-- ===== src/Optimizer/Window.antt =====
-- src/optimizer.c: the passes at one place, taken together.
use jacc.Common.{
  ℕ, zero, suc, ◌≤◌, ◌<◌, ◌≡◌, refl, ap, ◌∙◌, true, false, List, [], ◌∷◌, arith, inl, inr,
  Bool-cases, Option-cases, ltb, length,
}
use jacc.Asm.{Command}
use jacc.Optimizer.Loop.{
  OptimizationPass, passes, nop_range, frame_at, Window, apply_pass, apply_passes, window_at,
}
use jacc.Optimizer.Weight.{weight, texts, Shrinks, Lawful}
use jacc.Optimizer.Lawful.{
  opt_push_pop2-Lawful, opt_push_pop-Lawful, opt_mov_self-Lawful, opt_lea_lea-Lawful,
  opt_lea_mov-Lawful, opt_lea_deref-Lawful, opt_lea_mov_ref-Lawful, opt_fstp_fld-Lawful,
}
use jacc.Optimizer.LawfulMore.{
  opt_imul2-Lawful, opt_idiv-Lawful, opt_mov-Lawful, opt_add_sub-Lawful, opt_cond_jmp-Lawful,
}

abbrev pub IsLawful : OptimizationPass → Type 0
IsLawful p = (cs : List Command) → Lawful p.frame_size cs (p.func cs)

abbrev pub AllLawful : List OptimizationPass → Type 0
AllLawful [] = Unit
AllLawful (p ∷ ps) = IsLawful p × AllLawful ps

pub passes-AllLawful : AllLawful passes
unfolding passes
passes-AllLawful = (
  opt_push_pop2-Lawful,
  (
    opt_push_pop-Lawful,
    (
      opt_mov_self-Lawful,
      (
        opt_lea_lea-Lawful,
        (
          opt_lea_mov-Lawful,
          (
            opt_lea_deref-Lawful,
            (
              opt_lea_mov_ref-Lawful,
              (
                opt_add_sub-Lawful,
                (
                  opt_mov-Lawful,
                  (
                    opt_imul2-Lawful,
                    (opt_idiv-Lawful, (opt_fstp_fld-Lawful, (opt_cond_jmp-Lawful, tt))),
                  ),
                ),
              ),
            ),
          ),
        ),
      ),
    ),
  ),
)

length-nop_range : (k n : ℕ) (cs : List Command) → length (nop_range k n cs) ≡ length cs
unfolding nop_range
length-nop_range zero zero cs = refl
length-nop_range zero (suc n) [] = refl
length-nop_range zero (suc n) (c ∷ cs) = ap suc (length-nop_range zero n cs)
length-nop_range (suc k) zero cs = refl
length-nop_range (suc k) (suc n) [] = refl
length-nop_range (suc k) (suc n) (c ∷ cs) = ap suc (length-nop_range k n cs)

frame_at-le : (n : ℕ) (cs : List Command) → frame_at n cs ≤ length cs
unfolding frame_at
frame_at-le zero cs = omega arith
frame_at-le (suc n) [] = omega arith
frame_at-le (suc n) (c ∷ cs) = ground (arith, frame_at-le n cs)

-- What the passes leave of the commands `cs`.
pub record IsWindow (cs : List Command) (w : Window) : Type 0 where
  pub inside : w.frame ≤ length cs
  pub keeps : length w.cmds ≡ length cs
  pub same_texts : texts w.cmds ≡ texts cs
  pub no_heavier : weight w.cmds ≤ weight cs
  pub lighter : w.match ≡ true → weight w.cmds < weight cs
  pub untouched : w.match ≡ false → w.cmds ≡ cs

apply_pass-IsWindow :
    {cs : List Command} (p : OptimizationPass) (w : Window)
    → IsLawful p
    → IsWindow cs w
    → IsWindow cs (apply_pass p w)
unfolding apply_pass
apply_pass-IsWindow p w law h = elim (Bool-cases (ltb w.frame p.frame_size)) [
  | inl e ↦ rw e h
  | inr e ↦ elim (Option-cases (p.func w.cmds)) [
    | inl n ↦ rw (e, n) h
    | inr ((r, cs'), m) ↦
        let s : Shrinks p.frame_size w.cmds r cs' = rw m at (law w.cmds) in
        rw (e, m)
          (record {
            inside = ground (arith, h.inside);
            keeps = length-nop_range r p.frame_size cs' ∙ s.keeps ∙ h.keeps;
            same_texts = s.same_texts ∙ h.same_texts;
            no_heavier = omega (arith, s.lighter, h.no_heavier);
            lighter = λ _. omega (arith, s.lighter, h.no_heavier);
            untouched = λ f. cc;
          })
  ]
]

apply_passes-IsWindow :
    {cs : List Command} (ps : List OptimizationPass) (w : Window)
    → AllLawful ps
    → IsWindow cs w
    → IsWindow cs (apply_passes ps w)
unfolding apply_passes
apply_passes-IsWindow [] w law h = h
apply_passes-IsWindow (p ∷ ps) w (l, law) h =
    apply_passes-IsWindow ps _ law (apply_pass-IsWindow p w l h)

pub window_at-IsWindow :
    (ps : List OptimizationPass) (cs : List Command) → AllLawful ps → IsWindow cs (window_at ps cs)
unfolding window_at
window_at-IsWindow ps cs law = apply_passes-IsWindow ps _ law (record {
  inside = frame_at-le _ cs;
  keeps = refl;
  same_texts = refl;
  no_heavier = omega arith;
  lighter = λ f. cc;
  untouched = λ _. refl;
})
