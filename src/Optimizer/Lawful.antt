-- ===== src/Optimizer/Lawful.antt =====
-- src/optimizer.c: each pass over moves, `push`, `pop` and `lea` shrinks the code and keeps its labels.
use jacc.Common.{refl, List, [], ◌∷◌}
use jacc.Asm.{Command}
use jacc.Optimizer.Equality.{push_pop_opt_possible}
use jacc.Optimizer.Passes.{
  opt_push_pop2, opt_push_pop, opt_mov_self, opt_lea_lea, opt_lea_mov, opt_lea_deref,
  opt_lea_mov_ref, opt_fstp_fld,
}
use jacc.Optimizer.Loop.{nop_range}
use jacc.Optimizer.Weight.{weight, texts, Lawful, Lawful-if, pass_codes}

pub opt_push_pop2-Lawful : (cs : List Command) → Lawful 4 cs (opt_push_pop2 cs)
unfolding opt_push_pop2 nop_range weight texts push_pop_opt_possible
opt_push_pop2-Lawful [] = tt
opt_push_pop2-Lawful (a ∷ []) = tt
opt_push_pop2-Lawful (a ∷ b ∷ []) = tt
opt_push_pop2-Lawful (a ∷ b ∷ c ∷ []) = tt
opt_push_pop2-Lawful (a ∷ b ∷ c ∷ d ∷ cs) =
    Lawful-if 4 (a ∷ b ∷ c ∷ d ∷ cs) _ _ _
      λ h. record { keeps = refl; lighter = ground pass_codes; same_texts = ground pass_codes }

pub opt_push_pop-Lawful : (cs : List Command) → Lawful 2 cs (opt_push_pop cs)
unfolding opt_push_pop nop_range weight texts push_pop_opt_possible
opt_push_pop-Lawful [] = tt
opt_push_pop-Lawful (a ∷ []) = tt
opt_push_pop-Lawful (a ∷ b ∷ cs) =
    Lawful-if 2 (a ∷ b ∷ cs) _ _ _
      λ h. record { keeps = refl; lighter = ground pass_codes; same_texts = ground pass_codes }

pub opt_mov_self-Lawful : (cs : List Command) → Lawful 1 cs (opt_mov_self cs)
unfolding opt_mov_self nop_range weight texts
opt_mov_self-Lawful [] = tt
opt_mov_self-Lawful (a ∷ cs) =
    Lawful-if 1 (a ∷ cs) _ _ _
      λ h. record { keeps = refl; lighter = ground pass_codes; same_texts = ground pass_codes }

pub opt_lea_lea-Lawful : (cs : List Command) → Lawful 2 cs (opt_lea_lea cs)
unfolding opt_lea_lea nop_range weight texts
opt_lea_lea-Lawful [] = tt
opt_lea_lea-Lawful (a ∷ []) = tt
opt_lea_lea-Lawful (a ∷ b ∷ cs) =
    Lawful-if 2 (a ∷ b ∷ cs) _ _ _
      λ h. record { keeps = refl; lighter = ground pass_codes; same_texts = ground pass_codes }

pub opt_lea_mov-Lawful : (cs : List Command) → Lawful 2 cs (opt_lea_mov cs)
unfolding opt_lea_mov nop_range weight texts
opt_lea_mov-Lawful [] = tt
opt_lea_mov-Lawful (a ∷ []) = tt
opt_lea_mov-Lawful (a ∷ b ∷ cs) =
    Lawful-if 2 (a ∷ b ∷ cs) _ _ _
      λ h. record { keeps = refl; lighter = ground pass_codes; same_texts = ground pass_codes }

pub opt_lea_deref-Lawful : (cs : List Command) → Lawful 2 cs (opt_lea_deref cs)
unfolding opt_lea_deref nop_range weight texts
opt_lea_deref-Lawful [] = tt
opt_lea_deref-Lawful (a ∷ []) = tt
opt_lea_deref-Lawful (a ∷ b ∷ cs) =
    Lawful-if 2 (a ∷ b ∷ cs) _ _ _
      λ h. record { keeps = refl; lighter = ground pass_codes; same_texts = ground pass_codes }

pub opt_lea_mov_ref-Lawful : (cs : List Command) → Lawful 2 cs (opt_lea_mov_ref cs)
unfolding opt_lea_mov_ref nop_range weight texts
opt_lea_mov_ref-Lawful [] = tt
opt_lea_mov_ref-Lawful (a ∷ []) = tt
opt_lea_mov_ref-Lawful (a ∷ b ∷ cs) =
    Lawful-if 2 (a ∷ b ∷ cs) _ _ _
      λ h. record { keeps = refl; lighter = ground pass_codes; same_texts = ground pass_codes }

pub opt_fstp_fld-Lawful : (cs : List Command) → Lawful 2 cs (opt_fstp_fld cs)
unfolding opt_fstp_fld nop_range weight texts
opt_fstp_fld-Lawful [] = tt
opt_fstp_fld-Lawful (a ∷ []) = tt
opt_fstp_fld-Lawful (a ∷ b ∷ cs) =
    Lawful-if 2 (a ∷ b ∷ cs) _ _ _
      λ h. record { keeps = refl; lighter = ground pass_codes; same_texts = ground pass_codes }
