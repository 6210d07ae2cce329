-- ===== src/Optimizer/Progress.antt =====
-- src/optimizer.c: a sweep ends, keeps the texts, and makes the list lighter where a pass matches;
-- so the loop over `changed` ends.
use jacc.Common.{
  ℕ, zero, suc, ◌+◌, ◌≤◌, ◌<◌, ◌≡◌, refl, ap, ◌∙◌, Bool, true, List, [], ◌∷◌, ◌++◌, Option, none,
  some, arith, inl, inr, Bool-cases, Option-cases, length, take, drop, length-drop, length-take,
  length-append,
}
use jacc.Asm.{Command, Instruction}
use jacc.Asm.Instructions.{is}
use jacc.Optimizer.Loop.{
  OptimizationPass, passes, window_at, sweep, optimize_loop, optimizer_optimize,
}
use jacc.Optimizer.Window.{AllLawful, window_at-IsWindow, passes-AllLawful}
use jacc.Optimizer.InPlace.{Chunk, chunk}
use jacc.Optimizer.Compact.{prepend, compact, sweep-compact}
use jacc.Optimizer.Weight.{weight, texts, codes}

weight-split : (n : ℕ) (cs : List Command) → weight (take n cs) + weight (drop n cs) ≡ weight cs
unfolding weight
weight-split zero cs = omega arith
weight-split (suc n) [] = refl
weight-split (suc n) (c ∷ cs) = omega (arith, weight-split n cs)

weight-append : (a b : List Command) → weight (a ++ b) ≡ weight a + weight b
unfolding weight
weight-append [] b = omega arith
weight-append (c ∷ a) b = omega (arith, weight-append a b)

texts-append : (a b : List Command) → texts (a ++ b) ≡ texts a ++ texts b
unfolding texts
texts-append [] b = refl
texts-append (c ∷ a) b = ground (arith, texts-append a b)

texts-split : (n : ℕ) (cs : List Command) → texts (take n cs) ++ texts (drop n cs) ≡ texts cs
unfolding texts
texts-split zero cs = refl
texts-split (suc n) [] = refl
texts-split (suc n) (c ∷ cs) = ground (arith, texts-split n cs)

-- What one step of the rewriting keeps.
record IsChunk (cs : List Command) (k : Chunk) : Type 0 where
  same_texts : texts k.out ++ texts k.rest ≡ texts cs
  no_heavier : weight k.out + weight k.rest ≤ weight cs
  lighter : k.match ≡ true → weight k.out + weight k.rest < weight cs
  shorter : length k.out + length k.rest ≤ length cs
  smaller : weight k.rest + length k.rest < weight cs + length cs

chunk-IsChunk :
    (ps : List OptimizationPass) (c : Command) (rest : List Command)
    → AllLawful ps
    → IsChunk (c ∷ rest) (chunk ps c rest)
unfolding chunk weight texts
chunk-IsChunk ps c rest law =
    let w = window_at ps (c ∷ rest) in
    let h = window_at-IsWindow ps (c ∷ rest) law in
    let split = weight-split w.frame w.cmds in
    elim (Bool-cases (is c.type Instruction.text)) [
      | inl t ↦ rw t (record {
        same_texts = ground arith;
        no_heavier = ground (arith, codes);
        lighter = λ f. cc;
        smaller = ground (arith, codes);
        shorter = omega arith;
      })
      | inr t ↦ elim (Bool-cases (is c.type Instruction.nop)) [
        | inl n ↦
            rw (t, n)
              (record {
                same_texts = ground arith;
                no_heavier = ground (arith, codes);
                lighter = λ f. cc;
                smaller = ground (arith, codes);
                shorter = omega arith;
              })
        | inr n ↦ elim (Bool-cases w.match) [
          | inl m ↦
              rw (t, n, m)
                (record {
                  same_texts = texts-split w.frame w.cmds ∙ h.same_texts;
                  no_heavier = omega (arith, split, h.no_heavier);
                  lighter = λ f. omega (arith, split, h.lighter m);
                  smaller = omega (arith, split, h.lighter m, length-drop w.frame w.cmds, h.keeps);
                  shorter =
                      omega
                        (arith, length-drop w.frame w.cmds, length-take w.frame w.cmds, h.keeps);
                })
          | inr m ↦
              rw (t, n, m)
                (record {
                  same_texts = ground arith;
                  no_heavier = ground (arith, codes);
                  lighter = λ f. cc;
                  smaller = ground (arith, codes);
                  shorter = omega arith;
                })
        ]
      ]
    ]

-- What a sweep over `cs` gives: the new list, and whether a pass has matched.
pub record IsSwept (cs out : List Command) (changed : Bool) : Type 0 where
  pub same_texts : texts out ≡ texts cs
  pub no_heavier : weight out ≤ weight cs
  pub lighter : changed ≡ true → weight out < weight cs
  pub shorter : length out ≤ length cs

abbrev pub Sweeps : List Command → Option (List Command × Bool) → Type 0
Sweeps cs none = ⊥
Sweeps cs (some (out, changed)) = IsSwept cs out changed

prepend-Sweeps :
    (cs : List Command) (k : Chunk) (o : Option (List Command × Bool))
    → IsChunk cs k
    → Sweeps k.rest o
    → Sweeps cs (prepend k.out k.match o)
prepend-Sweeps cs k none h s = absurd s
prepend-Sweeps cs k (some (out, changed)) h s = record {
  same_texts = texts-append k.out out ∙ ap (λ l. texts k.out ++ l) s.same_texts ∙ h.same_texts;
  no_heavier = omega (arith, weight-append k.out out, s.no_heavier, h.no_heavier);
  lighter = λ e.
      ground (arith, weight-append k.out out, s.no_heavier, h.no_heavier, s.lighter, h.lighter);
  shorter = omega (arith, length-append k.out out, s.shorter, h.shorter);
}

compact-Sweeps :
    (ps : List OptimizationPass) (fuel : ℕ) (cs : List Command)
    → AllLawful ps
    → weight cs + length cs < fuel
    → Sweeps cs (compact ps fuel cs)
unfolding compact weight
compact-Sweeps ps zero cs law f = absurd (omega arith)
compact-Sweeps ps (suc fuel) [] law f = record {
  same_texts = refl;
  no_heavier = omega arith;
  lighter = λ e. cc;
  shorter = omega arith;
}
compact-Sweeps ps (suc fuel) (c ∷ rest) law f =
    let h = chunk-IsChunk ps c rest law in
    prepend-Sweeps (c ∷ rest) (chunk ps c rest) _ h
      (compact-Sweeps ps fuel (chunk ps c rest).rest law (omega (arith, h.smaller)))

abbrev pub Ends : List Command → Option (List Command) → Type 0
Ends cs none = ⊥
Ends cs (some out) = (texts out ≡ texts cs) × (weight out ≤ weight cs) × (length out ≤ length cs)

Ends-mono :
    (cs out : List Command) (b : Bool) (o : Option (List Command))
    → IsSwept cs out b
    → Ends out o
    → Ends cs o
Ends-mono cs out b none s e = e
Ends-mono cs out b (some r) s (t, w, l) =
    (t ∙ s.same_texts, omega (arith, s.no_heavier), omega (arith, s.shorter))

optimize_loop-Ends :
    (ps : List OptimizationPass) (fuel rounds : ℕ) (cs : List Command)
    → AllLawful ps
    → weight cs + length cs < fuel
    → weight cs < rounds
    → Ends cs (optimize_loop ps fuel rounds cs)
unfolding optimize_loop
optimize_loop-Ends ps fuel zero cs law f r = absurd (omega arith)
optimize_loop-Ends ps fuel (suc rounds) cs law f r =
    let s : Sweeps cs (sweep ps fuel cs) =
      rw (sweep-compact ps fuel cs law) (compact-Sweeps ps fuel cs law f) in
    elim (Option-cases (sweep ps fuel cs)) [
      | inl e ↦ absurd (rw e at s)
      | inr ((out, changed), e) ↦
          let h : IsSwept cs out changed = rw e at s in
          elim (Bool-cases changed) [
            | inl b ↦
                rw (e, b, optimize_loop)
                  (Ends-mono cs out changed _ h (
                    optimize_loop-Ends ps fuel rounds out law
                      (omega (arith, h.no_heavier, h.shorter)) (omega (arith, h.lighter b))))
            | inr b ↦ rw (e, b, optimize_loop) (h.same_texts, h.no_heavier, h.shorter)
          ]
    ]

-- With more fuel for a sweep than the weight and the length of the list, and more rounds than
-- its weight, the optimizer returns a list, which has the same texts in the same order, no more
-- weight and no more commands.
pub optimize-Ends :
    (fuel rounds : ℕ) (cs : List Command)
    → weight cs + length cs < fuel
    → weight cs < rounds
    → (out : List Command) × (optimizer_optimize fuel rounds cs ≡ some out)
      × (texts out ≡ texts cs)
      × (weight out ≤ weight cs)
      × (length out ≤ length cs)
unfolding optimizer_optimize
optimize-Ends fuel rounds cs f r =
    let h = optimize_loop-Ends passes fuel rounds cs passes-AllLawful f r in
    elim (Option-cases (optimizer_optimize fuel rounds cs)) [
      | inl e ↦ absurd (rw e at h)
      | inr (out, e) ↦ let (t, w, l) : Ends cs (some out) = rw e at h in (out, e, t, w, l)
    ]
