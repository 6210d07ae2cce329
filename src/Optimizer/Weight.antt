-- ===== src/Optimizer/Weight.antt =====
-- src/optimizer.c: what each pass does to the number of commands and to the TEXT commands, which
-- hold the labels. A pass that matches makes the weight of the list smaller, so the loop over
-- `changed` ends.
use jacc.Common.{
  ℕ, zero, suc, ◌+◌, ◌<◌, ◌≡◌, refl, Bool, true, false, Option, none, some, List, [], ◌∷◌, Bytes,
  if◌then◌else◌, length, arith,
}
use jacc.Asm.{Instruction, Command}
use jacc.Asm.Instructions.{code, is}
use jacc.Optimizer.Loop.{nop_range}

-- IMUL2 weighs more than the SHL that may replace it, and less than MOV with IMUL.
abbrev pub type_weight : Instruction → ℕ
type_weight t = if is t Instruction.nop then 0 else if is t Instruction.imul2 then 3 else 2

unfoldable pub weight : List Command → ℕ
weight [] = 0
weight (c ∷ cs) = type_weight c.type + weight cs

-- The texts of the list, in order: its labels and comments.
unfoldable pub texts : List Command → List Bytes
texts [] = []
texts (c ∷ cs) = if is c.type Instruction.text then c.text ∷ texts cs else texts cs

-- What the driver leaves of the commands `cs` after the pass, whose frame has `n` commands, has
-- returned `r` with the commands `cs'`: the same number, a smaller weight, and the same texts.
pub record Shrinks (n : ℕ) (cs : List Command) (r : ℕ) (cs' : List Command) : Type 0 where
  pub keeps : length cs' ≡ length cs
  pub lighter : weight (nop_range r n cs') < weight cs
  pub same_texts : texts (nop_range r n cs') ≡ texts cs

abbrev pub Lawful : ℕ → List Command → Option (ℕ × List Command) → Type 0
Lawful n cs none = Unit
Lawful n cs (some (r, cs')) = Shrinks n cs r cs'

pub Lawful-if :
    (n : ℕ) (cs : List Command) (b : Bool) (r : ℕ) (cs' : List Command)
    → (b ≡ true → Shrinks n cs r cs')
    → Lawful n cs (if b then some (r, cs') else none)
Lawful-if n cs true r cs' h = h refl
Lawful-if n cs false r cs' h = tt

pub Lawful-else :
    (n : ℕ) (cs : List Command) (b : Bool) (r : ℕ) (cs' : List Command)
    (y : Option (ℕ × List Command))
    → (b ≡ true → Shrinks n cs r cs')
    → (b ≡ false → Lawful n cs y)
    → Lawful n cs (if b then some (r, cs') else y)
Lawful-else n cs true r cs' y h k = h refl
Lawful-else n cs false r cs' y h k = k refl

pub Lawful-unless :
    (n : ℕ) (cs : List Command) (b : Bool) (y : Option (ℕ × List Command))
    → (b ≡ false → Lawful n cs y)
    → Lawful n cs (if b then none else y)
Lawful-unless n cs true y k = tt
Lawful-unless n cs false y k = k refl

pub Lawful-when :
    (n : ℕ) (cs : List Command) (b : Bool) (y : Option (ℕ × List Command))
    → (b ≡ true → Lawful n cs y)
    → Lawful n cs (if b then y else none)
Lawful-when n cs true y k = k refl
Lawful-when n cs false y k = tt

pub codes :
    (code Instruction.text ≡ 0)
    × (code Instruction.add ≡ 1)
    × (code Instruction.sub ≡ 2)
    × (code Instruction.imul2 ≡ 5)
    × (code Instruction.sar ≡ 9)
    × (code Instruction.shl ≡ 10)
    × (code Instruction.mov ≡ 20)
    × (code Instruction.test ≡ 25)
    × (code Instruction.nop ≡ 49)
unfolding code
codes = (refl, refl, refl, refl, refl, refl, refl, refl, refl)

pub more_codes :
    (code Instruction.imul ≡ 4)
    × (code Instruction.idiv ≡ 7)
    × (code Instruction.inc ≡ 13)
    × (code Instruction.dec ≡ 14)
    × (code Instruction.cdq ≡ 19)
    × (code Instruction.lea ≡ 21)
    × (code Instruction.push ≡ 22)
    × (code Instruction.pop ≡ 23)
    × (code Instruction.jz ≡ 27)
    × (code Instruction.jnz ≡ 28)
    × (code Instruction.fld ≡ 51)
    × (code Instruction.fstp ≡ 56)
unfolding code
more_codes = (refl, refl, refl, refl, refl, refl, refl, refl, refl, refl, refl, refl)

pub ruleset pass_codes = (arith, codes, more_codes)
