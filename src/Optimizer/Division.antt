-- ===== src/Optimizer/Division.antt =====
-- src/optimizer.c: what `opt_idiv` makes of a division. The quotient and the arithmetic shift are
-- those of the processor's manual.
use native.Mathlib.Nat.{div-add-mod, mod-lt, add-mul-div_left, div-eq_of_lt, div-le_self}
use jacc.Common.{
  ℕ, ◌+◌, ◌-◌, ◌*◌, ◌/◌, ◌%◌, ◌^◌, ◌≤◌, ◌<◌, ◌≡◌, ◌≢◌, refl, true, arith, List, ◌∷◌, some,
  if◌then◌else◌, int_mod, int_min, is_negative, neg_int, IsInt, ap, ◌∙◌,
}
use jacc.Asm.{Instruction, Command, Register}
use jacc.Optimizer.Arithmetic.{opt_idiv, idiv_triple, is_power_of_2, int_log2}
use jacc.Optimizer.PowersOfTwo.{int_log2_lem}

-- `idiv` by a positive int rounds towards zero.
abbrev pub quotient : ℕ → ℕ → ℕ
quotient x v = if is_negative x then neg_int ((int_mod - x) / v) else x / v

-- `sar` by `p` divides by 2 ^ p and rounds down.
abbrev pub shift_right : ℕ → ℕ → ℕ
shift_right x p = if is_negative x then neg_int ((int_mod - x + (2 ^ p - 1)) / 2 ^ p) else x / 2 ^ p

divisor : (a b c : Command) → idiv_triple a b c ≡ true → is_power_of_2 a.op1.value ≡ true
unfolding idiv_triple
divisor a b c h = ground arith

round_up : (m d : ℕ) → 0 < d → m % d ≢ 0 → (m + (d - 1)) / d ≡ m / d + 1
round_up m d l h =
    let q = m / d in
    let s = m % d in
    let below = mod-lt m l in
    let sum : m + (d - 1) ≡ s - 1 + d * (q + 1) = omega (arith, div-add-mod m d) in
    ap (λ k. k / d) sum
    ∙ add-mul-div_left (s - 1) (q + 1) l
    ∙ ap (λ k. k + (q + 1)) (div-eq_of_lt (omega arith))
    ∙ omega arith

negative : (x : ℕ) → int_min ≤ x → is_negative x ≡ true
negative x h = ground arith

-- Two magnitudes below the modulus are told apart by their negations.
neg_int-suc : (k : ℕ) → k + 1 < int_mod → neg_int (k + 1) ≢ neg_int k
neg_int-suc k h = omega arith

-- The new value of a destination that holds `x`, shifted by `p` with the command `t`. A command
-- that is no shift leaves it.
abbrev pub run_shift : Instruction → ℕ → ℕ → ℕ
run_shift Instruction.sar x p = shift_right x p
run_shift Instruction.shl x p = x * 2 ^ p % int_mod
run_shift _ x p = x

shifted : Command → Command
shifted a = record a {
  type = Instruction.sar;
  op0 = record (a.op0) { reg = Register.eax };
  op1 = record (a.op1) { value = int_log2 a.op1.value };
}

-- Where `opt_idiv` finds its pattern with a positive divisor it fires, and on a negative
-- dividend that the divisor does not divide the command that it leaves computes another int than
-- the quotient.
pub idiv_negative-wrong :
    (a b c : Command) (rest : List Command) (x : ℕ)
    → idiv_triple a b c ≡ true
    → 0 < a.op1.value
    → a.op1.value < int_min
    → int_min ≤ x
    → IsInt x
    → (int_mod - x) % a.op1.value ≢ 0
    → (s : Command) × (opt_idiv (a ∷ b ∷ c ∷ rest) ≡ some (1, s ∷ b ∷ c ∷ rest))
      × (run_shift s.type x s.op1.value ≢ quotient x a.op1.value)
unfolding opt_idiv shifted
idiv_negative-wrong a b c rest x h l u lo hx n =
    let pow = int_log2_lem a.op1.value l u (divisor a b c h) in
    let up = round_up (int_mod - x) a.op1.value l n in
    let small : (int_mod - x) / a.op1.value + 1 < int_mod =
      omega (arith, div-le_self (int_mod - x) a.op1.value) in
    (
      shifted a,
      rw h refl,
      rw (negative x lo, ← pow, up) (neg_int-suc ((int_mod - x) / a.op1.value) small),
    )
