-- ===== src/Optimizer/PowersOfTwo.antt =====
-- src/optimizer.c: `is_power_of_2` and `int_log2`, and the multiplications and divisions that
-- `opt_imul2` and `opt_idiv` turn into shifts.
use Prim.Native.Nat.{min, bit_and, digits, bit_and-bitwise}
use native.Mathlib.Nat.{pow-suc}
use native.Mathlib.Decide.{ℕ_discrete}
use jacc.Common.{
  ℕ, zero, suc, ◌+◌, ◌-◌, ◌/◌, ◌%◌, ◌^◌, ◌≤◌, ◌<◌, ◌≡◌, refl, ap, sym, ◌∙◌, true, false, arith, leb,
  sub_int, int_min, is_negative, ==_iff,
}
use jacc.Optimizer.Arithmetic.{is_power_of_2, log2_loop, int_log2}

-- The binary digits that `n` steps of `bit_and` read.
abbrev and_steps : ℕ → ℕ → ℕ → ℕ
and_steps n a b = digits (λ _. zero) min n a b

and_steps_self : (n a : ℕ) → a ≤ n → and_steps n a a ≡ a
and_steps_self zero zero h = refl
and_steps_self zero (suc a) h = absurd (omega arith)
and_steps_self (suc n) zero h = refl
and_steps_self (suc n) (suc a) h = omega (arith, and_steps_self n (suc a / 2) (omega arith))

-- Only a power of two shares no binary digit with its predecessor.
power_of_steps :
    (n a b : ℕ) → 0 < a → a ≤ n → b + 1 ≡ a → and_steps n a b ≡ 0 → (p : ℕ) × (a ≡ 2 ^ p)
power_of_steps zero a b l h q e = absurd (omega arith)
power_of_steps (suc n) zero b l h q e = absurd (omega arith)
power_of_steps (suc n) (suc a) b l h q e =
    let half : and_steps n (suc a / 2) (b / 2) ≡ 0 = omega arith in
    elim (ℕ_discrete (suc a % 2) 1) [
      | yes odd ↦
          let same : b / 2 ≡ suc a / 2 = omega arith in
          let self = and_steps_self n (suc a / 2) (omega arith) in
          let gone : suc a / 2 ≡ 0 = sym self ∙ rw same at half in (0, omega arith)
      | no even ↦
          let (p, r) =
            power_of_steps n (suc a / 2) (b / 2) (omega arith) (omega arith) (omega arith) half in
          (suc p, omega (arith, pow-suc 2 p))
    ]

-- The test `is_power_of_2` on a positive int.
pub is_power_of_2_sound :
    (v : ℕ) → 0 < v → v < int_min → is_power_of_2 v ≡ true → (p : ℕ) × (v ≡ 2 ^ p)
unfolding is_power_of_2
is_power_of_2_sound v l h e =
    let before : sub_int v 1 ≡ v - 1 = omega arith in
    let zeros : bit_and v (v - 1) ≡ 0 = (==_iff _ 0).0 (rw before at e) in
    power_of_steps v v (v - 1) l (omega arith) (omega arith)
      (sym (bit_and-bitwise v (v - 1)) ∙ zeros)

exponent-pos : (p : ℕ) → 0 < 2 ^ p
exponent-pos zero = omega arith
exponent-pos (suc p) = omega (arith, pow-suc 2 p, exponent-pos p)

exponent-lt : (p k : ℕ) → 2 ^ p < 2 ^ k → p < k
exponent-lt zero zero h = absurd (omega arith)
exponent-lt zero (suc k) h = omega arith
exponent-lt (suc p) zero h = absurd (omega (arith, pow-suc 2 p, exponent-pos p))
exponent-lt (suc p) (suc k) h =
    omega (arith, exponent-lt p k (omega (arith, pow-suc 2 p, pow-suc 2 k)))

log2_loop-pow : (fuel p r : ℕ) → p < fuel → log2_loop fuel (2 ^ p) r ≡ r + p
unfolding log2_loop
log2_loop-pow zero p r h = absurd (omega arith)
log2_loop-pow (suc fuel) zero r h = omega arith
log2_loop-pow (suc fuel) (suc p) r h =
    let half : 2 ^ suc p / 2 ≡ 2 ^ p = omega (arith, pow-suc 2 p) in
    let big : leb 2 (2 ^ suc p) ≡ true = ground (arith, pow-suc 2 p, exponent-pos p) in
    rw (big, half) (log2_loop-pow fuel p (r + 1) (omega arith) ∙ omega arith)

-- A positive int for which `is_power_of_2` holds is 2 to the power that `int_log2` gives.
pub int_log2_lem : (v : ℕ) → 0 < v → v < int_min → is_power_of_2 v ≡ true → v ≡ 2 ^ int_log2 v
unfolding int_log2
int_log2_lem v l h e =
    let (p, q) = is_power_of_2_sound v l h e in
    let small = exponent-lt p 31 (rw (← q) h) in
    let positive : is_negative v ≡ false = ground arith in
    rw positive (
      q
      ∙ ap (λ k. 2 ^ k)
          (sym (ap (λ w. log2_loop 32 w 0) q ∙ log2_loop-pow 32 p 0 (omega arith) ∙ omega arith)))
