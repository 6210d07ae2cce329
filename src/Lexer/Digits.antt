-- ===== src/Lexer/Digits.antt =====
-- src/lexer.c: the value of the digits of an integer constant.
use native.Mathlib.Nat.{
  pow-zero, pow-suc, add-mul, mul_assoc, mod-add-mod, mul-add-mod_self_left, div-add-mod,
}
use jacc.Common.{
  ℕ, suc, ◌+◌, ◌*◌, ◌/◌, ◌%◌, ◌^◌, [], ◌∷◌, ◌++◌, Bytes, ltb, ◌==◌, length, add_int, mul_int,
  int_mod, length-append, ◌≡◌, refl, sym, ap, ◌∙◌, arith,
}
use jacc.Lexer.Chars.{Char, is_digit_ex, digit_value}
use jacc.Lexer.Stream.{Lexer, read_stream, advance, append_cur, reset}
use jacc.Lexer.Loops.{fuel}
use jacc.Lexer.Numbers.{keep, digit_step, get_digits}
use jacc.Lexer.Source.{get_char-shifted, shifted}
use jacc.Lexer.Keeps.{both, loop-keeps}

-- The number that the digits stand for: each digit times a power of the base.
unfoldable pub number : ℕ → Bytes → ℕ
number base [] = 0
number base (c ∷ cs) = digit_value c * base ^ length cs + number base cs

number-append :
    (base : ℕ) (cs : Bytes) (c : Char)
    → number base (cs ++ c ∷ []) ≡ number base cs * base + digit_value c
unfolding number
number-append base [] c =
    let one : digit_value c * base ^ 0 ≡ digit_value c * 1 =
      ap (λ n. digit_value c * n) (pow-zero base) in
    omega (arith, one)
number-append base (d ∷ cs) c =
    let size : length (cs ++ c ∷ []) ≡ suc (length cs) = omega (arith, length-append cs (c ∷ [])) in
    let p = base ^ length cs in
    let high : digit_value d * base ^ length (cs ++ c ∷ []) ≡ digit_value d * p * base =
      ap (λ n. digit_value d * base ^ n) size
      ∙ ap (λ n. digit_value d * n) (pow-suc base (length cs))
      ∙ sym (mul_assoc (digit_value d) p base) in
    omega (arith, high, number-append base cs c, add-mul (digit_value d * p) (number base cs) base)

-- Multiplication of a remainder.
mul-mod : (n m b : ℕ) → n % m * b % m ≡ n * b % m
mul-mod n m b = sym (
    ap (λ x. x * b % m) (sym (div-add-mod n m))
    ∙ ap (λ x. x % m) (add-mul (m * (n / m)) (n % m) b)
    ∙ ap (λ x. (x + n % m * b) % m) (mul_assoc m (n / m) b)
    ∙ mul-add-mod_self_left m (n / m * b) (n % m * b))

step_value : (n b d : ℕ) → add_int (mul_int (n % int_mod) b) d ≡ (n * b + d) % int_mod
step_value n b d = ap (λ x. (x + d) % int_mod) (mul-mod n int_mod b) ∙ mod-add-mod (n * b) int_mod d

advance-buffer : (lx : Lexer) → (advance lx).buffer ≡ lx.buffer
unfolding advance read_stream
advance-buffer lx =
    let P : Lexer → Type 0 = λ l. l.buffer ≡ lx.buffer in
    both P (ltb lx.stream_buffer_pos (length lx.stream_buffer))
      (both P (lx.stream_buffer_pos + 1 == length lx.stream_buffer) refl refl) refl

keep-buffer : (lx : Lexer) → (keep lx).buffer ≡ lx.buffer ++ lx.cur_char ∷ []
unfolding keep
keep-buffer lx =
    ap (λ l. l.buffer) (get_char-shifted (append_cur lx)) ∙ advance-buffer (shifted (append_cur lx))

-- From every state with an empty buffer, the digits that the loop of an integer constant reads into
-- the buffer stand for a number that is congruent to the result modulo 2 ^ 32.
pub get_digits-number :
    (base : ℕ) (lx : Lexer)
    → (get_digits base (reset lx)).0 ≡ number base ((get_digits base (reset lx)).1.buffer) % int_mod
unfolding get_digits digit_step number
get_digits-number base lx =
    loop-keeps (λ s. s.0 ≡ number base (s.1.buffer) % int_mod) (fuel (reset lx))
      (λ s. is_digit_ex (s.1.cur_char) base) (digit_step base)
      (λ s e.
        ap (λ r. add_int (mul_int r base) (digit_value (s.1.cur_char))) e
        ∙ step_value (number base (s.1.buffer)) base (digit_value (s.1.cur_char))
        ∙ ap (λ n. n % int_mod)
            (sym (
              ap (number base) (keep-buffer (s.1))
              ∙ number-append base (s.1.buffer) (s.1.cur_char))))
      (0, reset lx) refl
