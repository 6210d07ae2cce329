-- ===== src/Lexer/Loops.antt =====
-- The loops of src/lexer.c, with the number of bytes that are left as their fuel.
use jacc.Common.{
  ℕ, zero, suc, ◌+◌, ◌<◌, Bool, true, false, ◌==◌, if◌then◌else◌, length, drop, Bool-cases, ◌≡◌,
  refl, ◌⊎◌, inl, inr, arith,
}
use jacc.Lexer.Chars.{Char}
use jacc.Lexer.Stream.{Lexer}

module _ {ℓ} {State : Type ℓ} where
  -- `while (test) step`
  unfoldable pub loop : ℕ → (State → Bool) → (State → State) → State → State
  loop zero test step s = s
  loop (suc n) test step s = let rest = loop n test step (step s) in if test s then rest else s

  pub loop_stopped :
      (n : ℕ) (test : State → Bool) (step : State → State) (s : State)
      → test s ≡ false
      → loop n test step s ≡ s
  unfolding loop
  loop_stopped zero test step s h = refl
  loop_stopped (suc n) test step s h = rw h

  -- A loop whose step uses up some of the measure, or stops the loop, ends before its fuel does.
  pub loop_ends :
      (n : ℕ) (test : State → Bool) (step : State → State) (measure : State → ℕ) (s : State)
      → ((s : State) → test s ≡ true → (measure (step s) < measure s) ⊎ (test (step s) ≡ false))
      → measure s < n
      → test (loop n test step s) ≡ false
  unfolding loop
  loop_ends zero test step measure s progress h = absurd (omega arith)
  loop_ends (suc n) test step measure s progress h = elim (Bool-cases (test s)) [
    | inl e ↦ rw e (elim (progress s e) [
      | inl lt ↦ loop_ends n test step measure (step s) progress (omega arith)
      | inr stop ↦ rw (loop_stopped n test step (step s) stop) stop
    ])
    | inr e ↦ rw e e
  ]

-- A character that is not the zero at the end counts.
unfoldable pub count : Char → ℕ
count c = if c == 0 then 0 else 1

-- The bytes that are not read into a character yet, and the characters that are not zero.
unfoldable pub left : Lexer → ℕ
unfolding count
left lx =
    length (drop lx.stream_buffer_pos lx.stream_buffer)
    + length lx.file
    + count lx.next_char
    + count lx.cur_char

-- The fuel of a loop.
unfoldable pub fuel : Lexer → ℕ
unfolding left
fuel lx = left lx + 1
