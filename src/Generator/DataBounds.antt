-- ===== src/Generator/DataBounds.antt =====
-- src/generator.c: how long the texts of the data section are.
use jacc.Common.{
  ℕ, ◌+◌, ◌*◌, ◌≤◌, ◌<◌, List, [], ◌∷◌, ◌++◌, Bytes, bytes, length, length-append, ◌≡◌, arith,
}
use jacc.Asm.{Label}
use jacc.Generator.Data.{more_numbers, numbers, array_text, variable_text}

-- Every member is the unsigned value of a byte.
abbrev pub AllBytes : List ℕ → Type 0
AllBytes [] = Unit {0}
AllBytes (x ∷ xs) = (x < 256) × AllBytes xs

-- What stands between a label and the rest.
between :
    (label rest : Bytes) → length (label ++ bytes " db " ++ rest) ≡ 4 + length label + length rest
between label rest =
    omega (arith, length-append (label ++ bytes " db ") rest, length-append label (bytes " db "))

module _ (decimal : ℕ → Bytes) (short : (n : ℕ) → n < 256 → length (decimal n) ≤ 3) where
  more-length : (xs : List ℕ) → AllBytes xs → length (more_numbers decimal xs) ≤ 4 * length xs
  unfolding more_numbers
  more-length [] a = omega arith
  more-length (x ∷ xs) (b, a) =
      omega
        (arith, length-append (decimal x) (more_numbers decimal xs), short x b, more-length xs a)

  numbers-length :
      (x : ℕ) (xs : List ℕ)
      → AllBytes (x ∷ xs)
      → length (numbers decimal (x ∷ xs)) ≤ 3 + 4 * length xs
  unfolding numbers
  numbers-length x xs (b, a) =
      omega
        (arith, length-append (decimal x) (more_numbers decimal xs), short x b, more-length xs a)

  -- Where the numbers below 256 have at most three digits and the label's at most nine, the text for
  -- an array of one byte or more fits, with its zero, into the 15 + 4 * size bytes that are allocated
  -- for it.
  pub array_text_fits :
      (l : Label) (x : ℕ) (xs : List ℕ)
      → length (decimal l.id) ≤ 9
      → AllBytes (x ∷ xs)
      → length (array_text decimal l (x ∷ xs)) + 1 ≤ 15 + 4 * length (x ∷ xs)
  unfolding array_text
  array_text_fits l x xs n a =
      omega (arith, between (decimal l.id) (numbers decimal (x ∷ xs)), numbers-length x xs a)

-- Where the label and the size of a variable have at most 16 digits together, the text for it fits,
-- with its zero, into the 30 bytes that are allocated for it.
pub variable_text_fits :
    (decimal : ℕ → Bytes) (l : Label) (size : ℕ)
    → length (decimal l.id) + length (decimal size) ≤ 16
    → length (variable_text decimal l size) + 1 ≤ 30
unfolding variable_text
variable_text_fits decimal l size n = omega (
  arith,
  between (decimal l.id) (decimal size),
  length-append (decimal l.id ++ bytes " db " ++ decimal size) (bytes " dup(0)"),
)
