-- ===== src/Generator/Data.antt =====
-- src/generator.c: the texts of the data section.
use jacc.Common.{ℕ, List, [], ◌∷◌, ◌++◌, Bytes, bytes}
use jacc.Asm.{Label, Command}
use jacc.Generator.Emit.{Code, gen_label, emit_data}

module _ (decimal : ℕ → Bytes) where
  -- The numbers of the loop of `emit_data_array` behind the first one.
  unfoldable pub more_numbers : List ℕ → Bytes
  more_numbers [] = []
  more_numbers (x ∷ xs) = b',' ∷ decimal x ++ more_numbers xs

  -- The loop: the bytes as unsigned numbers, with commas between them.
  unfoldable pub numbers : List ℕ → Bytes
  unfolding more_numbers
  numbers [] = []
  numbers (x ∷ xs) = decimal x ++ more_numbers xs

  -- The text for an array of bytes, "_@%d db ..."
  unfoldable pub array_text : Label → Bytes → Bytes
  unfolding numbers
  array_text l data_ptr = bytes "_@" ++ decimal l.id ++ bytes " db " ++ numbers data_ptr

  -- The text for a global variable, "_@%d db %d dup(0)"
  unfoldable pub variable_text : Label → ℕ → Bytes
  variable_text l size =
      bytes "_@" ++ decimal l.id ++ bytes " db " ++ decimal size ++ bytes " dup(0)"

  unfoldable pub emit_data_array : Command → Bytes → Code → Label × Code
  unfolding gen_label emit_data array_text
  emit_data_array blank data_ptr c =
      let (str_label, c') = gen_label c in
      (str_label, emit_data blank decimal (array_text str_label data_ptr) c')
