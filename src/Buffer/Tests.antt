-- ===== src/Buffer/Tests.antt =====
-- src/buffer.c: the theorems at concrete buffers.
use jacc.Common.{ℕ, ◌≡◌, refl, [], ◌∷◌, ◌++◌, some, ◌<◌, ◌-◌, int_min, add_int, arith}
use jacc.Buffer.{
  Buffer, buffer_ensure_capacity, buffer_append, buffer_append_string, buffer_data_copy,
}
use jacc.Buffer.Safety.{IsValid, contents, append-contents, append_string-contents}

-- A buffer of two bytes of which one is used; fresh memory holds the byte 7.
abbrev fresh : ℕ → ℕ
fresh i = 7

abbrev one_byte : Buffer
one_byte = record { buf = 1 ∷ 7 ∷ []; used = 1; size = 2 }

one_byte-IsValid : IsValid one_byte
one_byte-IsValid = record {
  used_fits = omega arith;
  size_fits = omega arith;
  size_int = omega arith;
}

append_grows :
    buffer_append_string fresh one_byte (2 ∷ 3 ∷ [])
    ≡ some (record { buf = 1 ∷ 2 ∷ 3 ∷ []; used = 3; size = 2 })
unfolding buffer_append_string buffer_ensure_capacity
append_grows = refl

append-contents_example :
    (b : Buffer) × (buffer_append fresh one_byte 2 ≡ some b)
    × IsValid b
    × (contents b ≡ contents one_byte ++ 2 ∷ [])
append-contents_example = append-contents fresh 2 one_byte-IsValid (omega arith)

append_string-contents_example :
    (b : Buffer) × (buffer_append_string fresh one_byte (2 ∷ 3 ∷ []) ≡ some b)
    × IsValid b
    × (buffer_data_copy b ≡ some (contents one_byte ++ 2 ∷ 3 ∷ []))
append_string-contents_example =
    append_string-contents fresh (2 ∷ 3 ∷ []) one_byte-IsValid (omega arith)

-- With 2 ^ 31 - 1 bytes used the wanted capacity is negative: the block does not grow, and the
-- byte falls outside it.
full_ensure :
    (b : Buffer)
    → b.used ≡ int_min - 1
    → b.size < int_min
    → buffer_ensure_capacity fresh b (add_int b.used 1) ≡ b
unfolding buffer_ensure_capacity
full_ensure b u s = ground arith
