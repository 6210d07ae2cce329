-- ===== src/Buffer/Safety.antt =====
-- src/buffer.c: no access outside the block, and the bytes that a buffer holds.
use jacc.Common.{
  ℕ, zero, suc, ◌+◌, ◌-◌, ◌≤◌, ◌≡◌, refl, ap, sym, ◌∙◌, some, [], ◌∷◌, ◌++◌, Bytes, inl, inr,
  Bool-cases, ◌<◌, not, ◌&&◌, add_int, less_int, is_negative, int_min, ltb, leb, length, set, take,
  drop, arith, length-take, length-append, take-append_left, take-take, take-append_exact,
  take-set_end, length-set, true, length-drop,
}
use mathlib.Core.List.{append_assoc}
use jacc.Buffer.{
  Buffer, fresh_bytes, malloc, realloc, buffer_create, buffer_ensure_capacity, poke, buffer_append,
  buffer_append_string, buffer_data_copy, buffer_reset,
}

-- The used bytes lie in the block, and so do the first `size`, although the block may have grown
-- and shrunk since `size` was set.
pub record IsValid (b : Buffer) : Type 0 where
  pub used_fits : b.used ≤ length b.buf
  pub size_fits : b.size ≤ length b.buf
  pub size_int : b.size < int_min

-- the bytes that have been appended
abbrev pub contents : Buffer → Bytes
contents b = take b.used b.buf

module _ (fresh : ℕ → ℕ) where
  length-fresh_bytes : (i n : ℕ) → length (fresh_bytes fresh i n) ≡ n
  length-fresh_bytes i zero = refl
  length-fresh_bytes i (suc n) = ap suc (length-fresh_bytes (suc i) n)

  length-realloc : (b : Bytes) (n : ℕ) → length (realloc fresh b n) ≡ n
  unfolding realloc
  length-realloc b n = omega (
    arith,
    length-append (take n b) (fresh_bytes fresh (length b) (n - length b)),
    length-take n b,
    length-fresh_bytes (length b) (n - length b),
  )

  take-realloc :
      (b : Bytes) (u n : ℕ) → u ≤ n → u ≤ length b → take u (realloc fresh b n) ≡ take u b
  unfolding realloc
  take-realloc b u n p q =
      take-append_left u (take n b) _ (omega (arith, length-take n b)) ∙ take-take u n b p

  -- For a size that is not negative, `buffer_create` gives a valid buffer without contents.
  pub buffer_create-IsValid :
      (n : ℕ)
      → n < int_min
      → IsValid (buffer_create fresh n) × (contents (buffer_create fresh n) ≡ [])
  unfolding buffer_create malloc
  buffer_create-IsValid n small = (
    record {
      used_fits = ground arith;
      size_fits = omega (arith, length-fresh_bytes 0 n);
      size_int = small;
    },
    refl,
  )

  -- For a request of at least `used` bytes the block covers it, and the contents stay.
  ensure_lem :
      {b : Buffer} (n : ℕ)
      → IsValid b
      → b.used ≤ n
      → n < int_min
      → let b' = buffer_ensure_capacity fresh b n in
        (n ≤ length b'.buf)
        × (b.size ≤ length b'.buf)
        × (b'.used ≡ b.used)
        × (b'.size ≡ b.size)
        × (take b.used b'.buf ≡ take b.used b.buf)
  unfolding buffer_ensure_capacity
  ensure_lem {b} n v p small = elim (Bool-cases (less_int b.size n)) [
    | inl e ↦ rw e (
      omega (arith, length-realloc b.buf n),
      ground (arith, length-realloc b.buf n),
      refl,
      refl,
      take-realloc b.buf b.used n p v.used_fits,
    )
    | inr e ↦ rw e (ground (arith, v.size_fits, v.size_int), v.size_fits, refl, refl, refl)
  ]

  -- On a valid buffer with less than 2 ^ 31 - 1 bytes used, `buffer_append` does not write outside
  -- the block. It keeps the buffer valid, and the contents afterwards are the contents before with
  -- the byte at the end.
  pub append-contents :
      {b : Buffer} (c : ℕ)
      → IsValid b
      → b.used + 1 < int_min
      → (b' : Buffer) × (buffer_append fresh b c ≡ some b')
        × IsValid b'
        × (contents b' ≡ contents b ++ c ∷ [])
  unfolding buffer_append poke
  append-contents {b} c v small =
      let sum : add_int b.used 1 ≡ b.used + 1 = omega arith in
      let r = buffer_ensure_capacity fresh b (b.used + 1) in
      let (room, fits, used, size, same) = ensure_lem (b.used + 1) v (omega arith) small in
      let next : r.used + 1 ≡ suc r.used = omega arith in
      let inside : (not (is_negative r.used) && ltb r.used (length r.buf)) ≡ true = ground arith in
      let after : add_int r.used 1 ≡ r.used + 1 = omega arith in
      (
        record r { buf = set r.buf r.used c; used = r.used + 1 },
        rw (sum, inside, after) refl,
        record {
          used_fits = omega (arith, length-set r.buf r.used c);
          size_fits = omega (arith, length-set r.buf r.used c);
          size_int = omega (arith, v.size_int);
        },
        rw next (
            take-set_end r.buf r.used c (omega arith)
            ∙ ap (λ l. l ++ c ∷ []) (ap (λ n. take n r.buf) used ∙ same)),
      )

  -- On a valid buffer whose used bytes and the string together are less than 2 ^ 31,
  -- `buffer_append_string` does not write outside the block. It keeps the buffer valid, and
  -- `buffer_data_copy` on the result reads inside the block and gives the contents before with
  -- the string at the end.
  pub append_string-contents :
      {b : Buffer} (src : Bytes)
      → IsValid b
      → b.used + length src < int_min
      → (b' : Buffer) × (buffer_append_string fresh b src ≡ some b')
        × IsValid b'
        × (buffer_data_copy b' ≡ some (contents b ++ src))
  unfolding buffer_append_string buffer_data_copy
  append_string-contents {b} src v small =
      let sum : add_int b.used (length src) ≡ b.used + length src = omega arith in
      let r = buffer_ensure_capacity fresh b (b.used + length src) in
      let (room, fits, used, size, same) = ensure_lem (b.used + length src) v (omega arith) small in
      let inside : (not (is_negative r.used) && leb (r.used + length src) (length r.buf)) ≡ true =
        ground arith in
      let after : add_int r.used (length src) ≡ r.used + length src = omega arith in
      let left = take r.used r.buf in
      let wide : length left ≡ r.used = omega (arith, length-take r.used r.buf) in
      let written = left ++ (src ++ drop (r.used + length src) r.buf) in
      let total : length written ≡ length r.buf = omega (
        arith,
        length-append left (src ++ drop (r.used + length src) r.buf),
        length-append src (drop (r.used + length src) r.buf),
        length-drop (r.used + length src) r.buf,
      ) in
      let readable : leb (r.used + length src) (length written) ≡ true = ground (arith, total) in
      (
        record r { buf = written; used = r.used + length src },
        rw (sum, inside, after) refl,
        record {
          used_fits = omega arith;
          size_fits = omega arith;
          size_int = omega (arith, v.size_int);
        },
        rw readable (
            ap some (
              ap (take (r.used + length src)) (sym (append_assoc left src _))
              ∙ take-append_exact (r.used + length src) (left ++ src) _
                  (omega (arith, length-append left src))
              ∙ ap (λ l. l ++ src) (ap (λ n. take n r.buf) used ∙ same))),
      )

-- `buffer_reset` keeps a valid buffer valid and leaves it without contents.
pub reset-IsValid :
    {b : Buffer} → IsValid b → IsValid (buffer_reset b) × (contents (buffer_reset b) ≡ [])
unfolding buffer_reset
reset-IsValid v =
    (record { used_fits = omega arith; size_fits = v.size_fits; size_int = v.size_int }, refl)
