-- ===== src/Buffer.antt =====
-- src/buffer.c: the growing byte buffer. The allocated block is the list `buf`, whose length is
-- the number of bytes that `jacc_malloc` or `jacc_realloc` was last asked for. A write or a read
-- outside the block is a fault, `none`. `used`, `size` and
-- the capacities are ints, which wrap around and are compared with their signs.
pub mod Safety
pub mod Tests
use jacc.Common.{
  ℕ, zero, suc, ◌+◌, ◌-◌, ◌≤◌, Bool, Option, none, some, List, [], ◌∷◌, ◌++◌, Bytes, if◌then◌else◌,
  ltb, leb, ◌&&◌, not, add_int, less_int, is_negative, length, set, take, drop, replicate, ◌>>=◌,
}

pub record Buffer : Type 0 where
  pub buf : Bytes
  pub used : ℕ
  pub size : ℕ

-- The contents of fresh memory are not determined: `fresh` says what they happen to be.
module _ (fresh : ℕ → ℕ) where
  -- The first `n` bytes that an allocation adds behind offset `i`.
  abbrev fresh_bytes : ℕ → ℕ → Bytes
  fresh_bytes i zero = []
  fresh_bytes i (suc n) = fresh i ∷ fresh_bytes (suc i) n

  unfoldable pub malloc : ℕ → Bytes
  malloc n = fresh_bytes 0 n

  -- `realloc` keeps the bytes up to the smaller of the two sizes.
  unfoldable pub realloc : Bytes → ℕ → Bytes
  realloc b n = take n b ++ fresh_bytes (length b) (n - length b)

  unfoldable pub buffer_create : ℕ → Buffer
  unfolding malloc
  buffer_create initial_size = record { size = initial_size; used = 0; buf = malloc initial_size }

  -- `size` keeps its value when the block grows, as in the source.
  unfoldable pub buffer_ensure_capacity : Buffer → ℕ → Buffer
  unfolding realloc
  buffer_ensure_capacity b capacity =
      if less_int b.size capacity then record b { buf = realloc b.buf capacity } else b

  -- `buf[i] = c` for an int `i`
  unfoldable pub poke : Bytes → ℕ → ℕ → Option Bytes
  poke b i c = if not (is_negative i) && ltb i (length b) then some (set b i c) else none

  unfoldable pub buffer_append : Buffer → ℕ → Option Buffer
  unfolding poke
  buffer_append b c = do
    let b' = buffer_ensure_capacity b (add_int b.used 1)
    buf ← poke b'.buf b'.used c
    some (record b' { buf = buf; used = add_int b'.used 1 })

  -- `memcpy(buf + i, src, len)` for an int `i`, with `src` cut to its `len` bytes
  unfoldable pub memcpy : Bytes → ℕ → Bytes → Option Bytes
  memcpy b i src =
      if not (is_negative i) && leb (i + length src) (length b)
      then some (take i b ++ (src ++ drop (i + length src) b))
      else none

  unfoldable pub buffer_append_string : Buffer → Bytes → Option Buffer
  unfolding memcpy
  buffer_append_string b src = do
    let b' = buffer_ensure_capacity b (add_int b.used (length src))
    buf ← memcpy b'.buf b'.used src
    some (record b' { buf = buf; used = add_int b'.used (length src) })

unfoldable pub buffer_data_copy : Buffer → Option Bytes
buffer_data_copy b = if leb b.used (length b.buf) then some (take b.used b.buf) else none

unfoldable pub buffer_reset : Buffer → Buffer
buffer_reset b = record b { used = 0 }

unfoldable pub buffer_size : Buffer → ℕ
buffer_size b = b.used

unfoldable pub buffer_data : Buffer → Bytes
buffer_data b = b.buf
