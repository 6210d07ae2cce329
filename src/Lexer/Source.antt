-- ===== src/Lexer/Source.antt =====
-- src/lexer.c: what the buffered stream delivers.
use jacc.Common.{
  ℕ, zero, suc, ◌+◌, ◌<◌, [], ◌∷◌, ◌++◌, Bytes, Bool, true, false, ltb, ◌==◌, if◌then◌else◌,
  Bool-cases, length, take, drop, get_or, drop-drop, add_int, int_mod, ◌-◌, ltb→lt, lt→ltb, ◌≡◌,
  refl, sym, ap, ◌∙◌, ◌⊎◌, inl, inr, arith,
}
use jacc.Lexer.Tokens.{Token}
use jacc.Lexer.Stream.{Lexer, chunk_size, read_stream, advance, get_char, lexer_init}

-- The bytes that are not delivered yet.
unfoldable pub unread : Lexer → Bytes
unread lx = drop lx.stream_buffer_pos lx.stream_buffer ++ lx.file

-- A byte is waiting in the stream's buffer, or the file is at its end.
unfoldable pub IsReady : Lexer → Type 0
unfolding unread
IsReady lx = (lx.stream_buffer_pos < length lx.stream_buffer) ⊎ (unread lx ≡ [])

take-drop : (n : ℕ) (xs : Bytes) → take n xs ++ drop n xs ≡ xs
take-drop zero xs = refl
take-drop (suc n) [] = refl
take-drop (suc n) (x ∷ xs) = ap (λ l. x ∷ l) (take-drop n xs)

drop-get_or : (n : ℕ) (xs : Bytes) → n < length xs → drop n xs ≡ get_or xs n 0 ∷ drop (suc n) xs
drop-get_or n [] h = absurd (omega arith)
drop-get_or zero (x ∷ xs) h = refl
drop-get_or (suc n) (x ∷ xs) h = drop-get_or n xs (omega arith)

pub get_or-drop : (n i : ℕ) (xs : Bytes) → get_or (drop n xs) i 0 ≡ get_or xs (n + i) 0
get_or-drop zero i xs = ap (λ k. get_or xs k 0) (omega arith)
get_or-drop (suc n) i [] = refl
get_or-drop (suc n) i (x ∷ xs) =
    let e : suc n + i ≡ suc (n + i) = omega arith in rw e (get_or-drop n i xs)

read_stream-unread : (lx : Lexer) → unread (read_stream lx) ≡ lx.file
unfolding unread read_stream
read_stream-unread lx = take-drop chunk_size lx.file

chunk_ready :
    (n : ℕ) (xs : Bytes)
    → (0 < length (take (suc n) xs)) ⊎ (take (suc n) xs ++ drop (suc n) xs ≡ [])
chunk_ready n [] = inr refl
chunk_ready n (x ∷ xs) = inl (omega arith)

read_stream-IsReady : (lx : Lexer) → IsReady (read_stream lx)
unfolding IsReady unread read_stream
read_stream-IsReady lx = chunk_ready 4095 (lx.file)

-- The rest of a buffer of which the last byte was read.
drop_last : (n : ℕ) (xs : Bytes) → suc n ≡ length xs → drop (suc n) xs ≡ []
drop_last n [] h = refl
drop_last zero (x ∷ []) h = refl
drop_last zero (x ∷ y ∷ xs) h = absurd (omega arith)
drop_last (suc n) (x ∷ xs) h = drop_last n xs (omega arith)

record Advanced (lx lx' : Lexer) : Type 0 where
  next : lx'.next_char ≡ get_or (unread lx) 0 0
  rest : unread lx' ≡ drop 1 (unread lx)
  ready : IsReady lx'
  cur : lx'.cur_char ≡ lx.cur_char

-- A byte is taken from the buffer, and is not the last one.
take_byte :
    (lx : Lexer)
    → lx.stream_buffer_pos < length lx.stream_buffer
    → unread lx
      ≡ get_or lx.stream_buffer lx.stream_buffer_pos 0
          ∷ drop (lx.stream_buffer_pos + 1) lx.stream_buffer
        ++ lx.file
unfolding unread
take_byte lx h =
    let e : lx.stream_buffer_pos + 1 ≡ suc lx.stream_buffer_pos = omega arith in
    rw e (ap (λ l. l ++ lx.file) (drop-get_or lx.stream_buffer_pos lx.stream_buffer h))

-- The state after a byte was taken from the buffer.
abbrev pub taken : Lexer → Lexer
taken lx = record lx {
  next_char = get_or lx.stream_buffer lx.stream_buffer_pos 0;
  stream_buffer_pos = lx.stream_buffer_pos + 1;
}

taken-Advanced :
    (lx : Lexer) → lx.stream_buffer_pos + 1 < length lx.stream_buffer → Advanced lx (taken lx)
unfolding unread IsReady
taken-Advanced lx h = record {
  next = sym (ap (λ l. get_or l 0 0) (take_byte lx (omega arith)));
  rest = sym (ap (λ l. drop 1 l) (take_byte lx (omega arith)));
  ready = inl h;
  cur = refl;
}

-- The last byte was taken, and the buffer is filled again.
refilled-Advanced :
    (lx : Lexer)
    → lx.stream_buffer_pos + 1 ≡ length lx.stream_buffer
    → Advanced lx (read_stream (taken lx))
unfolding read_stream
refilled-Advanced lx h =
    let e : lx.stream_buffer_pos + 1 ≡ suc lx.stream_buffer_pos = omega arith in
    record {
      next = sym (ap (λ l. get_or l 0 0) (take_byte lx (omega arith)));
      rest =
          read_stream-unread (taken lx)
          ∙ sym (
              ap (λ l. drop 1 l) (take_byte lx (omega arith))
              ∙ ap (λ l. l ++ lx.file)
                  (ap (λ n. drop n lx.stream_buffer) e
                    ∙ drop_last lx.stream_buffer_pos lx.stream_buffer (omega arith)));
      ready = read_stream-IsReady (taken lx);
      cur = refl;
    }

ended-Advanced : (lx : Lexer) → unread lx ≡ [] → Advanced lx (record lx { next_char = 0 })
unfolding unread IsReady
ended-Advanced lx e = record {
  next = sym (ap (λ l. get_or l 0 0) e);
  rest = e ∙ sym (ap (λ l. drop 1 l) e);
  ready = inr e;
  cur = refl;
}

-- With the guard of `get_char` decided.
pub advance_full :
    (lx : Lexer)
    → lx.stream_buffer_pos < length lx.stream_buffer
    → advance lx ≡ (
        if lx.stream_buffer_pos + 1 == length lx.stream_buffer
        then read_stream (taken lx)
        else taken lx)
unfolding advance
advance_full lx h = rw (lt→ltb lx.stream_buffer_pos (length lx.stream_buffer) h) refl

pub advance_ended :
    (lx : Lexer)
    → ltb lx.stream_buffer_pos (length lx.stream_buffer) ≡ false
    → advance lx ≡ record lx { next_char = 0 }
unfolding advance
advance_ended lx h = rw h refl

choose :
    (lx : Lexer) (b : Bool)
    → (lx.stream_buffer_pos + 1 == length lx.stream_buffer) ≡ b
    → lx.stream_buffer_pos < length lx.stream_buffer
    → Advanced lx (if b then read_stream (taken lx) else taken lx)
choose lx true e h = refilled-Advanced lx (ground arith)
choose lx false e h = taken-Advanced lx (ground arith)

nothing_left :
    (lx : Lexer)
    → IsReady lx
    → ltb lx.stream_buffer_pos (length lx.stream_buffer) ≡ false
    → unread lx ≡ []
unfolding IsReady
nothing_left lx (inl h) e = absurd (ground arith)
nothing_left lx (inr h) e = h

advance_lem : (lx : Lexer) → IsReady lx → Advanced lx (advance lx)
advance_lem lx ready = elim (Bool-cases (ltb lx.stream_buffer_pos (length lx.stream_buffer))) [
  | inl h ↦
      (let lt = ltb→lt lx.stream_buffer_pos (length lx.stream_buffer) h in
        rw (advance_full lx lt)
          (choose lx (lx.stream_buffer_pos + 1 == length lx.stream_buffer) refl lt))
  | inr h ↦ rw (advance_ended lx h) (ended-Advanced lx (nothing_left lx ready h))
]

-- The lexer reads `file` and looks at its bytes `n` and `n + 1`; there are zeros behind the end.
pub record IsAt (file : Bytes) (n : ℕ) (lx : Lexer) : Type 0 where
  pub cur : lx.cur_char ≡ get_or file n 0
  pub next : lx.next_char ≡ get_or file (n + 1) 0
  pub rest : unread lx ≡ drop (n + 2) file
  pub ready : IsReady lx

-- `get_char` before `advance`
abbrev pub shifted : Lexer → Lexer
shifted lx = record lx {
  cur_char = lx.next_char;
  text_buffer = lx.text_buffer ++ lx.next_char ∷ [];
  column = add_int (lx.column) 1;
}

pub get_char-shifted : (lx : Lexer) → get_char lx ≡ advance (shifted lx)
unfolding get_char
get_char-shifted lx = refl

shifted-IsReady : (lx : Lexer) → IsReady lx → IsReady (shifted lx)
unfolding IsReady unread
shifted-IsReady lx h = h

unread-shifted : (lx : Lexer) → unread (shifted lx) ≡ unread lx
unfolding unread
unread-shifted lx = refl

-- From a lexer at the byte `n` of a file, `get_char` leaves it at the byte `n + 1`, however the
-- file falls into the chunks of the stream's buffer.
pub get_char-IsAt :
    (file : Bytes) (n : ℕ) (lx : Lexer) → IsAt file n lx → IsAt file (n + 1) (get_char lx)
get_char-IsAt file n lx at =
    let adv = advance_lem (shifted lx) (shifted-IsReady lx at.ready) in
    let view : unread (shifted lx) ≡ drop (n + 2) file = unread-shifted lx ∙ at.rest in
    rw (get_char-shifted lx) (record {
      cur = adv.cur ∙ at.next;
      next =
          adv.next
          ∙ ap (λ l. get_or l 0 0) view
          ∙ get_or-drop (n + 2) 0 file
          ∙ ap (λ k. get_or file k 0) (omega arith);
      rest =
          adv.rest
          ∙ ap (λ l. drop 1 l) view
          ∙ drop-drop (n + 2) 1 file
          ∙ ap (λ k. drop k file) (omega arith);
      ready = adv.ready;
    })

-- The state in which `lexer_init` calls `read_stream`.
unfoldable pub opened : Bytes → Token → Lexer
opened file token = record {
  file = file;
  stream_buffer = [];
  stream_buffer_pos = 0;
  cur_char = 0;
  next_char = 0;
  line = 1;
  column = int_mod - 1;
  buffer = [];
  text_buffer = [];
  token = token;
}

-- `lexer_init` leaves the lexer at the first byte of the file.
pub lexer_init-IsAt : (file : Bytes) (token : Token) → IsAt file 0 (lexer_init file token)
unfolding lexer_init opened
lexer_init-IsAt file token =
    let start = read_stream (opened file token) in
    let one =
      advance_lem (shifted start)
        (shifted-IsReady start (read_stream-IsReady (opened file token))) in
    let two =
      advance_lem (shifted (advance (shifted start)))
        (shifted-IsReady (advance (shifted start)) one.ready) in
    let view : unread (shifted start) ≡ file =
      unread-shifted start ∙ read_stream-unread (opened file token) in
    let view2 : unread (shifted (advance (shifted start))) ≡ drop 1 file =
      unread-shifted (advance (shifted start)) ∙ one.rest ∙ ap (λ l. drop 1 l) view in
    rw (get_char-shifted start) (
      rw (get_char-shifted (advance (shifted start))) (record {
        cur = two.cur ∙ one.next ∙ ap (λ l. get_or l 0 0) view;
        next = two.next ∙ ap (λ l. get_or l 0 0) view2 ∙ get_or-drop 1 0 file;
        rest = two.rest ∙ ap (λ l. drop 1 l) view2 ∙ drop-drop 1 1 file;
        ready = two.ready;
      }))
