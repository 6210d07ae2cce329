-- ===== src/Lexer/Ends.antt =====
-- src/lexer.c: the loops end by their own conditions, never for want of fuel.
use jacc.Common.{
  ℕ, ◌+◌, ◌<◌, ◌≤◌, Bool, true, false, ltb, ◌==◌, if◌then◌else◌, Bytes, length, take, drop, get_or,
  add_int, Bool-cases, length-take, length-drop, ltb→lt, ◌≡◌, ◌≢◌, refl, ap, ◌⊎◌, inl, inr, arith,
}
use jacc.Lexer.Chars.{Char, is_digit_ex, is_whitespace}
use jacc.Lexer.Tokens.{Token, is_error}
use jacc.Lexer.Stream.{Lexer, chunk_size, read_stream, advance, get_char, append_cur}
use jacc.Lexer.Loops.{loop, loop_ends, count, left, fuel}
use jacc.Lexer.Source.{get_char-shifted, shifted, taken, advance_full, advance_ended}
use jacc.Lexer.Numbers.{keep, skip_ws_step, skip_ws, digit_step, get_digits, lexer_error}
use jacc.Lexer.Texts.{string_step, in_string, get_escape, in_multiline_comment, multiline_step}
use jacc.Lexer.Keeps.{both}
use jacc.Lexer.KeepsScan.{get_escape-keeps}

-- The bytes that are not delivered, and the second character.
unfoldable ahead : Lexer → ℕ
unfolding count
ahead lx = length (drop lx.stream_buffer_pos lx.stream_buffer) + length lx.file + count lx.next_char

left_ahead : (lx : Lexer) → left lx ≡ ahead lx + count lx.cur_char
unfolding left ahead
left_ahead lx = refl

count_le : (c : Char) → count c ≤ 1
unfolding count
count_le c = ground arith

chunk_length : (n : ℕ) (xs : Bytes) → length (take n xs) + length (drop n xs) ≡ length xs
chunk_length n xs = omega (arith, length-take n xs, length-drop n xs)

-- The bound on `ahead` behind `advance`.
abbrev waiting : Lexer → ℕ
waiting lx = length (drop lx.stream_buffer_pos lx.stream_buffer) + length lx.file

taken-ahead :
    (lx : Lexer) (b : Bool)
    → lx.stream_buffer_pos < length lx.stream_buffer
    → ahead (if b then read_stream (taken lx) else taken lx) ≤ waiting lx
unfolding ahead read_stream
taken-ahead lx true h = omega (
  arith,
  chunk_length chunk_size lx.file,
  count_le (get_or lx.stream_buffer lx.stream_buffer_pos 0),
  length-drop lx.stream_buffer_pos lx.stream_buffer,
)
taken-ahead lx false h = omega (
  arith,
  count_le (get_or lx.stream_buffer lx.stream_buffer_pos 0),
  length-drop (lx.stream_buffer_pos + 1) lx.stream_buffer,
  length-drop lx.stream_buffer_pos lx.stream_buffer,
)

ended-ahead : (lx : Lexer) → ahead (record lx { next_char = 0 }) ≤ waiting lx
unfolding ahead count
ended-ahead lx = omega arith

advance-ahead : (lx : Lexer) → ahead (advance lx) ≤ waiting lx
advance-ahead lx = elim (Bool-cases (ltb lx.stream_buffer_pos (length lx.stream_buffer))) [
  | inl h ↦
      (let lt = ltb→lt lx.stream_buffer_pos (length lx.stream_buffer) h in
        rw (advance_full lx lt)
          (taken-ahead lx (lx.stream_buffer_pos + 1 == length lx.stream_buffer) lt))
  | inr h ↦ rw (advance_ended lx h) (ended-ahead lx)
]

advance-cur : (lx : Lexer) → (advance lx).cur_char ≡ lx.cur_char
unfolding advance read_stream
advance-cur lx =
    let P : Lexer → Type 0 = λ l. l.cur_char ≡ lx.cur_char in
    both P (ltb lx.stream_buffer_pos (length lx.stream_buffer))
      (both P (lx.stream_buffer_pos + 1 == length lx.stream_buffer) refl refl) refl

left_waiting : (lx : Lexer) → left lx ≡ waiting lx + count lx.next_char + count lx.cur_char
unfolding left
left_waiting lx = refl

-- `get_char` drops the first character from what is left.
pub get_char-left : (lx : Lexer) → left (get_char lx) + count lx.cur_char ≤ left lx
get_char-left lx = rw (get_char-shifted lx) (
    omega (
      arith,
      advance-ahead (shifted lx),
      ap count (advance-cur (shifted lx)),
      left_ahead (advance (shifted lx)),
      left_waiting lx,
    ))

-- Steps of a loop.
count_one : (c : Char) → c ≢ 0 → count c ≡ 1
unfolding count
count_one c h = ground arith

get_char-lt : (lx : Lexer) → lx.cur_char ≢ 0 → left (get_char lx) < left lx
get_char-lt lx h = omega (arith, get_char-left lx, count_one lx.cur_char h)

edit-left :
    (lx : Lexer) (token : Token) (line column : ℕ) (buffer : Bytes)
    → left (record lx { token = token; line = line; column = column; buffer = buffer }) ≡ left lx
unfolding left
edit-left lx token line column buffer = refl

keep-lt : (lx : Lexer) → lx.cur_char ≢ 0 → left (keep lx) < left lx
unfolding keep
keep-lt lx h = omega (
  arith,
  get_char-lt (append_cur lx) h,
  edit-left lx lx.token lx.line lx.column ((append_cur lx).buffer),
)

newline_moved :
    (lx : Lexer) (b : Bool)
    → lx.cur_char ≢ 0
    → left (get_char (if b then record lx { column = 0; line = add_int (lx.line) 1 } else lx))
      < left lx
newline_moved lx true h = omega (
  arith,
  get_char-lt (record lx { column = 0; line = add_int (lx.line) 1 }) h,
  edit-left lx lx.token (add_int (lx.line) 1) 0 lx.buffer,
)
newline_moved lx false h = get_char-lt lx h

white_nonzero : (c : Char) → is_whitespace c ≡ true → c ≢ 0
unfolding is_whitespace
white_nonzero c h = ground arith

fuel_lem : (lx : Lexer) → left lx < fuel lx
unfolding fuel
fuel_lem lx = omega arith

-- From every state `skip_ws` ends at a character that is no white space.
pub skip_ws_ends : (lx : Lexer) → is_whitespace ((skip_ws lx).cur_char) ≡ false
unfolding skip_ws skip_ws_step
skip_ws_ends lx =
    loop_ends (fuel lx) (λ l. is_whitespace (l.cur_char)) skip_ws_step left lx
      (λ l h. inl (newline_moved l (l.cur_char == 10) (white_nonzero l.cur_char h))) (fuel_lem lx)

digit_nonzero : (base : ℕ) (c : Char) → is_digit_ex c base ≡ true → c ≢ 0
unfolding is_digit_ex
digit_nonzero base c h = ground arith

-- From every state the loop over the digits of an integer constant ends at a character that is
-- no digit of the base.
pub get_digits_ends :
    (base : ℕ) (lx : Lexer) → is_digit_ex ((get_digits base lx).1.cur_char) base ≡ false
unfolding get_digits digit_step
get_digits_ends base lx =
    loop_ends (fuel lx) (λ s. is_digit_ex (s.1.cur_char) base) (digit_step base) (λ s. left (s.1))
      (0, lx) (λ s h. inl (keep-lt (s.1) (digit_nonzero base (s.1.cur_char) h))) (fuel_lem lx)

escape_le : (lx : Lexer) → left (get_escape lx) ≤ left lx
escape_le lx =
    get_escape-keeps (λ l. left l ≤ left lx) (λ l h. omega (arith, get_char-left l, h))
      (λ l token line column buffer h. omega (arith, edit-left l token line column buffer, h)) lx
      (omega arith)

-- An iteration of the loop over a string's characters, with its two tests decided.
string_progress :
    (quote : Char) (lx : Lexer)
    → in_string quote lx ≡ true
    → (left (string_step lx) < left lx) ⊎ (in_string quote (string_step lx) ≡ false)
unfolding string_step lexer_error in_string is_error
string_progress quote lx h = elim (Bool-cases (lx.cur_char == 92)) [
  | inl e ↦ rw e (inl (omega (arith, escape_le (get_char lx), get_char-lt lx (ground arith))))
  | inr e ↦ rw e (elim (Bool-cases (lx.cur_char == 0)) [
    | inl z ↦ rw z (inr refl)
    | inr z ↦ rw z (inl (keep-lt lx (ground arith)))
  ])
]

-- From every state the loop over the characters of a string ends because its condition fails or
-- an iteration returned with an error.
pub string_ends :
    (quote : Char) (lx : Lexer)
    → in_string quote (loop (fuel lx) (in_string quote) string_step lx) ≡ false
string_ends quote lx =
    loop_ends (fuel lx) (in_string quote) string_step left lx (string_progress quote) (fuel_lem lx)

line_moved :
    (lx : Lexer) (b : Bool)
    → lx.cur_char ≢ 0
    → left (keep (if b then record lx { line = add_int (lx.line) 1 } else lx)) < left lx
line_moved lx true h = omega (
  arith,
  keep-lt (record lx { line = add_int (lx.line) 1 }) h,
  edit-left lx lx.token (add_int (lx.line) 1) lx.column lx.buffer,
)
line_moved lx false h = keep-lt lx h

comment_nonzero : (lx : Lexer) → in_multiline_comment lx ≡ true → lx.cur_char ≢ 0
unfolding in_multiline_comment
comment_nonzero lx h = ground arith

-- From every state the loop over a comment ends at `*/` or at a zero.
pub multiline_comment_ends :
    (lx : Lexer)
    → in_multiline_comment (loop (fuel lx) in_multiline_comment multiline_step lx) ≡ false
unfolding multiline_step
multiline_comment_ends lx =
    loop_ends (fuel lx) in_multiline_comment multiline_step left lx
      (λ l h. inl (line_moved l (l.cur_char == 10) (comment_nonzero l h))) (fuel_lem lx)
