-- ===== src/Lexer/Texts.antt =====
-- src/lexer.c: comments, strings and character constants.
use jacc.Common.{
  ℕ, zero, suc, ◌+◌, ◌*◌, ◌-◌, Bool, true, false, not, ◌&&◌, ◌||◌, leb, ltb, ◌==◌, ◌^◌,
  if◌then◌else◌, length, get_or, add_int,
}
use jacc.Lexer.Chars.{Char, is_hexdigit, is_octdigit, is_newline, digit_value}
use jacc.Lexer.Tokens.{TokenType, TokenValue, is_error}
use jacc.Lexer.Stream.{Lexer, get_char, append, reset}
use jacc.Lexer.Loops.{loop, fuel}
use jacc.Lexer.Numbers.{set_type, set_value, lexer_error, keep, skip_ws}

-- `type` with a copy of the buffer as its value.
unfoldable pub set_copy : TokenType → Lexer → Lexer
unfolding set_type set_value
set_copy type lx = set_value (TokenValue.str (lx.buffer)) (set_type type lx)

unfoldable pub in_line_comment : Lexer → Bool
unfolding is_newline
in_line_comment lx = not (lx.cur_char == 0) && not (is_newline (lx.cur_char))

unfoldable pub get_line_comment : Lexer → Lexer
unfolding get_char loop fuel keep in_line_comment set_copy
get_line_comment lx =
    let start = reset (get_char (get_char lx)) in
    set_copy TokenType.comment (append 0 (loop (fuel start) in_line_comment keep start))

unfoldable pub in_multiline_comment : Lexer → Bool
in_multiline_comment lx =
    (not (lx.cur_char == b'*') || not (lx.next_char == b'/')) && not (lx.cur_char == 0)

unfoldable pub multiline_step : Lexer → Lexer
unfolding keep
multiline_step lx =
    keep (if lx.cur_char == 10 then record lx { line = add_int (lx.line) 1 } else lx)

unfoldable pub get_multiline_comment : Lexer → Lexer
unfolding get_char loop fuel multiline_step in_multiline_comment lexer_error set_copy
get_multiline_comment lx =
    let start = reset (get_char (get_char lx)) in
    let ended = loop (fuel start) in_multiline_comment multiline_step start in
    if not (ended.cur_char == b'*')
    then lexer_error "unexpected end of stream" ended
    else set_copy TokenType.comment (append 0 (get_char (get_char ended)))

-- The byte of an escape of one letter; 0 for the other characters, which no such escape stands for.
unfoldable pub simple_escape : Char → Char
simple_escape c =
    if c == 39
    then 39
    else if c == b'"'
    then b'"'
    else if c == 92
    then 92
    else if c == b'?'
    then b'?'
    else if c == b'a'
    then 7
    else if c == b'b'
    then 8
    else if c == b'f'
    then 12
    else if c == b'n'
    then 10
    else if c == b'r'
    then 13
    else if c == b't'
    then 9
    else if c == b'v'
    then 11
    else 0

unfoldable pub get_hex_escape : Lexer → Lexer
unfolding get_char is_hexdigit digit_value lexer_error
get_hex_escape lx =
    let first = get_char lx in
    if is_hexdigit (first.cur_char)
    then if is_hexdigit (first.next_char)
      then get_char (
          get_char
            (append (digit_value (first.cur_char) * 16 + digit_value (first.next_char)) first))
      else get_char (append (digit_value (first.cur_char)) first)
    else lexer_error "\\x used with no following hex digits" first

-- The `for` loop over at most `n` octal digits, from `value`.
unfoldable pub get_octal_digits : ℕ → ℕ → Lexer → ℕ × Lexer
unfolding get_char is_octdigit digit_value
get_octal_digits zero value lx = (value, lx)
get_octal_digits (suc n) value lx =
    let rest = get_octal_digits n (value * 8 + digit_value (lx.cur_char)) (get_char lx) in
    if is_octdigit (lx.cur_char) then rest else (value, lx)

unfoldable pub get_octal_escape : Lexer → Lexer
unfolding get_octal_digits is_octdigit lexer_error
get_octal_escape lx =
    if is_octdigit (lx.cur_char)
    then (let digits = get_octal_digits 3 0 lx in
        if ltb 255 (digits.0)
        then lexer_error "octal escape sequence out of range" (digits.1)
        else append (digits.0) (digits.1))
    else lexer_error "unknown escape sequence" lx

-- `cur_char` is the character after the backslash.
unfoldable pub get_escape : Lexer → Lexer
unfolding get_char simple_escape get_hex_escape get_octal_escape
get_escape lx =
    if not (simple_escape (lx.cur_char) == 0)
    then get_char (append (simple_escape (lx.cur_char)) lx)
    else if lx.cur_char == b'x'
    then get_hex_escape lx
    else get_octal_escape lx

-- The body of the loop of `get_single_string`; the type TOK_ERROR tells that it returned.
unfoldable pub string_step : Lexer → Lexer
unfolding get_char get_escape lexer_error keep
string_step lx =
    if lx.cur_char == 92
    then get_escape (get_char lx)
    else if lx.cur_char == 0
    then lexer_error "unexpected end of stream" lx
    else keep lx

unfoldable pub in_string : Char → Lexer → Bool
unfolding is_newline is_error
in_string quote lx =
    not (is_error (lx.token.type)) && (not (lx.cur_char == quote) && not (is_newline (lx.cur_char)))

unfoldable pub get_single_string : Char → Lexer → Lexer
unfolding get_char set_type loop fuel string_step in_string is_error is_newline lexer_error
get_single_string quote lx =
    let start = set_type TokenType.string_const (get_char lx) in
    let ended = loop (fuel start) (in_string quote) string_step start in
    if is_error (ended.token.type)
    then ended
    else if is_newline (ended.cur_char)
    then lexer_error "missing terminating character" ended
    else get_char ended

-- The loop over adjacent strings; the Boolean tells that `get_string` returned.
unfoldable pub adjacent_step : Char → Bool × Lexer → Bool × Lexer
unfolding get_single_string is_error skip_ws
adjacent_step quote s =
    let read = get_single_string quote (s.1) in
    if is_error (read.token.type) then (true, read) else (false, skip_ws read)

unfoldable pub get_adjacent : Char → Lexer → Bool × Lexer
unfolding adjacent_step loop fuel
get_adjacent quote lx =
    loop (fuel lx) (λ s. not (s.0) && s.1.cur_char == quote) (adjacent_step quote) (false, lx)

-- A byte of a buffer of `char` as an `int`: from 128 on it is negative.
unfoldable pub char_value : Char → ℕ
char_value c = if leb 128 c then 2 ^ 32 - 256 + c else c

unfoldable pub get_string : Char → Lexer → Lexer
unfolding get_adjacent set_copy set_type set_value lexer_error char_value
get_string quote lx =
    let read = get_adjacent quote (reset lx) in
    if read.0
    then read.1
    else (let ended = append 0 (read.1) in
        if quote == b'"'
        then set_copy TokenType.string_const ended
        else if length (ended.buffer) == 1
        then lexer_error "empty character constant" ended
        else if ltb 2 (length (ended.buffer))
        then lexer_error "multi-character character constant" ended
        else set_value (TokenValue.int (char_value (get_or (ended.buffer) 0 0)))
            (set_type TokenType.int_const ended))
