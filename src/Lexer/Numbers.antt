-- ===== src/Lexer/Numbers.antt =====
-- src/lexer.c: white space, errors, and the constants and identifiers.
use Prim.Native.String.{String}
use jacc.Common.{
  ℕ, [], ◌∷◌, ◌++◌, Bool, false, not, ◌&&◌, ◌||◌, ltb, ◌==◌, if◌then◌else◌, length, add_int,
  mul_int,
}
use jacc.Lexer.Chars.{is_digit, is_digit_ex, is_alpha, is_ident, is_whitespace, digit_value}
use jacc.Lexer.Tokens.{TokenType, TokenValue, is_error, is_ident_type, get_ident_type}
use jacc.Lexer.Stream.{Lexer, get_char, append, append_cur, reset}
use jacc.Lexer.Loops.{loop, fuel}

unfoldable pub set_type : TokenType → Lexer → Lexer
set_type type lx = record lx { token = record (lx.token) { type = type } }

unfoldable pub set_value : TokenValue → Lexer → Lexer
set_value value lx = record lx { token = record (lx.token) { value = value } }

unfoldable pub lexer_error : String → Lexer → Lexer
lexer_error message lx = record lx {
  token = record (lx.token) { type = TokenType.error; log = lx.token.log ++ message ∷ [] };
}

unfoldable pub skip_ws_step : Lexer → Lexer
unfolding get_char
skip_ws_step lx =
    get_char
      (if lx.cur_char == 10 then record lx { column = 0; line = add_int (lx.line) 1 } else lx)

unfoldable pub skip_ws : Lexer → Lexer
unfolding loop fuel skip_ws_step is_whitespace
skip_ws lx = loop (fuel lx) (λ l. is_whitespace (l.cur_char)) skip_ws_step lx

-- `buffer_append(buffer, cur_char); get_char();`
unfoldable pub keep : Lexer → Lexer
unfolding get_char
keep lx = get_char (append_cur lx)

unfoldable pub read_dec_number : String → Lexer → Lexer
unfolding lexer_error loop fuel keep is_digit
read_dec_number error_msg lx =
    if not (is_digit (lx.cur_char))
    then lexer_error error_msg lx
    else loop (fuel lx) (λ l. is_digit (l.cur_char)) keep lx

-- The `if (cur_char == '.')` of `get_float_part`; `true` tells that it returned.
unfoldable pub get_fraction : Lexer → Bool × Lexer
unfolding read_dec_number get_char is_digit is_error
get_fraction lx =
    if lx.cur_char == b'.'
    then (let dot = get_char (append b'.' lx) in
        if is_digit (dot.cur_char) || length (dot.buffer) == 1
        then (let read = read_dec_number "invalid float constant" dot in
            (is_error (read.token.type), read))
        else (false, dot))
    else (false, lx)

-- The `if (cur_char == 'e' || cur_char == 'E')` of `get_float_part`.
unfoldable pub get_exponent : Lexer → Bool × Lexer
unfolding read_dec_number get_char is_error keep
get_exponent lx =
    if lx.cur_char == b'e' || lx.cur_char == b'E'
    then (let e = get_char (append b'e' lx) in
        let signed = if e.cur_char == b'+' || e.cur_char == b'-' then keep e else e in
        let read = read_dec_number "invalid float constant" signed in
        (is_error (read.token.type), read))
    else (false, lx)

-- `token->type` is still what the last token left when the digits are read.
unfoldable pub get_float_part : Lexer → Lexer
unfolding get_fraction get_exponent set_type set_value
get_float_part lx =
    let fraction = get_fraction lx in
    if fraction.0
    then fraction.1
    else (let exponent = get_exponent (fraction.1) in
        if exponent.0
        then exponent.1
        else (let ended = append 0 (exponent.1) in
            set_value (TokenValue.float (ended.buffer)) (set_type TokenType.float_const ended)))

-- The prefix of a constant: the base, and the state after it.
unfoldable pub get_base : Lexer → ℕ × Lexer
unfolding get_char is_digit
get_base lx =
    if lx.cur_char == b'0'
    then if lx.next_char == b'x' || lx.next_char == b'X'
      then (16, get_char (get_char lx))
      else if is_digit (lx.next_char)
      then (8, get_char lx)
      else (10, lx)
    else (10, lx)

unfoldable pub digit_step : ℕ → ℕ × Lexer → ℕ × Lexer
unfolding keep digit_value
digit_step base s = (add_int (mul_int (s.0) base) (digit_value (s.1.cur_char)), keep (s.1))

unfoldable pub get_digits : ℕ → Lexer → ℕ × Lexer
unfolding loop fuel digit_step is_digit_ex
get_digits base lx = loop (fuel lx) (λ s. is_digit_ex (s.1.cur_char) base) (digit_step base) (0, lx)

-- What follows the digits of `get_scalar`.
unfoldable pub end_scalar : ℕ → ℕ → Lexer → Lexer
unfolding is_digit is_alpha lexer_error get_float_part loop fuel keep set_type set_value
end_scalar base result lx =
    if base == 8 && is_digit (lx.cur_char)
    then lexer_error "invalid digit in octal constant" lx
    else if base == 10 && (lx.cur_char == b'.' || (lx.cur_char == b'e' || lx.cur_char == b'E'))
    then get_float_part lx
    else (let suffix = loop (fuel (reset lx)) (λ l. is_alpha (l.cur_char)) keep (reset lx) in
        if ltb 0 (length (suffix.buffer))
        then lexer_error "unknown suffix on integer constant" suffix
        else set_value (TokenValue.int result) (set_type TokenType.int_const suffix))

unfoldable pub get_scalar : Lexer → Lexer
unfolding get_base get_digits end_scalar is_digit_ex lexer_error
get_scalar lx =
    let prefix = get_base (reset lx) in
    if not (is_digit_ex (prefix.1.cur_char) (prefix.0))
    then lexer_error "bad integer constant" (prefix.1)
    else (let digits = get_digits (prefix.0) (prefix.1) in
        end_scalar (prefix.0) (digits.0) (digits.1))

-- `buffer` holds the identifier without the zero here.
unfoldable pub get_ident : Lexer → Lexer
unfolding loop fuel keep is_ident lexer_error get_ident_type set_type set_value is_ident_type
get_ident lx =
    let first = keep (reset lx) in
    let read = loop (fuel first) (λ l. is_ident (l.cur_char)) keep first in
    if ltb 200 (length (read.buffer))
    then lexer_error "ident is too long" read
    else (let type = get_ident_type (read.buffer) in
        let ended = set_type type (append 0 read) in
        if is_ident_type type then set_value (TokenValue.str (ended.buffer)) ended else ended)
