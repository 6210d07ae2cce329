-- ===== src/Lexer/Next.antt =====
-- src/lexer.c: `lexer_next_token`, and the loop over a file's tokens that its callers make.
use jacc.Common.{
  ◌-◌, [], ◌∷◌, none, some, Bytes, Bool, true, false, ◌&&◌, ◌||◌, ◌==◌, if◌then◌else◌, length, set,
}
use jacc.Lexer.Chars.{is_digit, is_ident_start}
use jacc.Lexer.Tokens.{TokenType, is_error, is_eos}
use jacc.Lexer.Stream.{Lexer, reset}
use jacc.Lexer.Numbers.{set_type, lexer_error, skip_ws, get_scalar, get_ident, get_float_part}
use jacc.Lexer.Punctuators.{get_punctuator_type}
use jacc.Lexer.Texts.{get_line_comment, get_multiline_comment, get_string}

-- `text[size - 1] = 0` on a copy of the text buffer.
unfoldable pub get_token_text : Lexer → Bytes
get_token_text lx = set (lx.text_buffer) (length (lx.text_buffer) - 1) 0

unfoldable pub punctuator : Lexer → Lexer
unfolding get_punctuator_type set_type is_error lexer_error
punctuator lx =
    let found = get_punctuator_type lx in
    let typed = set_type (found.0) (found.1) in
    if is_error (found.0) then lexer_error "unexpected character" typed else typed

-- The part of `lexer_next_token` that tells the tokens apart.
unfoldable pub scan_token : Lexer → Lexer
unfolding get_scalar get_ident get_string get_float_part get_line_comment get_multiline_comment
    punctuator set_type is_digit is_ident_start
scan_token lx =
    if is_digit (lx.cur_char)
    then get_scalar lx
    else if is_ident_start (lx.cur_char)
    then get_ident lx
    else if lx.cur_char == b'"'
    then get_string b'"' lx
    else if lx.cur_char == 39
    then get_string 39 lx
    else if lx.cur_char == b'.' && is_digit (lx.next_char)
    then get_float_part (reset lx)
    else if lx.cur_char == 0
    then set_type TokenType.eos lx
    else if lx.cur_char == b'/' && lx.next_char == b'/'
    then get_line_comment lx
    else if lx.cur_char == b'/' && lx.next_char == b'*'
    then get_multiline_comment lx
    else punctuator lx

-- What `lexer_next_token` does before it looks at `cur_char`.
unfoldable pub start_token : Lexer → Lexer
unfolding skip_ws
start_token lx =
    let skipped = skip_ws lx in
    record skipped {
      text_buffer = skipped.cur_char ∷ [];
      token = record (skipped.token) { line = skipped.line; column = skipped.column };
    }

-- What `lexer_next_token` does behind `scan_token`. The Boolean is the result.
unfoldable pub end_token : Lexer → Bool × Lexer
unfolding is_error is_eos get_token_text
end_token scanned =
    if is_error (scanned.token.type) || is_eos (scanned.token.type)
    then (false, record scanned { token = record (scanned.token) { text = none } })
    else (
      true,
      record scanned { token = record (scanned.token) { text = some (get_token_text scanned) } },
    )

-- The result is 0 for an error and at the end.
unfoldable pub lexer_next_token : Lexer → Bool × Lexer
unfolding start_token scan_token end_token
lexer_next_token lx = end_token (scan_token (start_token lx))
