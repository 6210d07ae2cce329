-- ===== src/Lexer/KeepsScan.antt =====
-- src/lexer.c: the predicates of Lexer/Keeps.antt through comments, strings and
-- `lexer_next_token`.
use Prim.Native.String.{String}
use jacc.Common.{
  ℕ, zero, suc, ◌+◌, ◌*◌, Bool, false, not, ◌&&◌, ltb, ◌==◌, if◌then◌else◌, [], Bytes, length,
  get_or, add_int,
}
use jacc.Lexer.Chars.{
  Char, is_digit, is_ident_start, is_hexdigit, is_octdigit, is_newline, digit_value,
}
use jacc.Lexer.Tokens.{Token, TokenType, TokenValue, is_error}
use jacc.Lexer.Stream.{Lexer, get_char, append, reset}
use jacc.Lexer.Loops.{loop, fuel}
use jacc.Lexer.Numbers.{set_type, lexer_error, keep}
use jacc.Lexer.Punctuators.{get_punctuator_type}
use jacc.Lexer.Texts.{
  set_copy, in_line_comment, get_line_comment, in_multiline_comment, multiline_step,
  get_multiline_comment, simple_escape, get_hex_escape, get_octal_digits, get_octal_escape,
  get_escape, string_step, in_string, get_single_string, adjacent_step, get_adjacent, char_value,
  get_string,
}
use jacc.Lexer.Next.{punctuator, scan_token}
use jacc.Lexer.Keeps.{both, loop-keeps}
use jacc.Lexer.KeepsPunctuators.{get_punctuator_type-keeps}
use jacc.Lexer.Keeps

module _ (P : Lexer → Type 0) (moves : (lx : Lexer) → P lx → P (get_char lx))
    (edits : (lx : Lexer) (token : Token) (line column : ℕ) (buffer : Bytes)
      → P lx
      → P (record lx { token = token; line = line; column = column; buffer = buffer })) where
  copy_keeps : (type : TokenType) (lx : Lexer) → P lx → P (set_copy type lx)
  unfolding set_copy
  copy_keeps type lx p =
      Keeps.set_value-keeps P moves edits (TokenValue.str (lx.buffer)) (set_type type lx)
        (Keeps.set_type-keeps P moves edits type lx p)

  error_keeps : (message : String) (lx : Lexer) → P lx → P (lexer_error message lx)
  error_keeps message lx p = Keeps.error_keeps P moves edits message lx p

  append_keeps : (c : Char) (lx : Lexer) → P lx → P (append c lx)
  append_keeps c lx p = Keeps.buffer_keeps P moves edits lx ((append c lx).buffer) p

  line_comment-keeps : (lx : Lexer) → P lx → P (get_line_comment lx)
  unfolding get_line_comment
  line_comment-keeps lx p =
      let start = reset (get_char (get_char lx)) in
      let q =
        Keeps.buffer_keeps P moves edits (get_char (get_char lx)) []
          (moves (get_char lx) (moves lx p)) in
      let ended = loop (fuel start) in_line_comment keep start in
      let r =
        loop-keeps P (fuel start) in_line_comment keep (Keeps.keep-keeps P moves edits) start q in
      copy_keeps TokenType.comment (append 0 ended) (append_keeps 0 ended r)

  multiline_step-keeps : (lx : Lexer) → P lx → P (multiline_step lx)
  unfolding multiline_step
  multiline_step-keeps lx p =
      Keeps.keep-keeps P moves edits
        (if lx.cur_char == 10 then record lx { line = add_int (lx.line) 1 } else lx)
        (both P (lx.cur_char == 10) (edits lx lx.token (add_int (lx.line) 1) lx.column lx.buffer p)
          p)

  multiline_comment-keeps : (lx : Lexer) → P lx → P (get_multiline_comment lx)
  unfolding get_multiline_comment
  multiline_comment-keeps lx p =
      let start = reset (get_char (get_char lx)) in
      let q =
        Keeps.buffer_keeps P moves edits (get_char (get_char lx)) []
          (moves (get_char lx) (moves lx p)) in
      let ended = loop (fuel start) in_multiline_comment multiline_step start in
      let r =
        loop-keeps P (fuel start) in_multiline_comment multiline_step multiline_step-keeps start
          q in
      let last = get_char (get_char ended) in
      both P (not (ended.cur_char == b'*')) (error_keeps "unexpected end of stream" ended r) (
        copy_keeps TokenType.comment (append 0 last)
          (append_keeps 0 last (moves (get_char ended) (moves ended r))))

  hex_escape-keeps : (lx : Lexer) → P lx → P (get_hex_escape lx)
  unfolding get_hex_escape
  hex_escape-keeps lx p =
      let first = get_char lx in
      let q = moves lx p in
      let two = append (digit_value (first.cur_char) * 16 + digit_value (first.next_char)) first in
      let one = append (digit_value (first.cur_char)) first in
      both P (is_hexdigit (first.cur_char))
        (both P (is_hexdigit (first.next_char))
          (moves (get_char two) (moves two (Keeps.buffer_keeps P moves edits first (two.buffer) q)))
          (moves one (Keeps.buffer_keeps P moves edits first (one.buffer) q)))
        (error_keeps "\\x used with no following hex digits" first q)

  octal_digits-keeps : (n value : ℕ) (lx : Lexer) → P lx → P ((get_octal_digits n value lx).1)
  unfolding get_octal_digits
  octal_digits-keeps zero value lx p = p
  octal_digits-keeps (suc n) value lx p =
      let Q : ℕ × Lexer → Type 0 = λ s. P (s.1) in
      both Q (is_octdigit (lx.cur_char))
        (octal_digits-keeps n (value * 8 + digit_value (lx.cur_char)) (get_char lx) (moves lx p)) p

  octal_escape-keeps : (lx : Lexer) → P lx → P (get_octal_escape lx)
  unfolding get_octal_escape
  octal_escape-keeps lx p =
      let digits = get_octal_digits 3 0 lx in
      let q = octal_digits-keeps 3 0 lx p in
      both P (is_octdigit (lx.cur_char))
        (both P (ltb 255 (digits.0)) (error_keeps "octal escape sequence out of range" (digits.1) q)
          (append_keeps (digits.0) (digits.1) q))
        (error_keeps "unknown escape sequence" lx p)

  pub get_escape-keeps : (lx : Lexer) → P lx → P (get_escape lx)
  unfolding get_escape
  get_escape-keeps lx p =
      let c = simple_escape (lx.cur_char) in
      both P (not (c == 0)) (moves (append c lx) (append_keeps c lx p))
        (both P (lx.cur_char == b'x') (hex_escape-keeps lx p) (octal_escape-keeps lx p))

  string_step-keeps : (lx : Lexer) → P lx → P (string_step lx)
  unfolding string_step
  string_step-keeps lx p =
      both P (lx.cur_char == 92) (get_escape-keeps (get_char lx) (moves lx p)) (
        both P (lx.cur_char == 0) (error_keeps "unexpected end of stream" lx p)
          (Keeps.keep-keeps P moves edits lx p))

  pub get_single_string-keeps : (quote : Char) (lx : Lexer) → P lx → P (get_single_string quote lx)
  unfolding get_single_string
  get_single_string-keeps quote lx p =
      let start = set_type TokenType.string_const (get_char lx) in
      let q =
        Keeps.set_type-keeps P moves edits TokenType.string_const (get_char lx) (moves lx p) in
      let ended = loop (fuel start) (in_string quote) string_step start in
      let r = loop-keeps P (fuel start) (in_string quote) string_step string_step-keeps start q in
      both P (is_error (ended.token.type)) r (
        both P (is_newline (ended.cur_char)) (error_keeps "missing terminating character" ended r)
          (moves ended r))

  abbrev OfStrings : Bool × Lexer → Type 0
  OfStrings s = P (s.1)

  adjacent_step-keeps :
      (quote : Char) (s : Bool × Lexer) → OfStrings s → OfStrings (adjacent_step quote s)
  unfolding adjacent_step
  adjacent_step-keeps quote s p =
      let read = get_single_string quote (s.1) in
      let q = get_single_string-keeps quote (s.1) p in
      both OfStrings (is_error (read.token.type)) q (Keeps.skip_ws-keeps P moves edits read q)

  adjacent_keeps : (quote : Char) (lx : Lexer) → P lx → OfStrings (get_adjacent quote lx)
  unfolding get_adjacent
  adjacent_keeps quote lx p =
      loop-keeps OfStrings (fuel lx) (λ s. not (s.0) && s.1.cur_char == quote) (adjacent_step quote)
        (adjacent_step-keeps quote) (false, lx) p

  get_string-keeps : (quote : Char) (lx : Lexer) → P lx → P (get_string quote lx)
  unfolding get_string
  get_string-keeps quote lx p =
      let read = get_adjacent quote (reset lx) in
      let q = adjacent_keeps quote (reset lx) (Keeps.buffer_keeps P moves edits lx [] p) in
      let ended = append 0 (read.1) in
      let r = append_keeps 0 (read.1) q in
      both P (read.0) q (
        both P (quote == b'"') (copy_keeps TokenType.string_const ended r) (
          both P (length (ended.buffer) == 1) (error_keeps "empty character constant" ended r) (
            both P (ltb 2 (length (ended.buffer)))
              (error_keeps "multi-character character constant" ended r)
              (Keeps.set_value-keeps P moves edits
                (TokenValue.int (char_value (get_or (ended.buffer) 0 0)))
                (set_type TokenType.int_const ended)
                (Keeps.set_type-keeps P moves edits TokenType.int_const ended r)))))

  punctuator_keeps : (lx : Lexer) → P lx → P (punctuator lx)
  unfolding punctuator
  punctuator_keeps lx p =
      let found = get_punctuator_type lx in
      let typed = set_type (found.0) (found.1) in
      let q =
        Keeps.set_type-keeps P moves edits (found.0) (found.1)
          (get_punctuator_type-keeps P moves lx p) in
      both P (is_error (found.0)) (error_keeps "unexpected character" typed q) q

  pub scan_token-keeps : (lx : Lexer) → P lx → P (scan_token lx)
  unfolding scan_token
  scan_token-keeps lx p =
      both P (is_digit (lx.cur_char)) (Keeps.get_scalar-keeps P moves edits lx p) (
        both P (is_ident_start (lx.cur_char)) (Keeps.get_ident-keeps P moves edits lx p) (
          both P (lx.cur_char == b'"') (get_string-keeps b'"' lx p) (
            both P (lx.cur_char == 39) (get_string-keeps 39 lx p) (
              both P (lx.cur_char == b'.' && is_digit (lx.next_char))
                (Keeps.get_float_part-keeps P moves edits (reset lx)
                  (Keeps.buffer_keeps P moves edits lx [] p))
                (both P (lx.cur_char == 0) (Keeps.set_type-keeps P moves edits TokenType.eos lx p) (
                  both P (lx.cur_char == b'/' && lx.next_char == b'/') (line_comment-keeps lx p) (
                    both P (lx.cur_char == b'/' && lx.next_char == b'*')
                      (multiline_comment-keeps lx p) (punctuator_keeps lx p))))))))
