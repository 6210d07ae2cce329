-- ===== src/Lexer/Keeps.antt =====
-- src/lexer.c: a predicate that `get_char` keeps, and that does not look at the token, the position
-- or the buffer, is kept by every operation of the lexer.
use Prim.Native.String.{String}
use jacc.Common.{
  ℕ, zero, suc, Bool, true, false, not, ◌&&◌, ◌||◌, ltb, ◌==◌, if◌then◌else◌, [], Bytes, length,
  add_int,
}
use jacc.Lexer.Chars.{is_digit, is_digit_ex, is_alpha, is_ident, is_whitespace}
use jacc.Lexer.Tokens.{Token, TokenType, TokenValue, get_ident_type, is_ident_type}
use jacc.Lexer.Stream.{Lexer, get_char, append, append_cur, reset}
use jacc.Lexer.Loops.{loop, fuel}
use jacc.Lexer.Numbers.{
  set_type, set_value, lexer_error, skip_ws_step, skip_ws, keep, read_dec_number, get_fraction,
  get_exponent, get_float_part, get_base, digit_step, get_digits, end_scalar, get_scalar, get_ident,
}

-- A predicate holds of a conditional where it holds of both branches.
pub both {ℓ} :
    {S : Type ℓ} (P : S → Type 0) (b : Bool) {x y : S} → P x → P y → P (if b then x else y)
both P true p q = p
both P false p q = q

pub loop-keeps {ℓ} :
    {S : Type ℓ} (P : S → Type 0) (n : ℕ) (test : S → Bool) (step : S → S)
    → ((s : S) → P s → P (step s))
    → (s : S) → P s
    → P (loop n test step s)
unfolding loop
loop-keeps P zero test step keeps s p = p
loop-keeps P (suc n) test step keeps s p =
    both P (test s) (loop-keeps P n test step keeps (step s) (keeps s p)) p

module _ (P : Lexer → Type 0) (moves : (lx : Lexer) → P lx → P (get_char lx))
    (edits : (lx : Lexer) (token : Token) (line column : ℕ) (buffer : Bytes)
      → P lx
      → P (record lx { token = token; line = line; column = column; buffer = buffer })) where
  token_keeps : (lx : Lexer) (token : Token) → P lx → P (record lx { token = token })
  token_keeps lx token p = edits lx token lx.line lx.column lx.buffer p

  pub buffer_keeps : (lx : Lexer) (buffer : Bytes) → P lx → P (record lx { buffer = buffer })
  buffer_keeps lx buffer p = edits lx lx.token lx.line lx.column buffer p

  pub set_type-keeps : (type : TokenType) (lx : Lexer) → P lx → P (set_type type lx)
  unfolding set_type
  set_type-keeps type lx p = token_keeps lx (record (lx.token) { type = type }) p

  pub set_value-keeps : (value : TokenValue) (lx : Lexer) → P lx → P (set_value value lx)
  unfolding set_value
  set_value-keeps value lx p = token_keeps lx (record (lx.token) { value = value }) p

  pub error_keeps : (message : String) (lx : Lexer) → P lx → P (lexer_error message lx)
  unfolding lexer_error
  error_keeps message lx p = token_keeps lx ((lexer_error message lx).token) p

  pub keep-keeps : (lx : Lexer) → P lx → P (keep lx)
  unfolding keep
  keep-keeps lx p = moves (append_cur lx) (buffer_keeps lx ((append_cur lx).buffer) p)

  skip_ws_step-keeps : (lx : Lexer) → P lx → P (skip_ws_step lx)
  unfolding skip_ws_step
  skip_ws_step-keeps lx p =
      moves (if lx.cur_char == 10 then record lx { column = 0; line = add_int (lx.line) 1 } else lx)
        (both P (lx.cur_char == 10) (edits lx lx.token (add_int (lx.line) 1) 0 lx.buffer p) p)

  pub skip_ws-keeps : (lx : Lexer) → P lx → P (skip_ws lx)
  unfolding skip_ws
  skip_ws-keeps lx p =
      loop-keeps P (fuel lx) (λ l. is_whitespace (l.cur_char)) skip_ws_step skip_ws_step-keeps lx p

  read_dec_number-keeps :
      (error_msg : String) (lx : Lexer) → P lx → P (read_dec_number error_msg lx)
  unfolding read_dec_number
  read_dec_number-keeps error_msg lx p =
      both P (not (is_digit (lx.cur_char))) (error_keeps error_msg lx p)
        (loop-keeps P (fuel lx) (λ l. is_digit (l.cur_char)) keep keep-keeps lx p)

  get_fraction-keeps : (lx : Lexer) → P lx → P ((get_fraction lx).1)
  unfolding get_fraction
  get_fraction-keeps lx p =
      let Q : Bool × Lexer → Type 0 = λ s. P (s.1) in
      let dot = get_char (append b'.' lx) in
      let q = moves (append b'.' lx) (buffer_keeps lx ((append b'.' lx).buffer) p) in
      both Q (lx.cur_char == b'.')
        (both Q (is_digit (dot.cur_char) || length (dot.buffer) == 1)
          (read_dec_number-keeps "invalid float constant" dot q) q)
        p

  get_exponent-keeps : (lx : Lexer) → P lx → P ((get_exponent lx).1)
  unfolding get_exponent
  get_exponent-keeps lx p =
      let Q : Bool × Lexer → Type 0 = λ s. P (s.1) in
      let e = get_char (append b'e' lx) in
      let q = moves (append b'e' lx) (buffer_keeps lx ((append b'e' lx).buffer) p) in
      let sign = e.cur_char == b'+' || e.cur_char == b'-' in
      both Q (lx.cur_char == b'e' || lx.cur_char == b'E')
        (read_dec_number-keeps "invalid float constant" (if sign then keep e else e)
          (both P sign (keep-keeps e q) q))
        p

  pub get_float_part-keeps : (lx : Lexer) → P lx → P (get_float_part lx)
  unfolding get_float_part
  get_float_part-keeps lx p =
      let fraction = get_fraction lx in
      let exponent = get_exponent (fraction.1) in
      let q = get_fraction-keeps lx p in
      let r = get_exponent-keeps (fraction.1) q in
      let ended = append 0 (exponent.1) in
      both P (fraction.0) q (
        both P (exponent.0) r (
          set_value-keeps (TokenValue.float (ended.buffer)) (set_type TokenType.float_const ended) (
            set_type-keeps TokenType.float_const ended
              (buffer_keeps (exponent.1) (ended.buffer) r))))

  get_base-keeps : (lx : Lexer) → P lx → P ((get_base lx).1)
  unfolding get_base
  get_base-keeps lx p =
      let Q : ℕ × Lexer → Type 0 = λ s. P (s.1) in
      both Q (lx.cur_char == b'0')
        (both Q (lx.next_char == b'x' || lx.next_char == b'X') (moves (get_char lx) (moves lx p))
          (both Q (is_digit (lx.next_char)) (moves lx p) p))
        p

  get_digits-keeps : (base : ℕ) (lx : Lexer) → P lx → P ((get_digits base lx).1)
  unfolding get_digits digit_step
  get_digits-keeps base lx p =
      loop-keeps (λ s. P (s.1)) (fuel lx) (λ s. is_digit_ex (s.1.cur_char) base) (digit_step base)
        (λ s q. keep-keeps (s.1) q) (0, lx) p

  end_scalar-keeps : (base result : ℕ) (lx : Lexer) → P lx → P (end_scalar base result lx)
  unfolding end_scalar
  end_scalar-keeps base result lx p =
      let r = buffer_keeps lx [] p in
      let suffix = loop (fuel (reset lx)) (λ l. is_alpha (l.cur_char)) keep (reset lx) in
      let q =
        loop-keeps P (fuel (reset lx)) (λ l. is_alpha (l.cur_char)) keep keep-keeps (reset lx) r in
      both P (base == 8 && is_digit (lx.cur_char))
        (error_keeps "invalid digit in octal constant" lx p)
        (both P
          (base == 10 && (lx.cur_char == b'.' || (lx.cur_char == b'e' || lx.cur_char == b'E')))
          (get_float_part-keeps lx p)
          (both P (ltb 0 (length (suffix.buffer)))
            (error_keeps "unknown suffix on integer constant" suffix q)
            (set_value-keeps (TokenValue.int result) (set_type TokenType.int_const suffix)
              (set_type-keeps TokenType.int_const suffix q))))

  pub get_scalar-keeps : (lx : Lexer) → P lx → P (get_scalar lx)
  unfolding get_scalar
  get_scalar-keeps lx p =
      let prefix = get_base (reset lx) in
      let q = get_base-keeps (reset lx) (buffer_keeps lx [] p) in
      let digits = get_digits (prefix.0) (prefix.1) in
      both P (not (is_digit_ex (prefix.1.cur_char) (prefix.0)))
        (error_keeps "bad integer constant" (prefix.1) q)
        (end_scalar-keeps (prefix.0) (digits.0) (digits.1)
          (get_digits-keeps (prefix.0) (prefix.1) q))

  pub get_ident-keeps : (lx : Lexer) → P lx → P (get_ident lx)
  unfolding get_ident
  get_ident-keeps lx p =
      let first = keep (reset lx) in
      let q = keep-keeps (reset lx) (buffer_keeps lx [] p) in
      let read = loop (fuel first) (λ l. is_ident (l.cur_char)) keep first in
      let r = loop-keeps P (fuel first) (λ l. is_ident (l.cur_char)) keep keep-keeps first q in
      let type = get_ident_type (read.buffer) in
      let ended = set_type type (append 0 read) in
      let e = set_type-keeps type (append 0 read) (buffer_keeps read ((append 0 read).buffer) r) in
      both P (ltb 200 (length (read.buffer))) (error_keeps "ident is too long" read r)
        (both P (is_ident_type type) (set_value-keeps (TokenValue.str (ended.buffer)) ended e) e)
