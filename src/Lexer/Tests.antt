-- ===== src/Lexer/Tests.antt =====
-- src/lexer.c: the theorems at a file of one declaration.
use jacc.Common.{◌%◌, int_mod, bytes_eq, some, refl, ◌≡◌, none, [], ◌∷◌, Bytes, false}
use jacc.Lexer.Chars.{is_whitespace}
use jacc.Lexer.Tokens.{TokenType, TokenValue, Token}
use jacc.Lexer.Stream.{reset, Lexer, lexer_init, get_char}
use jacc.Lexer.Loops.{loop, fuel}
use jacc.Lexer.Numbers.{skip_ws, get_digits}
use jacc.Lexer.Texts.{in_string, string_step, in_multiline_comment, multiline_step}
use jacc.Lexer.Next.{lexer_next_token}
use jacc.Lexer.Source.{IsAt, get_char-IsAt, lexer_init-IsAt}
use jacc.Lexer.Text.{IsNext, lexer_next_token-text}
use jacc.Lexer.Digits.{number, get_digits-number}
use jacc.Lexer.Ends.{skip_ws_ends, string_ends, multiline_comment_ends}

-- `int x1;`
abbrev declaration : Bytes
declaration = b'i' ∷ b'n' ∷ b't' ∷ b' ' ∷ b'x' ∷ b'1' ∷ b';' ∷ []

abbrev blank_token : Token
blank_token = record {
  type = TokenType.error;
  line = 0;
  column = 0;
  text = none;
  value = TokenValue.unset;
  log = [];
}

abbrev start : Lexer
start = lexer_init declaration blank_token

start-IsAt : IsAt declaration 0 start
start-IsAt = lexer_init-IsAt declaration blank_token

get_char-IsAt_example : IsAt declaration 1 (get_char start)
get_char-IsAt_example = get_char-IsAt declaration 0 start start-IsAt

lexer_next_token-text_example : IsNext declaration 0 (lexer_next_token start)
lexer_next_token-text_example = lexer_next_token-text declaration 0 start start-IsAt

skip_ws_ends_example : is_whitespace ((skip_ws start).cur_char) ≡ false
skip_ws_ends_example = skip_ws_ends start

string_ends_example : in_string b'"' (loop (fuel start) (in_string b'"') string_step start) ≡ false
string_ends_example = string_ends b'"' start

multiline_comment_ends_example :
    in_multiline_comment (loop (fuel start) in_multiline_comment multiline_step start) ≡ false
multiline_comment_ends_example = multiline_comment_ends start

-- The first token of the declaration is the keyword.
first_token :
    ((lexer_next_token start).1.token.type ≡ TokenType.int_keyword)
    × ((lexer_next_token start).1.token.text ≡ some (b'i' ∷ b'n' ∷ b't' ∷ 0 ∷ []))
unfolding lexer_next_token lexer_init bytes_eq
first_token = (refl, refl)

-- The second one is the identifier.
second_token :
    (lexer_next_token ((lexer_next_token start).1)).1.token.value
    ≡ TokenValue.str (b'x' ∷ b'1' ∷ 0 ∷ [])
unfolding lexer_next_token lexer_init bytes_eq
second_token = refl

get_digits-number_example :
    (get_digits 10 (reset start)).0 ≡ number 10 ((get_digits 10 (reset start)).1.buffer) % int_mod
get_digits-number_example = get_digits-number 10 start
