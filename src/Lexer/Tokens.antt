-- ===== src/Lexer/Tokens.antt =====
-- src/lexer.h with tokens.def: the types of tokens, tokens, and the table of keywords.
use Prim.Native.String.{String}
use jacc.Common.{ℕ, List, [], ◌∷◌, Option, Bytes, Bool, true, false, if◌then◌else◌, bytes_eq}

pub data TokenType : Type 0 where
  string_const int_const float_const ident comment break_keyword case_keyword : TokenType
  char_keyword const_keyword continue_keyword default_keyword do_keyword : TokenType
  double_keyword else_keyword enum_keyword extern_keyword float_keyword for_keyword : TokenType
  goto_keyword if_keyword int_keyword register_keyword return_keyword signed_keyword : TokenType
  sizeof_keyword static_keyword struct_keyword switch_keyword typedef_keyword : TokenType
  union_keyword unsigned_keyword void_keyword while_keyword lbracket rbracket lbrace : TokenType
  rbrace lparen rparen dot comma amp tilde question colon semicolon ellipsis star : TokenType
  ref_op inc_op dec_op add_op sub_op div_op mod_op neg_op lshift_op rshift_op lt_op : TokenType
  le_op gt_op ge_op equal_op not_equal_op bit_xor_op bit_or_op and_op or_op assign : TokenType
  mul_assign div_assign mod_assign add_assign sub_assign lshift_assign rshift_assign : TokenType
  bit_or_assign bit_and_assign bit_xor_assign eos error : TokenType

-- `type == TOK_ERROR`
unfoldable pub is_error : TokenType → Bool
is_error TokenType.error = true
is_error _ = false

unfoldable pub is_eos : TokenType → Bool
is_eos TokenType.eos = true
is_eos _ = false

unfoldable pub is_ident_type : TokenType → Bool
is_ident_type TokenType.ident = true
is_ident_type _ = false

-- The union `value`. `float` holds the text that `sscanf` reads with "%lf"; `str`
-- and `float` hold the terminating zero, too.
pub data TokenValue : Type 0 where
  unset : TokenValue
  int : ℕ → TokenValue
  float : Bytes → TokenValue
  str : Bytes → TokenValue

-- `text` is NULL for TOK_EOS and TOK_ERROR. `log` lists the messages that were logged for the token.
pub record Token : Type 0 where
  pub type : TokenType
  pub line : ℕ
  pub column : ℕ
  pub text : Option Bytes
  pub value : TokenValue
  pub log : List String

-- `keywords`, with the type that `i + KEYWORDS_START` is.
abbrev pub keywords : List (Bytes × TokenType)
keywords =
    (b'b' ∷ b'r' ∷ b'e' ∷ b'a' ∷ b'k' ∷ [], TokenType.break_keyword)
    ∷ (b'c' ∷ b'a' ∷ b's' ∷ b'e' ∷ [], TokenType.case_keyword)
    ∷ (b'c' ∷ b'h' ∷ b'a' ∷ b'r' ∷ [], TokenType.char_keyword)
    ∷ (b'c' ∷ b'o' ∷ b'n' ∷ b's' ∷ b't' ∷ [], TokenType.const_keyword)
    ∷ (b'c' ∷ b'o' ∷ b'n' ∷ b't' ∷ b'i' ∷ b'n' ∷ b'u' ∷ b'e' ∷ [], TokenType.continue_keyword)
    ∷ (b'd' ∷ b'e' ∷ b'f' ∷ b'a' ∷ b'u' ∷ b'l' ∷ b't' ∷ [], TokenType.default_keyword)
    ∷ (b'd' ∷ b'o' ∷ [], TokenType.do_keyword)
    ∷ (b'd' ∷ b'o' ∷ b'u' ∷ b'b' ∷ b'l' ∷ b'e' ∷ [], TokenType.double_keyword)
    ∷ (b'e' ∷ b'l' ∷ b's' ∷ b'e' ∷ [], TokenType.else_keyword)
    ∷ (b'e' ∷ b'n' ∷ b'u' ∷ b'm' ∷ [], TokenType.enum_keyword)
    ∷ (b'e' ∷ b'x' ∷ b't' ∷ b'e' ∷ b'r' ∷ b'n' ∷ [], TokenType.extern_keyword)
    ∷ (b'f' ∷ b'l' ∷ b'o' ∷ b'a' ∷ b't' ∷ [], TokenType.float_keyword)
    ∷ (b'f' ∷ b'o' ∷ b'r' ∷ [], TokenType.for_keyword)
    ∷ (b'g' ∷ b'o' ∷ b't' ∷ b'o' ∷ [], TokenType.goto_keyword)
    ∷ (b'i' ∷ b'f' ∷ [], TokenType.if_keyword)
    ∷ (b'i' ∷ b'n' ∷ b't' ∷ [], TokenType.int_keyword)
    ∷ (b'r' ∷ b'e' ∷ b'g' ∷ b'i' ∷ b's' ∷ b't' ∷ b'e' ∷ b'r' ∷ [], TokenType.register_keyword)
    ∷ (b'r' ∷ b'e' ∷ b't' ∷ b'u' ∷ b'r' ∷ b'n' ∷ [], TokenType.return_keyword)
    ∷ (b's' ∷ b'i' ∷ b'g' ∷ b'n' ∷ b'e' ∷ b'd' ∷ [], TokenType.signed_keyword)
    ∷ (b's' ∷ b'i' ∷ b'z' ∷ b'e' ∷ b'o' ∷ b'f' ∷ [], TokenType.sizeof_keyword)
    ∷ (b's' ∷ b't' ∷ b'a' ∷ b't' ∷ b'i' ∷ b'c' ∷ [], TokenType.static_keyword)
    ∷ (b's' ∷ b't' ∷ b'r' ∷ b'u' ∷ b'c' ∷ b't' ∷ [], TokenType.struct_keyword)
    ∷ (b's' ∷ b'w' ∷ b'i' ∷ b't' ∷ b'c' ∷ b'h' ∷ [], TokenType.switch_keyword)
    ∷ (b't' ∷ b'y' ∷ b'p' ∷ b'e' ∷ b'd' ∷ b'e' ∷ b'f' ∷ [], TokenType.typedef_keyword)
    ∷ (b'u' ∷ b'n' ∷ b'i' ∷ b'o' ∷ b'n' ∷ [], TokenType.union_keyword)
    ∷ (b'u' ∷ b'n' ∷ b's' ∷ b'i' ∷ b'g' ∷ b'n' ∷ b'e' ∷ b'd' ∷ [], TokenType.unsigned_keyword)
    ∷ (b'v' ∷ b'o' ∷ b'i' ∷ b'd' ∷ [], TokenType.void_keyword)
    ∷ (b'w' ∷ b'h' ∷ b'i' ∷ b'l' ∷ b'e' ∷ [], TokenType.while_keyword)
    ∷ []

-- The loop of `get_ident_type`.
unfoldable pub find_keyword : Bytes → List (Bytes × TokenType) → TokenType
find_keyword name [] = TokenType.ident
find_keyword name ((word, type) ∷ rest) =
    if bytes_eq name word then type else find_keyword name rest

unfoldable pub get_ident_type : Bytes → TokenType
unfolding find_keyword
get_ident_type name = find_keyword name keywords
