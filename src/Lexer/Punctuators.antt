-- ===== src/Lexer/Punctuators.antt =====
-- src/lexer.c: the punctuators. An operation returns the type and the new state.
use jacc.Common.{◌==◌, if◌then◌else◌}
use jacc.Lexer.Tokens.{TokenType}
use jacc.Lexer.Stream.{Lexer, get_char}

unfoldable pub get_1way_punctuator : TokenType → Lexer → TokenType × Lexer
unfolding get_char
get_1way_punctuator type lx = (type, get_char lx)

unfoldable pub get_2way_punctuator : TokenType → TokenType → Lexer → TokenType × Lexer
unfolding get_char get_1way_punctuator
get_2way_punctuator t1 t2 lx =
    if lx.next_char == b'=' then get_1way_punctuator t2 (get_char lx) else get_1way_punctuator t1 lx

unfoldable pub get_3way_punctuator : TokenType → TokenType → TokenType → Lexer → TokenType × Lexer
unfolding get_char get_1way_punctuator get_2way_punctuator
get_3way_punctuator t1 t2 t3 lx =
    if lx.next_char == lx.cur_char
    then get_1way_punctuator t3 (get_char lx)
    else get_2way_punctuator t1 t2 lx

-- The cases of the switch whose branches look at `next_char` themselves.
unfoldable pub get_long_punctuator : Lexer → TokenType × Lexer
unfolding get_char get_1way_punctuator get_2way_punctuator get_3way_punctuator
get_long_punctuator lx =
    if lx.cur_char == b':'
    then if lx.next_char == b'>'
      then get_1way_punctuator TokenType.rbracket (get_char lx)
      else get_1way_punctuator TokenType.colon lx
    else if lx.cur_char == b'%'
    then if lx.next_char == b'>'
      then get_1way_punctuator TokenType.rbrace (get_char lx)
      else get_2way_punctuator TokenType.mod_op TokenType.mod_assign lx
    else if lx.cur_char == b'<'
    then if lx.next_char == b'<'
      then get_2way_punctuator TokenType.lshift_op TokenType.lshift_assign (get_char lx)
      else if lx.next_char == b':'
      then get_1way_punctuator TokenType.lbracket (get_char lx)
      else if lx.next_char == b'%'
      then get_1way_punctuator TokenType.lbrace (get_char lx)
      else get_2way_punctuator TokenType.lt_op TokenType.le_op lx
    else if lx.cur_char == b'>'
    then if lx.next_char == b'>'
      then get_2way_punctuator TokenType.rshift_op TokenType.rshift_assign (get_char lx)
      else get_2way_punctuator TokenType.gt_op TokenType.ge_op lx
    else if lx.cur_char == b'-'
    then if lx.next_char == b'>'
      then get_1way_punctuator TokenType.ref_op (get_char lx)
      else get_3way_punctuator TokenType.sub_op TokenType.sub_assign TokenType.dec_op lx
    else if lx.cur_char == b'.'
    then if lx.next_char == b'.'
      then (let second = get_char lx in
          if second.next_char == b'.'
          then get_1way_punctuator TokenType.ellipsis (get_char second)
          else (TokenType.dot, second))
      else get_1way_punctuator TokenType.dot lx
    else (TokenType.error, lx)

unfoldable pub get_punctuator_type : Lexer → TokenType × Lexer
unfolding get_1way_punctuator get_2way_punctuator get_3way_punctuator get_long_punctuator
get_punctuator_type lx =
    let c = lx.cur_char in
    if c == b'('
    then get_1way_punctuator TokenType.lparen lx
    else if c == b')'
    then get_1way_punctuator TokenType.rparen lx
    else if c == b'['
    then get_1way_punctuator TokenType.lbracket lx
    else if c == b']'
    then get_1way_punctuator TokenType.rbracket lx
    else if c == b'{'
    then get_1way_punctuator TokenType.lbrace lx
    else if c == b'}'
    then get_1way_punctuator TokenType.rbrace lx
    else if c == b','
    then get_1way_punctuator TokenType.comma lx
    else if c == b'~'
    then get_1way_punctuator TokenType.tilde lx
    else if c == b'?'
    then get_1way_punctuator TokenType.question lx
    else if c == b';'
    then get_1way_punctuator TokenType.semicolon lx
    else if c == b'/'
    then get_2way_punctuator TokenType.div_op TokenType.div_assign lx
    else if c == b'*'
    then get_2way_punctuator TokenType.star TokenType.mul_assign lx
    else if c == b'!'
    then get_2way_punctuator TokenType.neg_op TokenType.not_equal_op lx
    else if c == b'='
    then get_2way_punctuator TokenType.assign TokenType.equal_op lx
    else if c == b'^'
    then get_2way_punctuator TokenType.bit_xor_op TokenType.bit_xor_assign lx
    else if c == b'+'
    then get_3way_punctuator TokenType.add_op TokenType.add_assign TokenType.inc_op lx
    else if c == b'|'
    then get_3way_punctuator TokenType.bit_or_op TokenType.bit_or_assign TokenType.or_op lx
    else if c == b'&'
    then get_3way_punctuator TokenType.amp TokenType.bit_and_assign TokenType.and_op lx
    else get_long_punctuator lx
