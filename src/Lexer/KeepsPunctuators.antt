-- ===== src/Lexer/KeepsPunctuators.antt =====
-- src/lexer.c: the predicates of Lexer/Keeps.antt through the punctuators.
use jacc.Common.{◌==◌}
use jacc.Lexer.Tokens.{TokenType}
use jacc.Lexer.Stream.{Lexer, get_char}
use jacc.Lexer.Punctuators.{
  get_1way_punctuator, get_2way_punctuator, get_3way_punctuator, get_long_punctuator,
  get_punctuator_type,
}
use jacc.Lexer.Keeps.{both}

module _ (P : Lexer → Type 0) (moves : (lx : Lexer) → P lx → P (get_char lx)) where
  abbrev OfPunctuator : TokenType × Lexer → Type 0
  OfPunctuator s = P (s.1)

  one_way-keeps : (t : TokenType) (lx : Lexer) → P lx → OfPunctuator (get_1way_punctuator t lx)
  unfolding get_1way_punctuator
  one_way-keeps t lx p = moves lx p

  two_way-keeps : (t u : TokenType) (lx : Lexer) → P lx → OfPunctuator (get_2way_punctuator t u lx)
  unfolding get_2way_punctuator
  two_way-keeps t u lx p =
      both OfPunctuator (lx.next_char == b'=') (one_way-keeps u (get_char lx) (moves lx p))
        (one_way-keeps t lx p)

  three_way-keeps :
      (t u v : TokenType) (lx : Lexer) → P lx → OfPunctuator (get_3way_punctuator t u v lx)
  unfolding get_3way_punctuator
  three_way-keeps t u v lx p =
      both OfPunctuator (lx.next_char == lx.cur_char) (one_way-keeps v (get_char lx) (moves lx p))
        (two_way-keeps t u lx p)

  long_keeps : (lx : Lexer) → P lx → OfPunctuator (get_long_punctuator lx)
  unfolding get_long_punctuator
  long_keeps lx p =
      let q = moves lx p in
      both OfPunctuator (lx.cur_char == b':')
        (both OfPunctuator (lx.next_char == b'>') (one_way-keeps TokenType.rbracket (get_char lx) q)
          (one_way-keeps TokenType.colon lx p))
        (both OfPunctuator (lx.cur_char == b'%')
          (both OfPunctuator (lx.next_char == b'>') (one_way-keeps TokenType.rbrace (get_char lx) q)
            (two_way-keeps TokenType.mod_op TokenType.mod_assign lx p))
          (both OfPunctuator (lx.cur_char == b'<')
            (both OfPunctuator (lx.next_char == b'<')
              (two_way-keeps TokenType.lshift_op TokenType.lshift_assign (get_char lx) q)
              (both OfPunctuator (lx.next_char == b':')
                (one_way-keeps TokenType.lbracket (get_char lx) q)
                (both OfPunctuator (lx.next_char == b'%')
                  (one_way-keeps TokenType.lbrace (get_char lx) q)
                  (two_way-keeps TokenType.lt_op TokenType.le_op lx p))))
            (both OfPunctuator (lx.cur_char == b'>')
              (both OfPunctuator (lx.next_char == b'>')
                (two_way-keeps TokenType.rshift_op TokenType.rshift_assign (get_char lx) q)
                (two_way-keeps TokenType.gt_op TokenType.ge_op lx p))
              (both OfPunctuator (lx.cur_char == b'-')
                (both OfPunctuator (lx.next_char == b'>')
                  (one_way-keeps TokenType.ref_op (get_char lx) q)
                  (three_way-keeps TokenType.sub_op TokenType.sub_assign TokenType.dec_op lx p))
                (both OfPunctuator (lx.cur_char == b'.')
                  (both OfPunctuator (lx.next_char == b'.')
                    (both OfPunctuator ((get_char lx).next_char == b'.')
                      (one_way-keeps TokenType.ellipsis (get_char (get_char lx))
                        (moves (get_char lx) q))
                      q)
                    (one_way-keeps TokenType.dot lx p))
                  p)))))

  pub get_punctuator_type-keeps : (lx : Lexer) → P lx → OfPunctuator (get_punctuator_type lx)
  unfolding get_punctuator_type
  get_punctuator_type-keeps lx p =
      both OfPunctuator (lx.cur_char == b'(') (one_way-keeps TokenType.lparen lx p) (
        both OfPunctuator (lx.cur_char == b')') (one_way-keeps TokenType.rparen lx p) (
          both OfPunctuator (lx.cur_char == b'[') (one_way-keeps TokenType.lbracket lx p) (
            both OfPunctuator (lx.cur_char == b']') (one_way-keeps TokenType.rbracket lx p) (
              both OfPunctuator (lx.cur_char == b'{') (one_way-keeps TokenType.lbrace lx p) (
                both OfPunctuator (lx.cur_char == b'}') (one_way-keeps TokenType.rbrace lx p) (
                  both OfPunctuator (lx.cur_char == b',') (one_way-keeps TokenType.comma lx p) (
                    both OfPunctuator (lx.cur_char == b'~') (one_way-keeps TokenType.tilde lx p) (
                      both OfPunctuator (lx.cur_char == b'?')
                        (one_way-keeps TokenType.question lx p)
                        (both OfPunctuator (lx.cur_char == b';')
                          (one_way-keeps TokenType.semicolon lx p)
                          (both OfPunctuator (lx.cur_char == b'/')
                            (two_way-keeps TokenType.div_op TokenType.div_assign lx p)
                            (both OfPunctuator (lx.cur_char == b'*')
                              (two_way-keeps TokenType.star TokenType.mul_assign lx p)
                              (both OfPunctuator (lx.cur_char == b'!')
                                (two_way-keeps TokenType.neg_op TokenType.not_equal_op lx p)
                                (both OfPunctuator (lx.cur_char == b'=')
                                  (two_way-keeps TokenType.assign TokenType.equal_op lx p)
                                  (both OfPunctuator (lx.cur_char == b'^')
                                    (two_way-keeps TokenType.bit_xor_op TokenType.bit_xor_assign lx
                                      p)
                                    (both OfPunctuator (lx.cur_char == b'+')
                                      (three_way-keeps TokenType.add_op TokenType.add_assign
                                        TokenType.inc_op lx p)
                                      (both OfPunctuator (lx.cur_char == b'|')
                                        (three_way-keeps TokenType.bit_or_op TokenType.bit_or_assign
                                          TokenType.or_op lx p)
                                        (both OfPunctuator (lx.cur_char == b'&')
                                          (three_way-keeps TokenType.amp TokenType.bit_and_assign
                                            TokenType.and_op lx p)
                                          (long_keeps lx p))))))))))))))))))
