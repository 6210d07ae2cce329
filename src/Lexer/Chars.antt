-- ===== src/Lexer/Chars.antt =====
-- src/lexer.c: the classes of characters. A byte from 128 on is a negative `char`; it lies in none of
-- the ranges, as here.
use jacc.Common.{
  ℕ, ◌+◌, ◌-◌, Bool, true, false, ◌&&◌, ◌||◌, ◌==◌, leb, if◌then◌else◌, ◌≡◌, arith, ◌<◌, ◌≢◌,
}

abbrev pub Char : Type 0
Char = ℕ

unfoldable pub is_digit : Char → Bool
is_digit chr = leb b'0' chr && leb chr b'9'

unfoldable pub is_octdigit : Char → Bool
is_octdigit chr = leb b'0' chr && leb chr b'7'

unfoldable pub is_hexdigit : Char → Bool
unfolding is_digit
is_hexdigit chr = is_digit chr || ((leb b'a' chr && leb chr b'f') || (leb b'A' chr && leb chr b'F'))

unfoldable pub is_digit_ex : Char → ℕ → Bool
unfolding is_digit is_octdigit is_hexdigit
is_digit_ex chr base =
    if base == 10
    then is_digit chr
    else if base == 8
    then is_octdigit chr
    else if base == 16
    then is_hexdigit chr
    else false

unfoldable pub is_alpha : Char → Bool
is_alpha chr = (leb b'a' chr && leb chr b'z') || (leb b'A' chr && leb chr b'Z')

unfoldable pub is_ident_start : Char → Bool
unfolding is_alpha
is_ident_start chr = is_alpha chr || chr == b'_'

unfoldable pub is_ident : Char → Bool
unfolding is_ident_start is_digit
is_ident chr = is_ident_start chr || is_digit chr

-- '\n' is 10 and '\r' is 13.
unfoldable pub is_newline : Char → Bool
is_newline chr = chr == 10 || chr == 13

-- '\t' is 9 and '\v' is 11; '\f' is no whitespace here.
unfoldable pub is_whitespace : Char → Bool
unfolding is_newline
is_whitespace chr = is_newline chr || (chr == 9 || (chr == 11 || chr == b' '))

unfoldable pub digit_value : Char → ℕ
digit_value c =
    if leb b'a' c && leb c b'f'
    then c - b'a' + 10
    else if leb b'A' c && leb c b'F'
    then c - b'A' + 10
    else c - b'0'

-- A digit of a base has a value below it.
pub digit_value-lt : (c base : ℕ) → is_digit_ex c base ≡ true → digit_value c < base
unfolding is_digit_ex digit_value
digit_value-lt c base h = ground arith

-- The terminating zero is in no class.
pub zero_in_no_class :
    (c : Char) → (is_whitespace c || (is_ident c || is_hexdigit c)) ≡ true → c ≢ 0
unfolding is_whitespace is_ident is_hexdigit
zero_in_no_class c h = ground arith
