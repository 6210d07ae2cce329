-- ===== src/Lexer.antt =====
-- src/lexer.c, src/lexer.h, src/tokens.def: the lexer.
pub mod Chars
pub mod Tokens
pub mod Stream
pub mod Source
pub mod Loops
pub mod Numbers
pub mod Punctuators
pub mod Texts
pub mod Next
pub mod Keeps
pub mod Text
pub mod Tests
pub mod Digits
pub mod Ends
pub mod KeepsPunctuators
pub mod KeepsScan
