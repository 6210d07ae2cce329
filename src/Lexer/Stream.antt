-- ===== src/Lexer/Stream.antt =====
-- src/lexer.c: the stream with its buffer of 4096 bytes and its two characters of lookahead.
-- `buffer` and `text_buffer` stand for the contents of the buffers of src/buffer.c.
use jacc.Common.{
  ℕ, ◌+◌, ◌-◌, [], ◌∷◌, ◌++◌, Bytes, ltb, ◌==◌, if◌then◌else◌, length, take, drop, get_or, add_int,
  int_mod,
}
use jacc.Lexer.Chars.{Char}
use jacc.Lexer.Tokens.{Token}

-- `token` is the token that the pointer `token` of the operations points at. `file` is what `fread` has not read yet; `stream_buffer` holds `stream_buffer_size` bytes.
pub record Lexer : Type 0 where
  pub file : Bytes
  pub stream_buffer : Bytes
  pub stream_buffer_pos : ℕ
  pub cur_char : Char
  pub next_char : Char
  pub line : ℕ
  pub column : ℕ
  pub buffer : Bytes
  pub text_buffer : Bytes
  pub token : Token

abbrev pub chunk_size : ℕ
chunk_size = 4096

-- `fread` reads as much as fits, and less only where the file ends.
unfoldable pub read_stream : Lexer → Lexer
read_stream lx = record lx {
  file = drop chunk_size lx.file;
  stream_buffer = take chunk_size lx.file;
  stream_buffer_pos = 0;
}

-- The part of `get_char` that finds the new `next_char`.
unfoldable pub advance : Lexer → Lexer
unfolding read_stream
advance lx =
    if ltb lx.stream_buffer_pos (length lx.stream_buffer)
    then (let read = record lx {
      next_char = get_or lx.stream_buffer lx.stream_buffer_pos 0;
      stream_buffer_pos = lx.stream_buffer_pos + 1;
    } in
        if read.stream_buffer_pos == length read.stream_buffer then read_stream read else read)
    else record lx { next_char = 0 }

unfoldable pub get_char : Lexer → Lexer
unfolding advance
get_char lx = advance (record lx {
  cur_char = lx.next_char;
  text_buffer = lx.text_buffer ++ lx.next_char ∷ [];
  column = add_int (lx.column) 1;
})

-- The globals `cur_char` and `next_char` are zero at the start, and `column` is -1.
unfoldable pub lexer_init : Bytes → Token → Lexer
unfolding get_char
lexer_init file token = get_char (
    get_char (
      read_stream (record {
        file = file;
        stream_buffer = [];
        stream_buffer_pos = 0;
        cur_char = 0;
        next_char = 0;
        line = 1;
        column = int_mod - 1;
        buffer = [];
        text_buffer = [];
        token = token;
      })))

-- `buffer_append(buffer, c)` and `buffer_reset(buffer)`
abbrev pub append : Char → Lexer → Lexer
append c lx = record lx { buffer = lx.buffer ++ c ∷ [] }

abbrev pub reset : Lexer → Lexer
reset lx = record lx { buffer = [] }

-- `buffer_append(buffer, cur_char)`
abbrev pub append_cur : Lexer → Lexer
append_cur lx = append lx.cur_char lx
