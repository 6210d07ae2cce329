-- ===== src/Lexer/Text.antt =====
-- src/lexer.c: the text of a token is the piece of the file that was read for it.
use jacc.Common.{
  ℕ, zero, suc, ◌+◌, ◌-◌, [], ◌∷◌, ◌++◌, Bytes, Bool, ltb, ◌==◌, if◌then◌else◌, ◌||◌, Option, none,
  some, length, get_or, set, length-append, ◌≡◌, refl, ap, ◌∙◌, sym, arith,
}
use jacc.Lexer.Tokens.{Token, is_error, is_eos}
use jacc.Lexer.Stream.{Lexer, read_stream, advance, get_char}
use jacc.Lexer.Numbers.{skip_ws}
use jacc.Lexer.Next.{get_token_text, scan_token, start_token, end_token, lexer_next_token}
use jacc.Lexer.Source.{IsAt, unread, IsReady, get_char-IsAt, get_char-shifted, shifted}
use jacc.Lexer.Keeps.{both, skip_ws-keeps}
use jacc.Lexer.KeepsScan.{scan_token-keeps}

-- The `n` bytes of the file from the byte `m` on, with zeros behind its end.
unfoldable pub window : Bytes → ℕ → ℕ → Bytes
window file m zero = []
window file m (suc n) = window file m n ++ get_or file (m + n) 0 ∷ []

-- The lexer is `n` bytes behind the byte `m`, and its text buffer holds these and the byte it is at.
record Covers (file : Bytes) (m : ℕ) (lx : Lexer) : Type 0 where
  size : ℕ
  at : IsAt file (m + size) lx
  text : lx.text_buffer ≡ window file m (suc size)

edit-IsAt :
    (file : Bytes) (n : ℕ) (lx : Lexer) (token : Token) (line column : ℕ) (buffer text : Bytes)
    → IsAt file n lx
    → IsAt file n (record lx {
      token = token;
      line = line;
      column = column;
      buffer = buffer;
      text_buffer = text;
    })
unfolding unread IsReady
edit-IsAt file n lx token line column buffer text at = record {
  cur = at.cur;
  next = at.next;
  rest = at.rest;
  ready = at.ready;
}

advance-text : (lx : Lexer) → (advance lx).text_buffer ≡ lx.text_buffer
unfolding advance read_stream
advance-text lx =
    let P : Lexer → Type 0 = λ l. l.text_buffer ≡ lx.text_buffer in
    both P (ltb lx.stream_buffer_pos (length lx.stream_buffer))
      (both P (lx.stream_buffer_pos + 1 == length lx.stream_buffer) refl refl) refl

get_char-text : (lx : Lexer) → (get_char lx).text_buffer ≡ lx.text_buffer ++ lx.next_char ∷ []
get_char-text lx = rw (get_char-shifted lx) (advance-text (shifted lx))

get_char-Covers :
    (file : Bytes) (m : ℕ) (lx : Lexer) → Covers file m lx → Covers file m (get_char lx)
unfolding window
get_char-Covers file m lx c =
    let e : m + c.size + 1 ≡ m + suc c.size = omega arith in
    record {
      size = suc c.size;
      at = rw (sym e) (get_char-IsAt file (m + c.size) lx c.at);
      text =
          get_char-text lx
          ∙ ap (λ l. l ++ lx.next_char ∷ []) c.text
          ∙ ap (λ b. window file m (suc c.size) ++ b ∷ [])
              (c.at.next ∙ ap (λ k. get_or file k 0) e);
    }

edit-Covers :
    (file : Bytes) (m : ℕ) (lx : Lexer) (token : Token) (line column : ℕ) (buffer : Bytes)
    → Covers file m lx
    → Covers file m (record lx { token = token; line = line; column = column; buffer = buffer })
edit-Covers file m lx token line column buffer c = record {
  size = c.size;
  at = edit-IsAt file (m + c.size) lx token line column buffer lx.text_buffer c.at;
  text = c.text;
}

-- Somewhere behind the byte `n`.
record Behind (file : Bytes) (n : ℕ) (lx : Lexer) : Type 0 where
  skipped : ℕ
  at : IsAt file (n + skipped) lx

skip_ws-Behind : (file : Bytes) (n : ℕ) (lx : Lexer) → IsAt file n lx → Behind file n (skip_ws lx)
skip_ws-Behind file n lx at =
    skip_ws-keeps (Behind file n)
      (λ l b.
        let e : n + b.skipped + 1 ≡ n + suc b.skipped = omega arith in
        record {
          skipped = suc b.skipped;
          at = rw (sym e) (get_char-IsAt file (n + b.skipped) l b.at);
        })
      (λ l token line column buffer b. record {
        skipped = b.skipped;
        at = edit-IsAt file (n + b.skipped) l token line column buffer l.text_buffer b.at;
      })
      lx (record { skipped = 0; at = (let e : n + 0 ≡ n = omega arith in rw e at) })

-- After white space, the token's text starts with the byte that the lexer is at.
start_token-Covers :
    (file : Bytes) (n : ℕ) (lx : Lexer)
    → IsAt file n lx
    → (skipped : ℕ) × Covers file (n + skipped) (start_token lx)
unfolding start_token window
start_token-Covers file n lx at =
    let b = skip_ws-Behind file n lx at in
    let s = skip_ws lx in
    let e : n + b.skipped + 0 ≡ n + b.skipped = omega arith in
    (
      b.skipped,
      record {
        size = 0;
        at = rw e (
            edit-IsAt file (n + b.skipped) s (record (s.token) { line = s.line; column = s.column })
              s.line s.column s.buffer (s.cur_char ∷ []) b.at);
        text = rw e (ap (λ c. c ∷ []) b.at.cur);
      },
    )

set-end : (xs : Bytes) (n x v : ℕ) → n ≡ length xs → set (xs ++ x ∷ []) n v ≡ xs ++ v ∷ []
set-end [] zero x v h = refl
set-end [] (suc n) x v h = absurd (omega arith)
set-end (y ∷ xs) zero x v h = absurd (omega arith)
set-end (y ∷ xs) (suc n) x v h = ap (λ l. y ∷ l) (set-end xs n x v (omega arith))

-- The last byte of the text buffer is the one that the lexer is at.
token_text-Covers :
    (file : Bytes) (m : ℕ) (lx : Lexer) (c : Covers file m lx)
    → get_token_text lx ≡ window file m c.size ++ 0 ∷ []
unfolding get_token_text window
token_text-Covers file m lx c =
    let xs = window file m c.size in
    let x = get_or file (m + c.size) 0 in
    ap (λ t. set t (length t - 1) 0) c.text
    ∙ set-end xs (length (xs ++ x ∷ []) - 1) x 0 (omega (arith, length-append xs (x ∷ [])))

-- How `lexer_next_token` moves through the file.
pub record IsNext (file : Bytes) (n : ℕ) (after : Bool × Lexer) : Type 0 where
  pub skipped : ℕ
  pub size : ℕ
  pub at : IsAt file (n + skipped + size) (after.1)
  pub text :
      after.1.token.text
      ≡ (if after.0 then some (window file (n + skipped) size ++ 0 ∷ []) else none)

end_token-IsNext :
    (file : Bytes) (n skipped : ℕ) (lx : Lexer)
    → Covers file (n + skipped) lx
    → IsNext file n (end_token lx)
unfolding end_token
end_token-IsNext file n skipped lx c =
    let at : (text : Option Bytes)
        → IsAt file (n + skipped + c.size)
            (record lx { token = record (lx.token) { text = text } }) =
      λ text.
        edit-IsAt file (n + skipped + c.size) lx (record (lx.token) { text = text }) lx.line
          lx.column lx.buffer lx.text_buffer c.at in
    both (IsNext file n) (is_error (lx.token.type) || is_eos (lx.token.type))
      (record { skipped = skipped; size = c.size; at = at none; text = refl })
      (record {
        skipped = skipped;
        size = c.size;
        at = at (some (get_token_text lx));
        text = ap some (token_text-Covers file (n + skipped) lx c);
      })

-- From a lexer at the byte `n` of a file, `lexer_next_token` leaves it at a byte `n + skipped + size`.
-- Where its result is 1 the token's text is the `size` bytes of the file from the byte
-- `n + skipped` on, and a zero; where it is 0 the token has no text.
pub lexer_next_token-text :
    (file : Bytes) (n : ℕ) (lx : Lexer) → IsAt file n lx → IsNext file n (lexer_next_token lx)
unfolding lexer_next_token
lexer_next_token-text file n lx at =
    let start = start_token-Covers file n lx at in
    end_token-IsNext file n (start.0) (scan_token (start_token lx)) (
      scan_token-keeps (Covers file (n + start.0)) (get_char-Covers file (n + start.0))
        (edit-Covers file (n + start.0)) (start_token lx) (start.1))
