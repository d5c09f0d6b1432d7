-- ===== src/Parse/Stream.antt =====
-- The input stream that src/common/parse.c reads, and the two scanners that only skip.
-- A `FILE` is the bytes not yet read and the end-of-file mark, which only a read past the last
-- byte sets. `char c = fgetc(fd)`, with a signed char, is a byte; 255 stands for EOF as well as
-- for the byte 0xff, which the code cannot tell apart.
use nvme_dem.Prelude.{ℕ, Bool, true, false, ◌||◌, not, List, [], ◌∷◌, ◌==◌, if◌then◌else◌}

pub record Stream : Type 0 where
  pub rest : List ℕ
  pub eof : Bool

abbrev pub end_char : ℕ
end_char = 255

abbrev pub comment : ℕ
comment = b'#'

abbrev pub equal : ℕ
equal = b'='

unfoldable pub is_whitespace : ℕ → Bool
is_whitespace c = c == 32 || c == 9 || c == 13

unfoldable pub is_quote : ℕ → Bool
is_quote c = c == 39 || c == 34

unfoldable pub is_eol : ℕ → Bool
is_eol c = c == 10 || c == end_char

-- `ungetc(c, fd)` clears the mark; `ungetc(EOF, fd)` fails and changes nothing.
unfoldable pub ungetc : ℕ → Stream → Stream
ungetc c s = if c == end_char then s else record { rest = c ∷ s.rest; eof = false }

-- The stream after a read that met no byte.
abbrev pub at_end : Stream
at_end = record { rest = []; eof = true }

abbrev pub past : List ℕ → Stream
past r = record { rest = r; eof = false }

-- The bytes after the line that `bytes` begins: the loop of `consume_line`.
unfoldable pub consume_line_from : List ℕ → Stream
unfolding is_eol
consume_line_from [] = at_end
consume_line_from (c ∷ r) = let s = consume_line_from r in if is_eol c then past r else s

-- The status is dropped by the only caller.
unfoldable pub consume_line : Stream → Stream
unfolding consume_line_from
consume_line s = if s.eof then s else consume_line_from s.rest

-- What a scanner leaves: `true` where the C function returns 1.
pub record Skipped : Type 0 where
  pub stop : Bool
  pub stream : Stream

-- The loop of `consume_whitespace`; at the end of the input `c` is EOF, which ends it with 0.
unfoldable pub consume_whitespace_from : List ℕ → Skipped
unfolding is_whitespace is_eol ungetc
consume_whitespace_from [] = record { stop = false; stream = at_end }
consume_whitespace_from (c ∷ r) =
    let next = consume_whitespace_from r in
    if c == comment
    then record { stop = true; stream = past r }
    else if not (is_whitespace c) || is_eol c
    then record { stop = false; stream = ungetc c (past r) }
    else next

unfoldable pub consume_whitespace : Stream → Skipped
unfolding consume_whitespace_from
consume_whitespace s =
    if s.eof then record { stop = true; stream = s } else consume_whitespace_from s.rest
