-- ===== src/Parse/Line.antt =====
-- `parse_word`, `parse_equal` and `parse_line` of src/common/parse.c.
use nvme_dem.Prelude.{
  ℕ, ◌-◌, Bool, false, ◌&&◌, ◌||◌, not, List, [], ◌∷◌, ◌==◌, if◌then◌else◌, Option, none, some,
  CStr, streq,
}
use nvme_dem.Parse.Stream.{
  Stream, comment, equal, at_end, past, is_whitespace, is_quote, is_eol, ungetc, Skipped,
  consume_whitespace, consume_line,
}

-- The bytes stored, and the stream.
pub record Word : Type 0 where
  pub text : CStr
  pub stream : Stream

abbrev pub prefix_word : ℕ → Word → Word
prefix_word c w = record { text = c ∷ w.text; stream = w.stream }

abbrev pub nothing_more : Stream → Word
nothing_more s = record { text = []; stream = s }

-- The loop of `parse_word`, with `n` bytes of room. `if (--n == 0) break` tests the decrement of
-- a positive `n`. At the end of the input `c` is EOF: `ungetc` changes nothing and the loop ends.
unfoldable pub parse_word_from : Bool → ℕ → List ℕ → Word
unfolding is_whitespace is_quote is_eol ungetc
parse_word_from quoted n [] = nothing_more at_end
parse_word_from quoted n (c ∷ r) =
    let skipped = parse_word_from (not quoted) n r in
    let stored = parse_word_from quoted (n - 1) r in
    if c == comment && not quoted
    then nothing_more (past r)
    else if is_quote c
    then skipped
    else if is_whitespace c || is_eol c || c == equal
    then nothing_more (ungetc c (past r))
    else prefix_word c (if n == 1 then nothing_more (past r) else stored)

unfoldable pub parse_equal_from : ℕ → List ℕ → Word
unfolding ungetc
parse_equal_from n [] = nothing_more at_end
parse_equal_from n (c ∷ r) =
    let stored = parse_equal_from (n - 1) r in
    if c == comment
    then nothing_more (past r)
    else if not (c == equal)
    then nothing_more (ungetc c (past r))
    else prefix_word c (if n == 1 then nothing_more (past r) else stored)

-- `while (!feof(fd))`: no round is made where the mark is set.
unfoldable pub parse_word : ℕ → Stream → Word
unfolding parse_word_from
parse_word n s = if s.eof then nothing_more s else parse_word_from false n s.rest

unfoldable pub parse_equal : ℕ → Stream → Word
unfolding parse_equal_from
parse_equal n s = if s.eof then nothing_more s else parse_equal_from n s.rest

abbrev pub max_equal : ℕ
max_equal = 2

-- The return value of `parse_line`: 0, 1 or -1.
pub data Status : Type 0 where
  ok stop bad : Status

-- A buffer is written only when its word is not empty (`p == word` returns before `*p = 0`).
pub record Line : Type 0 where
  pub status : Status
  pub tag : Option CStr
  pub value : Option CStr
  pub stream : Stream

abbrev pub ended : Status → Option CStr → Stream → Line
ended st tag s = record { status = st; tag = tag; value = none; stream = s }

-- The value, after the `=` of its line.
abbrev pub value_line : CStr → Word → Line
value_line tag w = elim w.text [
  | [] ↦ ended stop (some tag) w.stream
  | c ∷ cs ↦ record { status = ok; tag = some tag; value = some (c ∷ cs); stream = w.stream }
]

unfoldable pub parse_value : ℕ → CStr → Stream → Line
parse_value n tag s = value_line tag (parse_word n s)

abbrev pub after_space : (Stream → Line) → Option CStr → Skipped → Line
after_space k tag sp = if sp.stop then ended stop tag sp.stream else k sp.stream

abbrev pub assign_line : ℕ → CStr → Word → Line
assign_line n tag w = elim w.text [
  | [] ↦ ended stop (some tag) w.stream
  | c ∷ cs ↦
      if streq (c ∷ cs) (equal ∷ [])
      then after_space (parse_value n tag) (some tag) (consume_whitespace w.stream)
      else ended bad (some tag) w.stream
]

unfoldable pub parse_assign : ℕ → CStr → Stream → Line
parse_assign n tag s = assign_line n tag (parse_equal max_equal s)

abbrev pub tag_line : ℕ → Word → Line
tag_line n w = elim w.text [
  | [] ↦ ended stop none w.stream
  | c ∷ cs ↦ after_space (parse_assign n (c ∷ cs)) (some (c ∷ cs)) (consume_whitespace w.stream)
]

unfoldable pub parse_tag : ℕ → ℕ → Stream → Line
parse_tag m n s = tag_line n (parse_word m s)

-- Everything of `parse_line` before its label `out`.
unfoldable pub parse_fields : ℕ → ℕ → Stream → Line
parse_fields m n s = after_space (parse_tag m n) none (consume_whitespace s)

unfoldable pub parse_line : ℕ → ℕ → Stream → Line
parse_line m n s = let l = parse_fields m n s in record l { stream = consume_line l.stream }
