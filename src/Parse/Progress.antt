-- ===== src/Parse/Progress.antt =====
-- Every call of `parse_line` consumes input: the loops `while (!feof(fid))` around it end.
use nvme_dem.Prelude.{
  ℕ, ◌-◌, ◌≤◌, ◌<◌, ◌≡◌, ◌⊎◌, Bool, true, false, not, List, [], ◌∷◌, arith, CStr, length, Option,
  none, some,
}
use nvme_dem.Parse.Stream.{
  Stream, consume_line, consume_line_from, consume_whitespace, consume_whitespace_from,
}
use nvme_dem.Parse.Line.{
  Line, after_space, max_equal, parse_word, parse_word_from, parse_equal, parse_equal_from,
  parse_value, parse_assign, parse_tag, parse_fields, parse_line,
}

abbrev left : Stream → ℕ
left s = length s.rest

whitespace-le_from : (l : List ℕ) → left (consume_whitespace_from l).stream ≤ length l
unfolding consume_whitespace_from
whitespace-le_from [] = ground arith
whitespace-le_from (c ∷ r) = ground (arith, whitespace-le_from r)

word-le_from : (q : Bool) (n : ℕ) (l : List ℕ) → left (parse_word_from q n l).stream ≤ length l
unfolding parse_word_from
word-le_from q n [] = ground arith
word-le_from q n (c ∷ r) = ground (arith, word-le_from (not q) n r, word-le_from q (n - 1) r)

equal-le_from : (n : ℕ) (l : List ℕ) → left (parse_equal_from n l).stream ≤ length l
unfolding parse_equal_from
equal-le_from n [] = ground arith
equal-le_from n (c ∷ r) = ground (arith, equal-le_from (n - 1) r)

whitespace-le : (s : Stream) → left (consume_whitespace s).stream ≤ left s
unfolding consume_whitespace
whitespace-le s = ground (arith, whitespace-le_from s.rest)

word-le : (n : ℕ) (s : Stream) → left (parse_word n s).stream ≤ left s
unfolding parse_word
word-le n s = ground (arith, word-le_from false n s.rest)

equal-le : (n : ℕ) (s : Stream) → left (parse_equal n s).stream ≤ left s
unfolding parse_equal
equal-le n s = ground (arith, equal-le_from n s.rest)

value-le : (n : ℕ) (tag : CStr) (s : Stream) → left (parse_value n tag s).stream ≤ left s
unfolding parse_value
value-le n tag s = ground (arith, word-le n s)

after_space-le :
    (k : Stream → Line) (tag : Option CStr) (s : Stream)
    → ((t : Stream) → left (k t).stream ≤ left t)
    → left (after_space k tag (consume_whitespace s)).stream ≤ left s
after_space-le k tag s h = ground (arith, whitespace-le s, h (consume_whitespace s).stream)

assign-le : (n : ℕ) (tag : CStr) (s : Stream) → left (parse_assign n tag s).stream ≤ left s
unfolding parse_assign
assign-le n tag s =
    let t = (parse_equal max_equal s).stream in
    let rest = after_space-le (parse_value n tag) (some tag) t (value-le n tag) in
    ground (arith, equal-le max_equal s, rest)

tag-le : (m n : ℕ) (s : Stream) → left (parse_tag m n s).stream ≤ left s
unfolding parse_tag
tag-le m n s =
    let w = parse_word m s in
    let rest = after_space-le (parse_assign n w.text) (some w.text) w.stream (assign-le n w.text) in
    ground (arith, word-le m s, rest)

consume_line-lt_from :
    (l : List ℕ) → ((consume_line_from l).eof ≡ true) ⊎ (left (consume_line_from l) < length l)
unfolding consume_line_from
consume_line-lt_from [] = ground arith
consume_line-lt_from (c ∷ r) = ground (arith, consume_line-lt_from r)

consume_line-lt : (s : Stream) → ((consume_line s).eof ≡ true) ⊎ (left (consume_line s) < left s)
unfolding consume_line
consume_line-lt s = ground (arith, consume_line-lt_from s.rest)

-- After `parse_line` the stream is at its end, or has strictly fewer bytes left.
pub parse_line_progress :
    (m n : ℕ) (s : Stream)
    → ((parse_line m n s).stream.eof ≡ true)
      ⊎ (length (parse_line m n s).stream.rest < length s.rest)
unfolding parse_line parse_fields
parse_line_progress m n s =
    let fields = after_space-le (parse_tag m n) none s (tag-le m n) in
    let t = (after_space (parse_tag m n) none (consume_whitespace s)).stream in
    ground (arith, fields, consume_line-lt t)
