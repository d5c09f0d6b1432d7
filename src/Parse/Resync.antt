-- ===== src/Parse/Resync.antt =====
-- Where src/common/parse.c leaves the stream: one line further, whatever the line held.
use nvme_dem.Prelude.{
  ℕ, ◌-◌, ◌≡◌, ◌≢◌, inl, inr, ◌∙◌, Bool, false, not, List, [], ◌∷◌, All, arith, CStr, Option, none,
  some, Bool-cases,
}
use nvme_dem.Parse.Stream.{
  Stream, end_char, past, consume_line, consume_whitespace, consume_whitespace_from,
}
use nvme_dem.Parse.Line.{
  Line, after_space, max_equal, parse_word, parse_word_from, parse_equal, parse_equal_from,
  parse_value, parse_assign, parse_tag, parse_fields, parse_line,
}

-- No byte that a signed char confuses with EOF.
abbrev pub IsClean : List ℕ → Type 0
IsClean = All (λ c. c ≢ end_char)

-- `t` stands on the same line as `s`, further on.
record OnLine (s t : Stream) : Type 0 where
  clean : IsClean t.rest
  line : consume_line t ≡ consume_line s

OnLine-trans : {s t u : Stream} → OnLine s t → OnLine t u → OnLine s u
OnLine-trans p q = record { clean = q.clean; line = q.line ∙ p.line }

whitespace-OnLine_from :
    (l : List ℕ) → IsClean l → OnLine (past l) (consume_whitespace_from l).stream
unfolding consume_whitespace_from consume_line
whitespace-OnLine_from [] h = ground arith
whitespace-OnLine_from (c ∷ r) h = ground (arith, whitespace-OnLine_from r h.1)

word-OnLine_from :
    (q : Bool) (n : ℕ) (l : List ℕ) → IsClean l → OnLine (past l) (parse_word_from q n l).stream
unfolding parse_word_from consume_line
word-OnLine_from q n [] h = ground arith
word-OnLine_from q n (c ∷ r) h =
    ground (arith, word-OnLine_from (not q) n r h.1, word-OnLine_from q (n - 1) r h.1)

equal-OnLine_from : (n : ℕ) (l : List ℕ) → IsClean l → OnLine (past l) (parse_equal_from n l).stream
unfolding parse_equal_from consume_line
equal-OnLine_from n [] h = ground arith
equal-OnLine_from n (c ∷ r) h = ground (arith, equal-OnLine_from (n - 1) r h.1)

whitespace-OnLine : (s : Stream) → IsClean s.rest → OnLine s (consume_whitespace s).stream
unfolding consume_whitespace consume_line
whitespace-OnLine s h = ground (arith, whitespace-OnLine_from s.rest h)

word-OnLine : (n : ℕ) (s : Stream) → IsClean s.rest → OnLine s (parse_word n s).stream
unfolding parse_word consume_line
word-OnLine n s h = ground (arith, word-OnLine_from false n s.rest h)

equal-OnLine : (n : ℕ) (s : Stream) → IsClean s.rest → OnLine s (parse_equal n s).stream
unfolding parse_equal consume_line
equal-OnLine n s h = ground (arith, equal-OnLine_from n s.rest h)

value-OnLine :
    (n : ℕ) (tag : CStr) (s : Stream) → IsClean s.rest → OnLine s (parse_value n tag s).stream
unfolding parse_value
value-OnLine n tag s h = ground (arith, word-OnLine n s h)

-- Skipping blanks and going on stays on the line, if going on does.
after_space-OnLine :
    (k : Stream → Line) (tag : Option CStr) (s : Stream)
    → ((t : Stream) → IsClean t.rest → OnLine t (k t).stream)
    → IsClean s.rest
    → OnLine s (after_space k tag (consume_whitespace s)).stream
after_space-OnLine k tag s hk h =
    let w = whitespace-OnLine s h in
    let t = (consume_whitespace s).stream in
    let rest = OnLine-trans w (hk t w.clean) in
    elim (Bool-cases (consume_whitespace s).stop) [ inl e ↦ rw e w | inr e ↦ rw e rest ]

assign-OnLine :
    (n : ℕ) (tag : CStr) (s : Stream) → IsClean s.rest → OnLine s (parse_assign n tag s).stream
unfolding parse_assign
assign-OnLine n tag s h =
    let e = equal-OnLine max_equal s h in
    let t = (parse_equal max_equal s).stream in
    let rest =
      OnLine-trans e
        (after_space-OnLine (parse_value n tag) (some tag) t (value-OnLine n tag) e.clean) in
    ground (arith, e, rest)

tag-OnLine : (m n : ℕ) (s : Stream) → IsClean s.rest → OnLine s (parse_tag m n s).stream
unfolding parse_tag
tag-OnLine m n s h =
    let w = word-OnLine m s h in
    let t = (parse_word m s).stream in
    let tag = (parse_word m s).text in
    let rest =
      OnLine-trans w
        (after_space-OnLine (parse_assign n tag) (some tag) t (assign-OnLine n tag) w.clean) in
    ground (arith, w, rest)

-- Whatever a line holds, and whether or not it parses, `parse_line` leaves the stream exactly past
-- the end of that line, if no byte of the input is 0xff.
pub consume_line-parse_line :
    (m n : ℕ) (s : Stream) → IsClean s.rest → (parse_line m n s).stream ≡ consume_line s
unfolding parse_line parse_fields
consume_line-parse_line m n s h =
    (after_space-OnLine (parse_tag m n) none s (tag-OnLine m n) h).line
