-- ===== src/Parse/Accept.antt =====
-- What src/common/parse.c reads back from a written line, and how much it ever stores.
use nvme_dem.Prelude.{
  ℕ, ap, ◌∙◌, ◌-◌, ◌≤◌, ◌≡◌, refl, Bool, true, false, ◌||◌, not, List, [], ◌∷◌, ◌++◌, All, arith,
  CStr, length, Option, none, some, ◌==◌, ==_iff, streq, Bool-cases, inl, inr,
}
use nvme_dem.Parse.Stream.{
  Stream, past, comment, equal, is_whitespace, is_quote, is_eol, end_char, consume_line,
  consume_whitespace, consume_whitespace_from,
}
use nvme_dem.Parse.Line.{
  Line, ok, max_equal, parse_word, parse_word_from, parse_equal, parse_equal_from, parse_value,
  parse_assign, parse_tag, parse_fields, parse_line, after_space, value_line, assign_line, tag_line,
}

-- A byte of a word, which needs no quotes.
abbrev pub is_plain : ℕ → Bool
unfolding is_whitespace is_quote is_eol
is_plain c = not (is_whitespace c || is_quote c || is_eol c || c == equal || c == comment)

abbrev pub IsPlain : CStr → Type 0
IsPlain = All (λ c. is_plain c ≡ true)

abbrev pub IsBlank : CStr → Type 0
IsBlank = All (λ c. is_whitespace c ≡ true)

-- A byte that ends a word and is left in the stream.
abbrev ends_word : ℕ → Bool
ends_word c = is_whitespace c || c == 10 || c == equal

-- A byte that ends a run of blanks and is left in the stream.
abbrev is_blank_end : ℕ → Bool
is_blank_end c = not (is_whitespace c || c == comment || c == end_char)

plain_blank_end : (c : ℕ) → is_plain c ≡ true → is_blank_end c ≡ true
unfolding is_whitespace is_quote is_eol
plain_blank_end c h = ground arith

word_last :
    (c : ℕ) (w : CStr) (n d : ℕ) (r : List ℕ)
    → IsPlain (c ∷ w)
    → length w ≤ 0
    → (n == 1) ≡ true
    → parse_word_from false n (c ∷ (w ++ d ∷ r)) ≡ record { text = c ∷ w; stream = past (d ∷ r) }
unfolding parse_word_from
word_last c [] n d r p h e = ground arith
word_last c (x ∷ w) n d r p h e = absurd (omega arith)

word_plain :
    (w : CStr) (n d : ℕ) (r : List ℕ)
    → IsPlain w
    → length w ≤ n
    → 1 ≤ n
    → ends_word d ≡ true
    → parse_word_from false n (w ++ d ∷ r) ≡ record { text = w; stream = past (d ∷ r) }
unfolding parse_word_from
word_plain [] n d r p h k e = ground arith
word_plain (c ∷ w) n d r p h k e = elim (Bool-cases (n == 1)) [
  | inl one ↦ word_last c w n d r p (omega (arith, (==_iff n 1).0 one)) one
  | inr more ↦ ground (arith, word_plain w (n - 1) d r p.1 (omega arith) (ground arith) e)
]

word_blank :
    (w b : CStr) (n x : ℕ) (r : List ℕ)
    → IsPlain w
    → IsBlank b
    → length w ≤ n
    → 1 ≤ n
    → ends_word x ≡ true
    → parse_word_from false n (w ++ (b ++ x ∷ r)) ≡ record { text = w; stream = past (b ++ x ∷ r) }
word_blank w [] n x r p q h k e = word_plain w n x r p h k e
word_blank w (d ∷ b) n x r p q h k e = word_plain w n d (b ++ x ∷ r) p h k (rw q.0)

blank_skip :
    (b : CStr) (c : ℕ) (r : List ℕ)
    → IsBlank b
    → is_blank_end c ≡ true
    → consume_whitespace_from (b ++ c ∷ r) ≡ record { stop = false; stream = past (c ∷ r) }
unfolding consume_whitespace_from
blank_skip [] c r h e = ground arith
blank_skip (x ∷ b) c r h e = ground (arith, blank_skip b c r h.1 e)

equal_one :
    (b : CStr) (c : ℕ) (r : List ℕ)
    → IsBlank b
    → is_plain c ≡ true
    → parse_equal_from max_equal (equal ∷ (b ++ c ∷ r))
      ≡ record { text = equal ∷ []; stream = past (b ++ c ∷ r) }
unfolding parse_equal_from is_whitespace is_quote is_eol
equal_one [] c r h e = ground arith
equal_one (x ∷ b) c r h e = ground arith

module _ (n v : ℕ) (vs : CStr) (rest : List ℕ) (plain : IsPlain (v ∷ vs))
    (fits : length (v ∷ vs) ≤ n) where
  abbrev parsed : CStr → Line
  parsed tag = record {
    status = ok;
    tag = some tag;
    value = some (v ∷ vs);
    stream = past (10 ∷ rest);
  }

  value_accept : (tag : CStr) → parse_value n tag (past (v ∷ (vs ++ 10 ∷ rest))) ≡ parsed tag
  unfolding parse_value parse_word
  value_accept tag =
      ap (value_line tag) (word_plain (v ∷ vs) n 10 rest plain fits (omega arith) refl)

  assign_accept :
      (tag b : CStr)
      → IsBlank b
      → parse_assign n tag (past (equal ∷ (b ++ v ∷ (vs ++ 10 ∷ rest)))) ≡ parsed tag
  unfolding parse_assign parse_equal consume_whitespace streq
  assign_accept tag b h =
      ap (assign_line n tag) (equal_one b v (vs ++ 10 ∷ rest) h plain.0)
      ∙ ap (after_space (parse_value n tag) (some tag))
          (blank_skip b v (vs ++ 10 ∷ rest) h (plain_blank_end v plain.0))
      ∙ value_accept tag

  module _ (m t : ℕ) (ts : CStr) (tag_plain : IsPlain (t ∷ ts))
      (tag_fits : length (t ∷ ts) ≤ m) where
    tag_accept :
        (b b' : CStr)
        → IsBlank b
        → IsBlank b'
        → parse_tag m n (past (t ∷ (ts ++ (b ++ equal ∷ (b' ++ v ∷ (vs ++ 10 ∷ rest))))))
          ≡ parsed (t ∷ ts)
    unfolding parse_tag parse_word consume_whitespace
    tag_accept b b' h h' =
        let r = b' ++ v ∷ (vs ++ 10 ∷ rest) in
        ap (tag_line n) (word_blank (t ∷ ts) b m equal r tag_plain h tag_fits (omega arith) refl)
        ∙ ap (after_space (parse_assign n (t ∷ ts)) (some (t ∷ ts))) (blank_skip b equal r h refl)
        ∙ assign_accept (t ∷ ts) b' h'

    -- A line `tag = value`, with any blanks before the tag and round the sign, of which neither
    -- word needs quotes nor is longer than its buffer, is read back: status 0, both words, and the
    -- stream at the line that follows.
    pub parse_line_accepts :
        (lead b b' : CStr)
        → IsBlank lead
        → IsBlank b
        → IsBlank b'
        → parse_line m n (past (lead ++ t ∷ (ts ++ (b ++ equal ∷ (b' ++ v ∷ (vs ++ 10 ∷ rest))))))
          ≡ record { status = ok; tag = some (t ∷ ts); value = some (v ∷ vs); stream = past rest }
    unfolding parse_line parse_fields consume_whitespace consume_line
    parse_line_accepts lead b b' hl h h' =
        let r = ts ++ (b ++ equal ∷ (b' ++ v ∷ (vs ++ 10 ∷ rest))) in
        rw (blank_skip lead t r hl (plain_blank_end t tag_plain.0)) (rw (tag_accept b b' h h'))

-- No more bytes are stored than the buffer has room for, beside the terminating 0.
length-parse_word_from :
    (q : Bool) (n : ℕ) (l : List ℕ) → 1 ≤ n → length (parse_word_from q n l).text ≤ n
unfolding parse_word_from
length-parse_word_from q n [] h = omega arith
length-parse_word_from q n (c ∷ r) h = elim (Bool-cases (n == 1)) [
  | inl one ↦ ground (arith, length-parse_word_from (not q) n r h)
  | inr more ↦ ground (
    arith,
    length-parse_word_from (not q) n r h,
    length-parse_word_from q (n - 1) r (ground arith),
  )
]

abbrev pub FitsIn : ℕ → Option CStr → Type 0
FitsIn n none = Unit
FitsIn n (some w) = length w ≤ n

word_fits : (n : ℕ) (s : Stream) → 1 ≤ n → length (parse_word n s).text ≤ n
unfolding parse_word
word_fits n s h = ground (arith, length-parse_word_from false n s.rest h)

assign_fits :
    (n : ℕ) (tag : CStr) (s : Stream)
    → 1 ≤ n
    → FitsIn n (parse_assign n tag s).value × ((parse_assign n tag s).tag ≡ some tag)
unfolding parse_assign parse_value
assign_fits n tag s h =
    let t = (parse_equal max_equal s).stream in
    ground (arith, word_fits n (consume_whitespace t).stream h)

tag_fits :
    (m n : ℕ) (s : Stream)
    → 1 ≤ m
    → 1 ≤ n
    → FitsIn m (parse_tag m n s).tag × FitsIn n (parse_tag m n s).value
unfolding parse_tag
tag_fits m n s h k =
    let w = parse_word m s in
    ground (arith, word_fits m s h, assign_fits n w.text (consume_whitespace w.stream).stream k)

-- With room for at least one byte in each buffer, no tag and no value longer than its buffer is
-- ever stored, on any input.
pub parse_line_fits :
    (m n : ℕ) (s : Stream)
    → 1 ≤ m
    → 1 ≤ n
    → FitsIn m (parse_line m n s).tag × FitsIn n (parse_line m n s).value
unfolding parse_line parse_fields
parse_line_fits m n s h k = ground (arith, tag_fits m n (consume_whitespace s).stream h k)
