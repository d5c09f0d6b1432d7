-- ===== src/Parse/Dotted.antt =====
-- `string_to_addr` of src/common/parse.c on written addresses, and where it leaves its buffer.
use nvme_dem.Prelude.{
  ℕ, suc, ◌+◌, ◌-◌, ◌≤◌, ◌<◌, ◌≡◌, refl, ap, ap₂, ◌∙◌, inl, inr, ◌||◌, true, false, List, [], ◌∷◌,
  ◌++◌, append-nil, append_assoc, map, All, arith, ◌==◌, ltb, if◌then◌else◌, CStr, length, take,
  length-append, ℤ, pos, Bool-cases,
}
use nvme_dem.Parse.Addr.{
  atoi, nibble_size, stored, overrun, cons_value, ends_part, scan, fault, addr, pad, finish,
  string_to_addr,
}

module _ (width delim : ℕ) where
  -- The bytes of a component: none of them ends it.
  abbrev pub IsPart : CStr → Type 0
  IsPart = All (λ c. ends_part width delim c ≡ false)

  abbrev pub Parts : List CStr → Type 0
  Parts = All (λ w. IsPart w × (1 ≤ length w) × (length w ≤ width))

  -- The components with the delimiter between them.
  unfoldable pub join : CStr → List CStr → CStr
  join w [] = w
  join w (v ∷ ws) = w ++ delim ∷ join v ws

  -- A component is gathered in the buffer up to the byte that ends it.
  scan_part :
      (k : ℕ) (nibble w : CStr) (r : List ℕ)
      → IsPart w
      → length nibble + length w ≤ nibble_size
      → scan width delim (suc k) nibble (w ++ r) ≡ scan width delim (suc k) (nibble ++ w) r
  unfolding scan
  scan_part k nibble [] r p h = rw append-nil
  scan_part k nibble (c ∷ w) r p h =
      let ih =
        scan_part k (nibble ++ c ∷ []) w r p.1 (omega (arith, length-append nibble (c ∷ []))) in
      rw p.0 (
        rw (room nibble w c h)
          (ih ∙ ap (λ n. scan width delim (suc k) n r) (append_assoc nibble (c ∷ []) w)))
    where
      room :
          (nibble w : CStr) (c : ℕ)
          → length nibble + length (c ∷ w) ≤ nibble_size
          → ltb (length nibble) nibble_size ≡ true
      room nibble w c h = ground arith

  abbrev tail_of : ℕ → List ℕ → List ℕ
  tail_of c r = if c == b'/' then c ∷ r else r

  scan_end :
      (k : ℕ) (w : CStr) (c : ℕ) (r : List ℕ)
      → IsPart w × (1 ≤ length w) × (length w ≤ width)
      → width < nibble_size
      → ends_part width delim c ≡ true
      → scan width delim (suc k) [] (w ++ c ∷ r)
        ≡ cons_value (atoi w) (if c == b'/' then stored [] (c ∷ r) else scan width delim k [] r)
  scan_end k w c r h fits e =
      scan_part k [] w (c ∷ r) h.0 (omega arith) ∙ (unfold scan in rw e (ground arith))

  scan-join :
      (w : CStr) (ws : List CStr) (c : ℕ) (r : List ℕ)
      → Parts (w ∷ ws)
      → width < nibble_size
      → (delim == b'/') ≡ false
      → (c == 0 || c == b'/') ≡ true
      → scan width delim (length (w ∷ ws)) [] (join w ws ++ c ∷ r)
        ≡ stored (map atoi (w ∷ ws)) (tail_of c r)
  unfolding join
  scan-join w [] c r h fits d e =
      scan_end 0 w c r h.0 fits (ground arith) ∙ (unfold scan in ground arith)
  scan-join w (v ∷ ws) c r h fits d e = rw append_assoc (
      scan_end (length (v ∷ ws)) w delim (join v ws ++ c ∷ r) h.0 fits (ground arith)
      ∙ rw d (ap (cons_value (atoi w)) (scan-join v ws c r h.1 fits d e)))

  pad_full : (as_ : List ℤ) → pad (length as_) as_ ≡ as_
  pad_full [] = refl
  pad_full (a ∷ as_) = ap (λ l. a ∷ l) (pad_full as_)

  length-map-atoi : (ws : List CStr) → length (map atoi ws) ≡ length ws
  length-map-atoi [] = refl
  length-map-atoi (w ∷ ws) = ap suc (length-map-atoi ws)

  pad-map : (ws : List CStr) → pad (length ws) (map atoi ws) ≡ map atoi ws
  pad-map ws = rw (← length-map-atoi ws) (pad_full (map atoi ws))

  take-append : (xs ys : CStr) → take (length xs) (xs ++ ys) ≡ xs
  take-append [] ys = refl
  take-append (x ∷ xs) ys = ap (λ l. x ∷ l) (take-append xs ys)

  cut_slash :
      (p q : CStr) → take (length (p ++ b'/' ∷ q) - length (q ++ 0 ∷ [])) (p ++ b'/' ∷ q) ≡ p
  cut_slash p q =
      let n : length (p ++ b'/' ∷ q) - length (q ++ 0 ∷ []) ≡ length p =
        omega (arith, length-append p (b'/' ∷ q), length-append q (0 ∷ [])) in
      rw n (take-append p (b'/' ∷ q))

  module _ (w : CStr) (ws : List CStr) (parts : Parts (w ∷ ws)) (fits : width < nibble_size)
      (plain : (delim == b'/') ≡ false) where
    -- As many components as the address has, each not empty, not wider than allowed and without
    -- delimiter, joined by the delimiter, are stored in order, each as the number that `atoi` reads in
    -- it, which is decimal also where the components are hexadecimal; the return value is 0 and the
    -- string unchanged. The width allowed is less than the eight bytes of the buffer, as in the three
    -- calls of the code.
    pub string_to_addr-join :
        string_to_addr (length (w ∷ ws)) width delim (join w ws)
        ≡ addr (pos 0) (map atoi (w ∷ ws)) (join w ws)
    unfolding string_to_addr
    string_to_addr-join =
        ap (finish (length (w ∷ ws)) (join w ws)) (scan-join w ws 0 [] parts fits plain refl)
        ∙ ap (λ l. addr (pos 0) l (join w ws)) (pad-map (w ∷ ws))

    -- The same components followed by `/` and a text: the return value is the number that the text
    -- begins with, and the string is cut at the `/`.
    pub string_to_addr-prefix :
        (q : CStr)
        → string_to_addr (length (w ∷ ws)) width delim (join w ws ++ b'/' ∷ q)
          ≡ addr (atoi (q ++ 0 ∷ [])) (map atoi (w ∷ ws)) (join w ws)
    unfolding string_to_addr
    string_to_addr-prefix q =
        let p = join w ws ++ b'/' ∷ q in
        rw append_assoc (
          ap (finish (length (w ∷ ws)) p) (scan-join w ws b'/' (q ++ 0 ∷ []) parts fits plain refl)
          ∙ ap₂ (λ l t. addr (atoi (q ++ 0 ∷ [])) l t) (pad-map (w ∷ ws)) (cut_slash (join w ws) q))

  scan_over :
      (k : ℕ) (nibble w : CStr) (r : List ℕ)
      → IsPart w
      → length nibble ≤ nibble_size
      → nibble_size < length nibble + length w
      → scan width delim (suc k) nibble (w ++ r) ≡ overrun
  unfolding scan
  scan_over k nibble [] r p h long = absurd (omega arith)
  scan_over k nibble (c ∷ w) r p h long = elim (Bool-cases (ltb (length nibble) nibble_size)) [
    | inl room ↦ rw p.0 (
        rw room (
          scan_over k (nibble ++ c ∷ []) w r p.1 (ground (arith, length-append nibble (c ∷ [])))
            (omega (arith, length-append nibble (c ∷ [])))))
    | inr full ↦ rw p.0 (rw full)
  ]

  -- An address that begins with a component of more than eight bytes makes the loop write past the
  -- end of `nibble`.
  pub string_to_addr_overrun :
      (len : ℕ) (w r : CStr)
      → IsPart w
      → nibble_size < length w
      → string_to_addr (suc len) width delim (w ++ r) ≡ fault
  unfolding string_to_addr
  string_to_addr_overrun len w r h long =
      ap (finish (suc len) (w ++ r)) {x = scan width delim (suc len) [] ((w ++ r) ++ 0 ∷ [])}
        {y = overrun}
        (rw append_assoc (scan_over len [] w (r ++ 0 ∷ []) h (omega arith) (omega arith)))
