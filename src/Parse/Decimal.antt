-- ===== src/Parse/Decimal.antt =====
-- What `sprintf("%d")` writes, and that `atoi` reads it back.
use nvme_dem.Prelude.{
  ℕ, zero, suc, ◌+◌, ◌-◌, ◌*◌, ◌/◌, ◌%◌, ◌≤◌, ◌<◌, ◌≡◌, refl, ap, ◌∙◌, true, ◌&&◌, [], ◌∷◌, arith,
  All, ltb, leb, if◌then◌else◌, CStr, length, ℤ, pos, negsuc, neg, Bool-cases, inl, inr,
}
use nvme_dem.Parse.Addr.{digits_value, atoi}

-- The digits of `n` before `s`; the fuel counts divisions by ten, and `n + 1` is enough.
unfoldable pub digits_of : ℕ → ℕ → CStr → CStr
digits_of zero n s = s
digits_of (suc f) n s =
    let more = digits_of f (n / 10) ((48 + n % 10) ∷ s) in if ltb n 10 then (48 + n) ∷ s else more

unfoldable pub decimal : ℕ → CStr
unfolding digits_of
decimal n = digits_of (n + 1) n []

unfoldable pub print_int : ℤ → CStr
unfolding decimal
print_int (pos n) = decimal n
print_int (negsuc n) = b'-' ∷ decimal (n + 1)

abbrev pub IsDigits : CStr → Type 0
IsDigits = All (λ c. (leb 48 c && leb c 57) ≡ true)

abbrev pub IsNumber : CStr → Type 0
IsNumber [] = ⊥
IsNumber (c ∷ s) = IsDigits (c ∷ s)

digits_of-IsDigits : (f n : ℕ) (s : CStr) → IsDigits s → IsDigits (digits_of f n s)
unfolding digits_of
digits_of-IsDigits zero n s h = h
digits_of-IsDigits (suc f) n s h = elim (Bool-cases (ltb n 10)) [
  | inl e ↦ rw e (ground arith, h)
  | inr e ↦ rw e (digits_of-IsDigits f (n / 10) ((48 + n % 10) ∷ s) (ground arith, h))
]

digits_of-IsNumber_more : (f n : ℕ) (s : CStr) → IsNumber s → IsNumber (digits_of f n s)
unfolding digits_of
digits_of-IsNumber_more zero n s h = h
digits_of-IsNumber_more (suc f) n [] h = absurd h
digits_of-IsNumber_more (suc f) n (c ∷ s) h = elim (Bool-cases (ltb n 10)) [
  | inl e ↦ rw e (ground arith, h)
  | inr e ↦ rw e (digits_of-IsNumber_more f (n / 10) ((48 + n % 10) ∷ c ∷ s) (ground arith, h))
]

digits_of-IsNumber : (f n : ℕ) → IsNumber (digits_of (suc f) n [])
unfolding digits_of
digits_of-IsNumber f n = elim (Bool-cases (ltb n 10)) [
  | inl e ↦ rw e (ground arith, tt)
  | inr e ↦ rw e (digits_of-IsNumber_more f (n / 10) ((48 + n % 10) ∷ []) (ground arith, tt))
]

digits_value-digits_of :
    (f n : ℕ) (s : CStr) → n < f → digits_value 0 (digits_of f n s) ≡ digits_value n s
unfolding digits_of
digits_value-digits_of zero n s h = absurd (omega arith)
digits_value-digits_of (suc f) n s h = elim (Bool-cases (ltb n 10)) [
  | inl e ↦ rw e (last n s e)
  | inr e ↦ rw e (digits_value-digits_of f (n / 10) ((48 + n % 10) ∷ s) (ground arith) ∙ next n s)
]
  where
    last : (n : ℕ) (s : CStr) → ltb n 10 ≡ true → digits_value 0 ((48 + n) ∷ s) ≡ digits_value n s
    last n s e =
        let v : 0 * 10 + ((48 + n) - 48) ≡ n = omega arith in
        let d : (leb 48 (48 + n) && leb (48 + n) 57) ≡ true = ground arith in
        unfold digits_value in rw (d, v)

    next : (n : ℕ) (s : CStr) → digits_value (n / 10) ((48 + n % 10) ∷ s) ≡ digits_value n s
    next n s =
        let v : n / 10 * 10 + ((48 + n % 10) - 48) ≡ n = omega arith in
        let d : (leb 48 (48 + n % 10) && leb (48 + n % 10) 57) ≡ true = ground arith in
        unfold digits_value in rw (d, v)

atoi_number : (s : CStr) → IsNumber s → atoi s ≡ pos (digits_value 0 s)
unfolding atoi
atoi_number [] h = absurd h
atoi_number (c ∷ s) h = ground (arith, h.0)

pub decimal-IsDigits : (n : ℕ) → IsDigits (decimal n)
unfolding decimal
decimal-IsDigits n = digits_of-IsDigits (n + 1) n [] tt

pub atoi-decimal : (n : ℕ) → atoi (decimal n) ≡ pos n
unfolding decimal
atoi-decimal n =
    let e : n + 1 ≡ suc n = omega arith in
    rw e (
      atoi_number (digits_of (suc n) n []) (digits_of-IsNumber n n)
      ∙ ap pos (digits_value-digits_of (suc n) n [] (omega arith) ∙ (unfold digits_value in refl)))

digits_value-decimal : (n : ℕ) → digits_value 0 (decimal n) ≡ n
unfolding decimal
digits_value-decimal n =
    digits_value-digits_of (n + 1) n [] (omega arith) ∙ (unfold digits_value in refl)

pub atoi-print_int : (z : ℤ) → atoi (print_int z) ≡ z
unfolding print_int
atoi-print_int (pos n) = atoi-decimal n
atoi-print_int (negsuc n) =
    let q : n + 1 ≡ suc n = omega arith in
    let e : atoi (b'-' ∷ decimal (n + 1)) ≡ neg (digits_value 0 (decimal (n + 1))) =
      unfold atoi in refl in
    e ∙ ap neg (digits_value-decimal (n + 1) ∙ q)

-- Ten to the power `k`.
abbrev pub tens : ℕ → ℕ
tens zero = 1
tens (suc k) = 10 * tens k

length-digits_of :
    (f n k : ℕ) (s : CStr) → n < tens (suc k) → length (digits_of f n s) ≤ length s + suc k
unfolding digits_of
length-digits_of zero n k s h = omega arith
length-digits_of (suc f) n zero s h = ground arith
length-digits_of (suc f) n (suc k) s h = elim (Bool-cases (ltb n 10)) [
  | inl e ↦ rw e (omega arith)
  | inr e ↦ rw e (omega (arith, length-digits_of f (n / 10) k ((48 + n % 10) ∷ s) (omega arith)))
]

pub length-decimal : (n k : ℕ) → n < tens (suc k) → length (decimal n) ≤ suc k
unfolding decimal
length-decimal n k h = omega (arith, length-digits_of (n + 1) n k [] h)
