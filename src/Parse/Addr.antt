-- ===== src/Parse/Addr.antt =====
-- `string_to_addr` of src/common/parse.c and its three callers.
use nvme_dem.Prelude.{
  ℕ, zero, suc, ◌+◌, ◌-◌, ◌*◌, Bool, ◌&&◌, ◌||◌, List, [], ◌∷◌, ◌++◌, ◌==◌, ltb, leb, if◌then◌else◌,
  CStr, length, take, ℤ, pos, neg,
}

-- `atoi`: blanks, an optional sign, and the digits that follow. A value that an `int` does not
-- hold is undefined in C; here it stays the integer that the digits write.
unfoldable pub digits_value : ℕ → CStr → ℕ
digits_value acc [] = acc
digits_value acc (c ∷ r) =
    let more = digits_value (acc * 10 + (c - 48)) r in if leb 48 c && leb c 57 then more else acc

unfoldable pub atoi : CStr → ℤ
unfolding digits_value
atoi [] = pos 0
atoi (c ∷ r) =
    let blank = atoi r in
    if c == 32 || (leb 9 c && leb c 13)
    then blank
    else if c == b'-'
    then neg (digits_value 0 r)
    else if c == b'+'
    then pos (digits_value 0 r)
    else pos (digits_value 0 (c ∷ r))

-- The buffer `char nibble[8]`.
abbrev pub nibble_size : ℕ
nibble_size = 8

-- How the loop ends: a component wider than allowed, a write past `nibble`, or the values stored
-- with what `p` points at, the terminating 0 included.
pub data Scan : Type 0 where
  wide overrun : Scan
  stored : List ℤ → List ℕ → Scan

abbrev pub cons_value : ℤ → Scan → Scan
cons_value a wide = wide
cons_value a overrun = overrun
cons_value a (stored as_ r) = stored (a ∷ as_) r

module _ (width delim : ℕ) where
  abbrev pub ends_part : ℕ → Bool
  ends_part c = c == delim || c == 0 || c == b'/'

  -- The loop, with `k` values still to store and the component read so far, which is ended by a 0 in
  -- the buffer.
  unfoldable pub scan : ℕ → CStr → List ℕ → Scan
  scan zero nibble r = stored [] r
  scan (suc k) nibble [] = stored [] []
  scan (suc k) nibble (c ∷ r) =
      let next = scan k [] r in
      let more = scan (suc k) (nibble ++ c ∷ []) r in
      if ends_part c
      then (if ltb width (length nibble)
          then wide
          else if ltb (length nibble) nibble_size
          then cons_value (if length nibble == 0 then pos 0 else atoi nibble)
              (if c == b'/' then stored [] (c ∷ r) else next)
          else overrun)
      else if ltb (length nibble) nibble_size
      then more
      else overrun

-- `fault`: undefined behaviour, a write past the end of `nibble`. `bad` is the return value -1.
-- Otherwise the return value, the array and what is left of the string, which is cut at a `/`.
pub data Addr : Type 0 where
  fault bad : Addr
  addr : ℤ → List ℤ → CStr → Addr

abbrev pub pad : ℕ → List ℤ → List ℤ
pad zero as_ = as_
pad (suc k) [] = pos 0 ∷ pad k []
pad (suc k) (a ∷ as_) = a ∷ pad k as_

-- The prefix length after a `/`, which is overwritten by 0.
abbrev pub finish : ℕ → CStr → Scan → Addr
finish len p wide = bad
finish len p overrun = fault
finish len p (stored as_ []) = addr (pos 0) (pad len as_) p
finish len p (stored as_ (c ∷ r)) =
    if c == b'/'
    then addr (atoi r) (pad len as_) (take (length p - length r) p)
    else addr (pos 0) (pad len as_) p

unfoldable pub string_to_addr : ℕ → ℕ → ℕ → CStr → Addr
unfolding scan
string_to_addr len width delim p = finish len p (scan width delim len [] (p ++ 0 ∷ []))

unfoldable pub ipv4_to_addr : CStr → Addr
unfolding string_to_addr
ipv4_to_addr = string_to_addr 4 3 b'.'

unfoldable pub ipv6_to_addr : CStr → Addr
unfolding string_to_addr
ipv6_to_addr = string_to_addr 8 4 b':'

unfoldable pub fc_to_addr : CStr → Addr
unfolding string_to_addr
fc_to_addr = string_to_addr 8 2 b':'
