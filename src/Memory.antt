-- ===== src/Memory.antt =====
-- The bytes of a buffer that two sides read as C structures, and what C stores in them.
pub mod Laws
pub mod Words
use nvme_dem.Prelude.{
  ℕ, zero, suc, ◌+◌, Bool, false, List, [], ◌∷◌, Option, none, some, ◌==◌, if◌then◌else◌, ltb, CStr,
}

-- The byte at each offset.
abbrev pub Mem : Type 0
Mem = ℕ → ℕ

unfoldable pub write : Mem → ℕ → List ℕ → Mem
write m a [] x = m x
write m a (v ∷ vs) x = let rest = write m (a + 1) vs x in if x == a then v else rest

abbrev pub cons_byte : ℕ → Option CStr → Option CStr
cons_byte c none = none
cons_byte c (some s) = some (c ∷ s)

-- The string at `a`, where `n` bytes can be read; `none` is a read past them.
unfoldable pub read_str : ℕ → Mem → ℕ → Option CStr
read_str zero m a = none
read_str (suc n) m a =
    let rest = read_str n m (a + 1) in if m a == 0 then some [] else cons_byte (m a) rest

-- `strncpy` from the buffer, of at most `n` bytes into a cleared array.
unfoldable pub read_chars : ℕ → Mem → ℕ → CStr
read_chars zero m a = []
read_chars (suc n) m a = let rest = read_chars n m (a + 1) in if m a == 0 then [] else m a ∷ rest

-- Whether `strcmp` finds the string at `a`.
unfoldable pub text_is : Mem → ℕ → CStr → Bool
text_is m a [] = m a == 0
text_is m a (c ∷ s) = let rest = text_is m (a + 1) s in if m a == c then rest else false

-- What `strcpy` and `sprintf` store, and what `strncpy` does, with its zeros up to `n` bytes.
abbrev pub terminated : CStr → List ℕ
terminated [] = 0 ∷ []
terminated (c ∷ s) = c ∷ terminated s

abbrev pub padded : ℕ → CStr → List ℕ
padded zero s = []
padded (suc n) [] = 0 ∷ padded n []
padded (suc n) (c ∷ s) = c ∷ padded n s

-- The buffer after a transfer of `len` bytes into it.
abbrev pub received : ℕ → Mem → Mem → Mem
received len sent old x = if ltb x len then sent x else old x
