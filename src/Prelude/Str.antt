-- ===== src/Prelude/Str.antt =====
-- C strings: the bytes before the terminating 0, as a list of numbers.
use Prim.Native.Char.{code}
use Prim.Native.Nat.{ℕ, ◌≤◌}
use Prim.Native.String.{String}
use mathlib.Core.Path.{◌≡◌, refl}
use mathlib.Core.Bool.{Bool, true, false, ◌&&◌}
use mathlib.Core.List.{List, [], ◌∷◌}
use native.Mathlib.Omega.{arith}
use nvme_dem.Prelude.Tests.{◌==◌}
use nvme_dem.Prelude.Lists.{length, take, length-take-le, take_all}

abbrev pub CStr : Type 0
CStr = List ℕ

-- The bytes of a literal, for the ASCII names of the source.
abbrev pub codes : String → CStr
codes String.[] = []
codes (String.◌∷◌ c s) = code c ∷ codes s

-- `strcmp(a, b) == 0`
unfoldable pub streq : CStr → CStr → Bool
streq [] [] = true
streq [] (b ∷ bs) = false
streq (a ∷ as_) [] = false
streq (a ∷ as_) (b ∷ bs) = a == b && streq as_ bs

pub streq_sound : (a b : CStr) → streq a b ≡ true → a ≡ b
unfolding streq
streq_sound [] [] h = refl
streq_sound [] (b ∷ bs) h = cc
streq_sound (a ∷ as_) [] h = cc
streq_sound (a ∷ as_) (b ∷ bs) h = ground (arith, streq_sound as_ bs)

pub streq_refl : (a : CStr) → streq a a ≡ true
unfolding streq
streq_refl [] = refl
streq_refl (a ∷ as_) = ground (arith, streq_refl as_)

pub streq_complete : (a b : CStr) → a ≡ b → streq a b ≡ true
streq_complete a b h = rw h (streq_refl b)

-- `strncpy(d, s, n)` into a zeroed buffer of n + 1 bytes: at most n bytes, terminated.
unfoldable pub strncpy : CStr → ℕ → CStr
strncpy s n = take n s

pub length-strncpy : (s : CStr) (n : ℕ) → length (strncpy s n) ≤ n
unfolding strncpy
length-strncpy s n = length-take-le n s

pub strncpy_fits : (s : CStr) (n : ℕ) → length s ≤ n → strncpy s n ≡ s
unfolding strncpy
strncpy_fits s n h = take_all n s h
