-- ===== src/Memory/Laws.antt =====
-- Reading back what was written.
use nvme_dem.Prelude.{
  ℕ, zero, suc, ◌+◌, ◌≤◌, ◌<◌, ◌≡◌, ◌⊎◌, refl, ◌∙◌, false, List, [], ◌∷◌, some, arith, All, ◌==◌,
  if◌then◌else◌, CStr, length,
}
use nvme_dem.Memory.{Mem, write, read_str, read_chars, terminated, padded, received}

-- The bytes `vs` stand from `a` on.
abbrev pub IsAt : Mem → ℕ → List ℕ → Type 0
IsAt m a [] = Unit
IsAt m a (v ∷ vs) = (m a ≡ v) × IsAt m (a + 1) vs

-- A string's bytes, none of which is the terminating 0.
abbrev pub IsText : CStr → Type 0
IsText = All (λ c. (c == 0) ≡ false)

pub IsAt-agree :
    (m m' : Mem) (a : ℕ) (vs : List ℕ)
    → ((x : ℕ) → a ≤ x → x < a + length vs → m' x ≡ m x)
    → IsAt m a vs
    → IsAt m' a vs
IsAt-agree m m' a [] h p = tt
IsAt-agree m m' a (v ∷ vs) h p = (
  h a (omega arith) (omega arith) ∙ p.0,
  IsAt-agree m m' (a + 1) vs (λ x lo hi. h x (omega arith) (omega arith)) p.1,
)

pub write_outside :
    (m : Mem) (a : ℕ) (vs : List ℕ) (x : ℕ) → (x < a) ⊎ (a + length vs ≤ x) → write m a vs x ≡ m x
unfolding write
write_outside m a [] x h = refl
write_outside m a (v ∷ vs) x h = ground (arith, write_outside m (a + 1) vs x)

pub write-IsAt : (m : Mem) (a : ℕ) (vs : List ℕ) → IsAt (write m a vs) a vs
unfolding write
write-IsAt m a [] = tt
write-IsAt m a (v ∷ vs) = (
  ground arith,
  IsAt-agree (write m (a + 1) vs) (λ x. if x == a then v else write m (a + 1) vs x) (a + 1) vs
      (λ x lo hi. ground arith) (write-IsAt m (a + 1) vs),
)

pub IsAt-write :
    (m : Mem) (a : ℕ) (vs : List ℕ) (b : ℕ) (ws : List ℕ)
    → (b + length ws ≤ a) ⊎ (a + length vs ≤ b)
    → IsAt m b ws
    → IsAt (write m a vs) b ws
IsAt-write m a vs b ws d =
    IsAt-agree m (write m a vs) b ws (λ x lo hi. write_outside m a vs x (ground arith))

pub IsAt-received :
    (len : ℕ) (sent old : Mem) (a : ℕ) (vs : List ℕ)
    → a + length vs ≤ len
    → IsAt sent a vs
    → IsAt (received len sent old) a vs
IsAt-received len sent old a vs h =
    IsAt-agree sent (received len sent old) a vs (λ x lo hi. ground arith)

pub IsAt-terminated :
    (m : Mem) (a n : ℕ) (s : CStr) → length s < n → IsAt m a (padded n s) → IsAt m a (terminated s)
IsAt-terminated m a zero s h p = absurd (omega arith)
IsAt-terminated m a (suc n) [] h p = (p.0, tt)
IsAt-terminated m a (suc n) (c ∷ s) h p = (p.0, IsAt-terminated m (a + 1) n s (omega arith) p.1)

pub read_str-IsAt :
    (n : ℕ) (m : Mem) (a : ℕ) (s : CStr)
    → IsText s
    → length s < n
    → IsAt m a (terminated s)
    → read_str n m a ≡ some s
unfolding read_str
read_str-IsAt zero m a s t h p = absurd (omega arith)
read_str-IsAt (suc n) m a [] t h p = rw p.0
read_str-IsAt (suc n) m a (c ∷ s) t h p =
    ground (arith, read_str-IsAt n m (a + 1) s t.1 (omega arith) p.1)

pub read_chars-IsAt :
    (n : ℕ) (m : Mem) (a : ℕ) (s : CStr)
    → IsText s
    → length s ≤ n
    → IsAt m a (terminated s)
    → read_chars n m a ≡ s
unfolding read_chars
read_chars-IsAt zero m a [] t h p = refl
read_chars-IsAt zero m a (c ∷ s) t h p = absurd (omega arith)
read_chars-IsAt (suc n) m a [] t h p = rw p.0
read_chars-IsAt (suc n) m a (c ∷ s) t h p =
    ground (arith, read_chars-IsAt n m (a + 1) s t.1 (omega arith) p.1)

pub length-padded : (n : ℕ) (s : CStr) → length (padded n s) ≡ n
length-padded zero s = refl
length-padded (suc n) [] = ground (arith, length-padded n [])
length-padded (suc n) (c ∷ s) = ground (arith, length-padded n s)

pub length-terminated : (s : CStr) → length (terminated s) ≡ length s + 1
length-terminated [] = omega arith
length-terminated (c ∷ s) = omega (arith, length-terminated s)
