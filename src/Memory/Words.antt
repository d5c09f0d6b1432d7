-- ===== src/Memory/Words.antt =====
-- Integers of 1, 2 and 4 bytes in a buffer, lowest byte first, and their C conversions.
use nvme_dem.Prelude.{ℕ, ◌+◌, ◌*◌, ◌/◌, ◌%◌, ◌^◌, ◌<◌, ◌≡◌, List, [], ◌∷◌, arith}
use nvme_dem.Memory.{Mem}
use nvme_dem.Memory.Laws.{IsAt}

abbrev pub le8 : ℕ → List ℕ
le8 v = v % 256 ∷ []

abbrev pub le16 : ℕ → List ℕ
le16 v = v % 256 ∷ v / 256 % 256 ∷ []

abbrev pub le32 : ℕ → List ℕ
le32 v = v % 256 ∷ v / 256 % 256 ∷ v / 65536 % 256 ∷ v / 16777216 % 256 ∷ []

unfoldable pub read8 : Mem → ℕ → ℕ
read8 m a = m a

unfoldable pub read16 : Mem → ℕ → ℕ
read16 m a = m a + 256 * m (a + 1)

unfoldable pub read32 : Mem → ℕ → ℕ
read32 m a = m a + 256 * m (a + 1) + 65536 * m (a + 1 + 1) + 16777216 * m (a + 1 + 1 + 1)

pub read8-IsAt : (m : Mem) (a v : ℕ) → v < 256 → IsAt m a (le8 v) → read8 m a ≡ v
unfolding read8
read8-IsAt m a v h p = omega arith

pub read16-IsAt : (m : Mem) (a v : ℕ) → v < 2 ^ 16 → IsAt m a (le16 v) → read16 m a ≡ v
unfolding read16
read16-IsAt m a v h p = omega arith

pub read32-IsAt : (m : Mem) (a v : ℕ) → v < 2 ^ 32 → IsAt m a (le32 v) → read32 m a ≡ v
unfolding read32
read32-IsAt m a v h p = omega arith
