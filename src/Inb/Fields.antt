-- ===== src/Inb/Fields.antt =====
-- The fields of a message, after its transfer into the page of an endpoint
-- (src/endpoint/pseudo_target.c).
use nvme_dem.Prelude.{
  ℕ, ◌+◌, ◌-◌, ◌^◌, ◌≤◌, ◌<◌, ◌≡◌, ap, ◌∙◌, some, arith, CStr, length, ℤ, pos, negsuc,
}
use nvme_dem.Memory.{Mem, padded, received}
use nvme_dem.Memory.Laws.{
  IsAt, IsText, IsAt-received, IsAt-terminated, read_str-IsAt, length-padded,
}
use nvme_dem.Memory.Words.{
  le8, le16, le32, read8, read16, read32, read8-IsAt, read16-IsAt, read32-IsAt,
}
use nvme_dem.Dem.Discovery.Command.{of_int32, to_int32}
use nvme_dem.Endpoint.Config.{text_at, page_size}
use nvme_dem.Inb.Build.{nqn_size}

-- A name that fits its field with the terminating 0.
abbrev pub IsNqn : CStr → Type 0
IsNqn s = IsText s × (length s < nqn_size)

abbrev pub InRange : ℕ → ℤ → Type 0
InRange n (pos k) = k < n
InRange n (negsuc k) = ⊥

-- A name at an offset of the message, where the message has its whole field.
pub text_at-name :
    (len a : ℕ) (sent old : Mem) (s : CStr)
    → IsNqn s
    → a + nqn_size ≤ len
    → a ≤ 256
    → IsAt sent a (padded nqn_size s)
    → text_at (received len sent old) a ≡ some s
text_at-name len a sent old s n h k p =
    read_str-IsAt (page_size - a) (received len sent old) a s n.0 (omega (arith, n.1)) (
      IsAt-terminated (received len sent old) a nqn_size s n.1 (
        IsAt-received len sent old a (padded nqn_size s) (omega (arith, length-padded nqn_size s))
          p))

pub of_int32_small :
    (z : ℤ) (n : ℕ)
    → n ≤ 2 ^ 31
    → InRange n z
    → (of_int32 z < n) × (pos (of_int32 z) ≡ z) × (to_int32 (of_int32 z) ≡ z)
of_int32_small (pos k) n h r = (omega arith, ground arith, ground arith)
of_int32_small (negsuc k) n h r = absurd r

-- An integer at an offset.
pub word16_at :
    (len a : ℕ) (sent old : Mem) (z : ℤ)
    → InRange (2 ^ 16) z
    → a + 2 ≤ len
    → IsAt sent a (le16 (of_int32 z))
    → pos (read16 (received len sent old) a) ≡ z
word16_at len a sent old z r h p =
    let w = of_int32_small z (2 ^ 16) (omega arith) r in
    ap pos (
      read16-IsAt (received len sent old) a (of_int32 z) w.0
        (IsAt-received len sent old a (le16 (of_int32 z)) (omega arith) p))
    ∙ w.1

pub word32_at :
    (len a v : ℕ) (sent old : Mem)
    → v < 2 ^ 32
    → a + 4 ≤ len
    → IsAt sent a (le32 v)
    → read32 (received len sent old) a ≡ v
word32_at len a v sent old r h p =
    read32-IsAt (received len sent old) a v r
      (IsAt-received len sent old a (le32 v) (omega arith) p)

pub word8_at :
    (len a v : ℕ) (sent old : Mem)
    → v < 256
    → a + 1 ≤ len
    → IsAt sent a (le8 v)
    → read8 (received len sent old) a ≡ v
word8_at len a v sent old r h p =
    read8-IsAt (received len sent old) a v r (IsAt-received len sent old a (le8 v) (omega arith) p)
