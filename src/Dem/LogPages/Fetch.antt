-- ===== src/Dem/LogPages/Fetch.antt =====
-- `get_logpages` of src/common/logpages.c. The peer's answers are arguments: what the first
-- `send_get_log_page` returns for the header alone, and the second for a size.
use nvme_dem.Prelude.{
  ℕ, zero, suc, ◌+◌, ◌*◌, ◌%◌, ◌^◌, ◌≤◌, ◌<◌, ◌≡◌, ◌≢◌, not, ◌||◌, List, [], ◌∷◌, Option, none,
  some, map, All, arith, ◌==◌, ltb, if◌then◌else◌, CStr, length, take,
}
use nvme_dem.Dem.State.{Entry}

-- The header, as the machine reads it after the byte order is undone, and the records behind it.
pub record LogHdr : Type 0 where
  pub genctr : ℕ
  pub numrec : ℕ
  pub entries : List Entry

-- `trim`: cut at the first space of the first `len` bytes.
unfoldable pub trim : ℕ → CStr → CStr
trim zero s = s
trim (suc n) [] = []
trim (suc n) (c ∷ s) = let rest = trim n s in if c == 32 then [] else c ∷ rest

unfoldable pub trim_entry : Entry → Entry
unfolding trim
trim_entry e = record e {
  traddr = trim 256 e.traddr;
  subnqn = trim 256 e.subnqn;
  trsvcid = trim 32 e.trsvcid;
}

-- 0 with the records, or -ENODATA, or -EINVAL. `overread` is undefined behaviour: the trimming
-- loop runs past the end of the buffer, whose size was reduced modulo 2^32.
pub data Fetched : Type 0 where
  nodata inval overread : Fetched
  records : List Entry → Fetched

-- `unsigned int log_size`, for a header and `n` records of 1024 bytes each.
abbrev pub log_size : ℕ → ℕ
log_size n = (1024 + 1024 * n) % 2 ^ 32

-- `*numrec = le32toh(hdr->numrec)` keeps the low 32 bits of the 64-bit field.
abbrev pub low32 : ℕ → ℕ
low32 n = n % 2 ^ 32

unfoldable pub take_records : ℕ → ℕ → LogHdr → Fetched
unfolding trim_entry
take_records numrec genctr hdr =
    if not (numrec == low32 hdr.numrec) || not (genctr == hdr.genctr)
    then inval
    else if ltb (log_size numrec) (1024 + 1024 * numrec)
    then overread
    else records (map trim_entry (take numrec hdr.entries))

unfoldable pub get_logpages : Option LogHdr → (ℕ → Option LogHdr) → Fetched
unfolding take_records
get_logpages none again = nodata
get_logpages (some hdr) again =
    let numrec = low32 hdr.numrec in
    if numrec == 0 then records [] else elim (again (log_size numrec)) [
      | none ↦ nodata
      | some hdr' ↦ take_records numrec hdr.genctr hdr'
    ]

-- A trimmed field has no space among the bytes that were looked at.
abbrev NoSpace : CStr → Type 0
NoSpace = All (λ c. c ≢ 32)

trim-NoSpace : (n : ℕ) (s : CStr) → length s ≤ n → NoSpace (trim n s)
unfolding trim
trim-NoSpace zero [] h = tt
trim-NoSpace zero (c ∷ s) h = absurd (omega arith)
trim-NoSpace (suc n) [] h = tt
trim-NoSpace (suc n) (c ∷ s) h = ground (arith, trim-NoSpace n s (omega arith))

size_wraps : (m : ℕ) → 2 ^ 22 ≤ m + 1 → log_size m < 1024 + 1024 * m
size_wraps m h = omega arith

-- A peer that announces 2^22 - 1 records or more, in two answers that agree, makes the trimming
-- loop leave the buffer.
pub get_logpages_overread :
    (hdr hdr' : LogHdr) (again : ℕ → Option LogHdr)
    → again (log_size (low32 hdr.numrec)) ≡ some hdr'
    → low32 hdr'.numrec ≡ low32 hdr.numrec
    → hdr'.genctr ≡ hdr.genctr
    → 2 ^ 22 ≤ low32 hdr.numrec + 1
    → get_logpages (some hdr) again ≡ overread
unfolding get_logpages
get_logpages_overread hdr hdr' again a n g big = ground (arith, size_wraps (low32 hdr.numrec) big)
