-- ===== src/Parse/Names.antt =====
-- The name tables of src/common/parse.c and src/incl/utils.h, and their inverses.
use nvme_dem.Prelude.{
  ℕ, ◌≡◌, ◌||◌, List, [], ◌∷◌, Option, none, some, ◌==◌, ltb, if◌then◌else◌, CStr, codes, streq,
  arith,
}

-- A sparse array of strings: its size and the entries that are not null.
pub record Table : Type 0 where
  pub size : ℕ
  pub entries : List (ℕ × CStr)

abbrev pub entry : List (ℕ × CStr) → ℕ → Option CStr
entry [] i = none
entry ((j, s) ∷ es) i = let rest = entry es i in if j == i then some s else rest

abbrev pub or_unrecognized : Option CStr → CStr
or_unrecognized none = codes "unrecognized"
or_unrecognized (some s) = s

unfoldable pub arg_str : Table → ℕ → CStr
arg_str t idx =
    if ltb idx t.size then or_unrecognized (entry t.entries idx) else codes "unrecognized"

-- The array of `trtypes` has its last entry at NVMF_TRTYPE_LOOP, 254.
abbrev pub trtypes : Table
trtypes = record {
  size = 255;
  entries = (1, codes "rdma") ∷ (2, codes "fc") ∷ (254, codes "loop") ∷ (3, codes "tcp") ∷ [];
}

unfoldable pub trtype_str : ℕ → CStr
unfolding arg_str
trtype_str = arg_str trtypes

abbrev pub adrfams : Table
adrfams = record {
  size = 5;
  entries =
      (0, codes "pci")
      ∷ (1, codes "ipv4")
      ∷ (2, codes "ipv6")
      ∷ (3, codes "ib")
      ∷ (4, codes "fc")
      ∷ [];
}

unfoldable pub adrfam_str : ℕ → CStr
unfolding arg_str
adrfam_str = arg_str adrfams

abbrev pub subtypes : Table
subtypes = record {
  size = 3;
  entries = (1, codes "discovery subsystem") ∷ (2, codes "nvme subsystem") ∷ [];
}

unfoldable pub subtype_str : ℕ → CStr
unfolding arg_str
subtype_str = arg_str subtypes

abbrev pub treqs : Table
treqs = record {
  size = 3;
  entries = (0, codes "not specified") ∷ (1, codes "required") ∷ (2, codes "not required") ∷ [];
}

unfoldable pub treq_str : ℕ → CStr
unfolding arg_str
treq_str = arg_str treqs

unfoldable pub to_trtype : CStr → ℕ
to_trtype s =
    if streq s (codes "rdma")
    then 1
    else if streq s (codes "fc")
    then 2
    else if streq s (codes "tcp")
    then 3
    else 0

unfoldable pub to_adrfam : CStr → ℕ
to_adrfam s =
    if streq s (codes "ipv4")
    then 1
    else if streq s (codes "ipv6")
    then 2
    else if streq s (codes "fc")
    then 4
    else 0

-- Reading back the printed transport type gives the type for RDMA, FC and TCP, and 0 for every
-- other number, LOOP among them.
pub to_trtype-trtype_str :
    (t : ℕ) → to_trtype (trtype_str t) ≡ (if t == 1 || t == 2 || t == 3 then t else 0)
unfolding to_trtype trtype_str streq
to_trtype-trtype_str t = ground arith

-- Reading back the printed address family gives the family for IPv4, IPv6 and FC, and 0 for every
-- other number.
pub to_adrfam-adrfam_str :
    (a : ℕ) → to_adrfam (adrfam_str a) ≡ (if a == 1 || a == 2 || a == 4 then a else 0)
unfolding to_adrfam adrfam_str streq
to_adrfam-adrfam_str a = ground arith
