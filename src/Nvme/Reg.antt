-- ===== src/Nvme/Reg.antt =====
-- The controller registers of src/incl/nvme.h that the discovery controller uses.
use nvme_dem.Prelude.{ℕ}

abbrev pub cap : ℕ
cap = 0

abbrev pub vs : ℕ
vs = 0x08

abbrev pub cc : ℕ
cc = 0x14

abbrev pub csts : ℕ
csts = 0x1C
