-- ===== src/Nvme/Feat.antt =====
-- The features of src/incl/nvme.h that the discovery controller uses.
use nvme_dem.Prelude.{ℕ}

abbrev pub async_event : ℕ
async_event = 0x0B

abbrev pub kato : ℕ
kato = 0x0F
