-- ===== src/Nvme/Fctype.antt =====
-- The fabrics command types of src/incl/nvme.h that the discovery controller uses.
use nvme_dem.Prelude.{ℕ}

abbrev pub property_set : ℕ
property_set = 0x00

abbrev pub connect : ℕ
connect = 0x01

abbrev pub property_get : ℕ
property_get = 0x04
