-- ===== src/Nvme/Sc.antt =====
-- The status codes of src/incl/nvme.h that the controllers use.
use nvme_dem.Prelude.{ℕ}

abbrev pub success : ℕ
success = 0x0

abbrev pub invalid_opcode : ℕ
invalid_opcode = 0x1

abbrev pub invalid_field : ℕ
invalid_field = 0x2

abbrev pub internal : ℕ
internal = 0x6

abbrev pub bad_attributes : ℕ
bad_attributes = 0x180

abbrev pub connect_invalid_param : ℕ
connect_invalid_param = 0x182

abbrev pub connect_invalid_host : ℕ
connect_invalid_host = 0x184

abbrev pub write_fault : ℕ
write_fault = 0x280

abbrev pub read_error : ℕ
read_error = 0x281

abbrev pub dnr : ℕ
dnr = 0x4000

abbrev pub feature_not_changeable : ℕ
feature_not_changeable = 0x10E

abbrev pub access_denied : ℕ
access_denied = 0x286
