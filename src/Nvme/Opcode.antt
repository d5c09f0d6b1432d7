-- ===== src/Nvme/Opcode.antt =====
-- The opcodes of src/incl/nvme.h that the controllers use.
use nvme_dem.Prelude.{ℕ}

abbrev pub get_log_page : ℕ
get_log_page = 0x02

abbrev pub identify : ℕ
identify = 0x06

abbrev pub set_features : ℕ
set_features = 0x09

abbrev pub get_features : ℕ
get_features = 0x0A

abbrev pub async_event : ℕ
async_event = 0x0C

abbrev pub keep_alive : ℕ
keep_alive = 0x18

abbrev pub fabrics : ℕ
fabrics = 0x7F

abbrev pub mi_send : ℕ
mi_send = 0x1D

abbrev pub mi_receive : ℕ
mi_receive = 0x1E
