-- ===== src/Nvme.antt =====
-- The numbers of src/incl/nvme.h.
pub mod Opcode
pub mod Fctype
pub mod Sc
pub mod Reg
pub mod Feat
pub mod Mi
