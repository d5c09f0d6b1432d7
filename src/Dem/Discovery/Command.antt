-- ===== src/Dem/Discovery/Command.antt =====
-- What src/dem/pseudo_target.c reads of a command and writes of a completion.
use nvme_dem.Prelude.{
  ℕ, ◌+◌, ◌*◌, ◌%◌, ◌-◌, ◌^◌, ltb, if◌then◌else◌, CStr, codes, ℤ, pos, negsuc, pos_part, neg_part,
}

-- `struct nvme_command`: the fields of its variants, after the byte order is undone.
pub record Command : Type 0 where
  pub opcode : ℕ
  pub command_id : ℕ
  pub fctype : ℕ
  pub offset : ℕ
  pub value : ℕ
  pub cdw10 : ℕ
  pub cdw11 : ℕ
  pub cns : ℕ
  pub length0 : ℕ
  pub length1 : ℕ
  pub length2 : ℕ

-- Three bytes, each shifted into its own place.
unfoldable pub get_unaligned_le24 : ℕ → ℕ → ℕ → ℕ
get_unaligned_le24 p0 p1 p2 = p0 + p1 * 2 ^ 8 + p2 * 2 ^ 16

-- `struct nvme_completion`
pub record Completion : Type 0 where
  pub command_id : ℕ
  pub status : ℕ
  pub result : ℕ

-- `struct nvmf_connect_data`
pub record ConnectData : Type 0 where
  pub cntlid : ℕ
  pub subsysnqn : CStr
  pub hostnqn : CStr

abbrev pub disc_subsys_name : CStr
disc_subsys_name = codes "nqn.2014-08.org.nvmexpress.discovery"

-- An unsigned 32-bit value stored in an `int`, and read back.
abbrev pub to_int32 : ℕ → ℤ
to_int32 n = if ltb n (2 ^ 31) then pos n else negsuc (2 ^ 32 - n - 1)

abbrev pub of_int32 : ℤ → ℕ
of_int32 i = (pos_part i + 2 ^ 32 - neg_part i) % 2 ^ 32
