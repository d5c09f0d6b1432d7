-- ===== src/Inb/Build.antt =====
-- The functions `build_..._inb` of src/dem/config.c. A message is what they store in memory that
-- `posix_memalign` returns: an argument, since nothing clears it. The offsets and sizes are those
-- of the structures in src/incl/nvme.h.
use nvme_dem.Prelude.{ℕ, if◌then◌else◌, CStr, ℤ, negsuc, eqb_ℤ}
use nvme_dem.Memory.{Mem, write, terminated, padded}
use nvme_dem.Memory.Words.{le8, le16, le32}
use nvme_dem.Dem.State.{Ns, Subsystem, PortId}
use nvme_dem.Dem.Discovery.Command.{of_int32}
use nvme_dem.Parse.Names.{to_trtype, to_adrfam}
use nvme_dem.Parse.Decimal.{print_int}

abbrev pub nqn_size : ℕ
nqn_size = 256

abbrev pub treq_not_required : ℕ
treq_not_required = 2

-- NULLB_DEVID and NVMF_NULLB_DEVID
abbrev pub nullb_devid : ℤ
nullb_devid = negsuc 0

abbrev pub wire_nullb_devid : ℕ
wire_nullb_devid = 255

-- `struct nvmf_port_config_entry`: trtype 0, adrfam 1, treq 3, portid 4, trsvcid 6, traddr 38.
abbrev pub port_config_size : ℕ
port_config_size = 294

unfoldable pub build_set_port_config_inb : Mem → PortId → Mem
build_set_port_config_inb m p =
    let m1 = write m 4 (le16 (of_int32 p.portid)) in
    let m2 = write m1 3 (le8 treq_not_required) in
    let m3 = write m2 0 (le8 (to_trtype p.type)) in
    let m4 = write m3 1 (le8 (to_adrfam p.family)) in
    let m5 = write m4 38 (terminated p.address) in write m5 6 (terminated (print_int p.port_num))

-- `struct nvmf_subsys_config_entry`: subnqn 0, allowanyhost 256.
abbrev pub subsys_config_size : ℕ
subsys_config_size = 257

unfoldable pub build_subsys_config_inb : Mem → Subsystem → Mem
build_subsys_config_inb m s =
    write (write m 256 (le8 (of_int32 s.access))) 0 (padded nqn_size s.nqn)

-- `struct nvmf_link_host_entry`: subnqn 0, hostnqn 256.
abbrev pub link_host_size : ℕ
link_host_size = 512

unfoldable pub build_link_host_inb : Mem → Subsystem → CStr → Mem
build_link_host_inb m s nqn = write (write m 0 (padded nqn_size s.nqn)) 256 (padded nqn_size nqn)

-- `struct nvmf_host_config_entry` and `struct nvmf_host_delete_entry`: hostnqn 0.
abbrev pub host_size : ℕ
host_size = 256

unfoldable pub build_host_config_inb : Mem → CStr → Mem
build_host_config_inb m nqn = write m 0 (padded nqn_size nqn)

unfoldable pub build_host_delete_inb : Mem → CStr → Mem
build_host_delete_inb m nqn = write m 0 (padded nqn_size nqn)

-- `struct nvmf_link_port_entry`: subnqn 0, portid 256.
abbrev pub link_port_size : ℕ
link_port_size = 258

unfoldable pub build_link_port_inb : Mem → Subsystem → PortId → Mem
build_link_port_inb m s p = write (write m 0 (padded nqn_size s.nqn)) 256 (le16 (of_int32 p.portid))

-- `struct nvmf_port_delete_entry`: portid 0.
abbrev pub port_delete_size : ℕ
port_delete_size = 2

unfoldable pub build_port_delete_inb : Mem → PortId → Mem
build_port_delete_inb m p = write m 0 (le16 (of_int32 p.portid))

-- `struct nvmf_subsys_delete_entry`: subnqn 0.
abbrev pub subsys_delete_size : ℕ
subsys_delete_size = 256

unfoldable pub build_subsys_delete_inb : Mem → Subsystem → Mem
build_subsys_delete_inb m s = write m 0 (padded nqn_size s.nqn)

-- `struct nvmf_ns_config_entry`: subnqn 0, nsid 256, deviceid 260, devicensid 264.
abbrev pub ns_config_size : ℕ
ns_config_size = 268

abbrev pub wire_devid : ℤ → ℕ
wire_devid d = if eqb_ℤ d nullb_devid then wire_nullb_devid else of_int32 d

unfoldable pub build_ns_config_inb : Mem → Subsystem → Ns → Mem
build_ns_config_inb m s n =
    let m1 = write m 0 (padded nqn_size s.nqn) in
    let m2 = write m1 256 (le32 (of_int32 n.nsid)) in
    let m3 = write m2 260 (le32 (wire_devid n.devid)) in write m3 264 (le32 (of_int32 n.devns))

-- `struct nvmf_ns_delete_entry`: subnqn 0, nsid 256.
abbrev pub ns_delete_size : ℕ
ns_delete_size = 260

unfoldable pub build_ns_delete_inb : Mem → Subsystem → Ns → Mem
build_ns_delete_inb m s n = write (write m 0 (padded nqn_size s.nqn)) 256 (le32 (of_int32 n.nsid))
