-- ===== src/Inb/Message.antt =====
-- The configuration messages of src/dem/config.c: which structure each sender builds, and under
-- which id and size it goes out (`config_portid_inb`, `config_subsys_inb`, the `send_..._inb`).
use nvme_dem.Prelude.{ℕ, CStr}
use nvme_dem.Memory.{Mem}
use nvme_dem.Nvme.Mi
use nvme_dem.Dem.State.{Host, Ns, Subsystem, PortId}
use nvme_dem.Inb.Build.{
  port_config_size, subsys_config_size, link_host_size, host_size, link_port_size, port_delete_size,
  subsys_delete_size, ns_config_size, ns_delete_size, build_set_port_config_inb,
  build_subsys_config_inb, build_link_host_inb, build_host_config_inb, build_host_delete_inb,
  build_link_port_inb, build_port_delete_inb, build_subsys_delete_inb, build_ns_config_inb,
  build_ns_delete_inb,
}

pub data Message : Type 0 where
  reset : Message
  set_port del_port : PortId → Message
  link_port unlink_port : Subsystem → PortId → Message
  set_subsys del_subsys : Subsystem → Message
  set_ns del_ns : Subsystem → Ns → Message
  set_host del_host : CStr → Message
  link_host unlink_host : Subsystem → Host → Message

unfoldable pub id_of : Message → ℕ
id_of reset = Mi.reset_config
id_of (set_port p) = Mi.set_port_config
id_of (del_port p) = Mi.del_port_config
id_of (link_port s p) = Mi.link_port_config
id_of (unlink_port s p) = Mi.unlink_port_config
id_of (set_subsys s) = Mi.set_subsys_config
id_of (del_subsys s) = Mi.del_subsys_config
id_of (set_ns s n) = Mi.set_ns_config
id_of (del_ns s n) = Mi.del_ns_config
id_of (set_host nqn) = Mi.set_host_config
id_of (del_host nqn) = Mi.del_host_config
id_of (link_host s h) = Mi.link_host_config
id_of (unlink_host s h) = Mi.unlink_host_config

unfoldable pub len_of : Message → ℕ
len_of reset = 0
len_of (set_port p) = port_config_size
len_of (del_port p) = port_delete_size
len_of (link_port s p) = link_port_size
len_of (unlink_port s p) = link_port_size
len_of (set_subsys s) = subsys_config_size
len_of (del_subsys s) = subsys_delete_size
len_of (set_ns s n) = ns_config_size
len_of (del_ns s n) = ns_delete_size
len_of (set_host nqn) = host_size
len_of (del_host nqn) = host_size
len_of (link_host s h) = link_host_size
len_of (unlink_host s h) = link_host_size

-- A reset sends no data.
unfoldable pub build : Mem → Message → Mem
unfolding build_set_port_config_inb build_subsys_config_inb build_link_host_inb
    build_host_config_inb build_host_delete_inb build_link_port_inb build_port_delete_inb
    build_subsys_delete_inb build_ns_config_inb build_ns_delete_inb
build m reset = m
build m (set_port p) = build_set_port_config_inb m p
build m (del_port p) = build_port_delete_inb m p
build m (link_port s p) = build_link_port_inb m s p
build m (unlink_port s p) = build_link_port_inb m s p
build m (set_subsys s) = build_subsys_config_inb m s
build m (del_subsys s) = build_subsys_delete_inb m s
build m (set_ns s n) = build_ns_config_inb m s n
build m (del_ns s n) = build_ns_delete_inb m s n
build m (set_host nqn) = build_host_config_inb m nqn
build m (del_host nqn) = build_host_delete_inb m nqn
build m (link_host s h) = build_link_host_inb m s h.nqn
build m (unlink_host s h) = build_link_host_inb m s h.nqn
