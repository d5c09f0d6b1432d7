-- ===== src/Nvme/Mi.antt =====
-- The configuration messages of the management interface (src/incl/nvme.h).
use nvme_dem.Prelude.{ℕ}

abbrev pub reset_config : ℕ
reset_config = 0

abbrev pub set_port_config : ℕ
set_port_config = 1

abbrev pub del_port_config : ℕ
del_port_config = 2

abbrev pub link_port_config : ℕ
link_port_config = 3

abbrev pub unlink_port_config : ℕ
unlink_port_config = 4

abbrev pub set_subsys_config : ℕ
set_subsys_config = 5

abbrev pub del_subsys_config : ℕ
del_subsys_config = 6

abbrev pub set_ns_config : ℕ
set_ns_config = 7

abbrev pub del_ns_config : ℕ
del_ns_config = 8

abbrev pub set_host_config : ℕ
set_host_config = 9

abbrev pub del_host_config : ℕ
del_host_config = 10

abbrev pub link_host_config : ℕ
link_host_config = 11

abbrev pub unlink_host_config : ℕ
unlink_host_config = 12

abbrev pub get_ns_config : ℕ
get_ns_config = 1

abbrev pub get_xport_config : ℕ
get_xport_config = 2
