-- ===== src/Dem/Daemon/Tests.antt =====
-- Examples for the discovery queues and keep-alives of src/dem/daemon.c.
use nvme_dem.Prelude.{true, false, [], ◌∷◌, codes, none, some, pos, List}
use nvme_dem.Dem.State.{Subsystem, PortId, CtrlQueue, Target, local_mgmt}
use nvme_dem.Dem.LogPages.Refresh.{Fabric}
use nvme_dem.Dem.Daemon.Alive.{Peer}

abbrev subsystem : Subsystem
subsystem = record {
  id = 7;
  nqn = codes "s";
  access = pos 0;
  host_list = record { alias = codes "one"; nqn = codes "h1" } ∷ [];
  ns_list = [];
  logpage_list = [];
}

abbrev port : PortId
port = record {
  id = 4;
  portid = pos 1;
  type = codes "rdma";
  family = codes "ipv4";
  address = codes "10.0.0.1";
  port_num = pos 4420;
}

abbrev live : CtrlQueue
live = record {
  portid = 4;
  subsys = some 7;
  hostnqn = codes "h1";
  connected = true;
  failed_kato = false;
}

abbrev target : Target
target = record {
  id = 3;
  alias = codes "t";
  subsys_list = subsystem ∷ [];
  portid_list = port ∷ [];
  discovery_queue_list = [];
  unattached_logpage_list = [];
  mgmt_mode = local_mgmt;
  refresh = pos 0;
  log_page_retry_count = pos 0;
  refresh_countdown = pos 0;
  kato_countdown = pos 1;
  group_member = false;
  inb_connected = false;
}

abbrev busy : Target
busy = record target { discovery_queue_list = live ∷ record live { connected = false } ∷ [] }

abbrev fabric : Fabric
fabric = record {
  connects = λ dq. true;
  kato_refused = λ dq. false;
  header = λ dq. none;
  pages = λ dq n. none;
}

abbrev peer : Peer
peer = record { alive = λ dq. true; inb_connects = true; inb_alive = true }

-- A target that waits after a failed connection.
abbrev waiting : Target
waiting = record target { log_page_retry_count = pos 3; refresh_countdown = pos 5 }

abbrev counting : Target
counting = record target { log_page_retry_count = pos 0; refresh_countdown = pos 3 }

-- Two queues of the subsystem, and one of another.
abbrev three : List CtrlQueue
three = live ∷ record live { subsys = some 8 } ∷ live ∷ []
