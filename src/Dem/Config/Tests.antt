-- ===== src/Dem/Config/Tests.antt =====
-- Examples for the operations on targets of src/dem/config.c.
use nvme_dem.Prelude.{
  ◌≡◌, refl, Bool, true, false, List, [], ◌∷◌, none, some, codes, streq, ℤ, pos, eqb_ℤ,
}
use nvme_dem.Dem.State.{Host, Ns, Subsystem, PortId, CtrlQueue, Target, in_band_mgmt, Dem}
use nvme_dem.Dem.LogPages.Refresh.{Fabric}
use nvme_dem.Dem.Notify.Send.{Peers}
use nvme_dem.Dem.Groups.Ops.{find_target}
use nvme_dem.Dem.Config.Find.{find_subsys, find_portid, find_ns}
use nvme_dem.Dem.Config.Remote.{Order, Remote, del_portid_at}
use nvme_dem.Dem.Config.Namespaces.{set_ns, del_ns}
use nvme_dem.Dem.Config.Namespaces.Lookup.{lookup_ns}
use nvme_dem.Dem.Config.Namespaces.Map.{set_ns_lem, del_ns_lem}
use nvme_dem.Dem.Config.Namespaces.Distinct.{AllDistinct, namespaces_distinct}
use nvme_dem.Dem.Config.Ports.{del_portid}
use nvme_dem.Dem.Config.Subsystems.{NewSubsys}
use nvme_dem.Dem.Config.Targets.{del_target}
use nvme_dem.Dem.Config.Targets.Deleted.{del_target_lem}
use nvme_dem.Dem.Config.Ports.Gone.{WithoutPort, del_portid_lem}

-- An endpoint that takes every order and keeps the orders, the last one first.
abbrev remote : Remote (List Order)
remote = record {
  oob = record { address = codes "10.0.0.2"; port = pos 80 };
  send = λ o w. (true, o ∷ w);
}

abbrev peers : Peers
peers = record { has_cmd = λ ep. true; is_connected = λ ep. true }

abbrev fabric : Fabric
fabric = record {
  connects = λ q. false;
  kato_refused = λ q. false;
  header = λ q. none;
  pages = λ q n. none;
}

abbrev devices : Target → ℤ → ℤ → Bool
devices t devid devns = eqb_ℤ devid (pos 0)

abbrev host : Host
host = record { alias = codes "one"; nqn = codes "h1" }

abbrev space : Ns
space = record { nsid = pos 1; devid = pos 0; devns = pos 1 }

abbrev subsystem : Subsystem
subsystem = record {
  id = 7;
  nqn = codes "s";
  access = pos 0;
  host_list = host ∷ [];
  ns_list = space ∷ record space { nsid = pos 2 } ∷ [];
  logpage_list = [];
}

abbrev bare : Subsystem
bare = record subsystem { id = 8; nqn = codes "b"; host_list = [] }

abbrev port : PortId
port = record {
  id = 4;
  portid = pos 1;
  type = codes "rdma";
  family = codes "ipv4";
  address = codes "10.0.0.1";
  port_num = pos 4420;
}

abbrev queue : CtrlQueue
queue = record {
  portid = 4;
  subsys = some 7;
  hostnqn = codes "h1";
  connected = false;
  failed_kato = false;
}

abbrev target : Target
target = record {
  id = 3;
  alias = codes "t";
  subsys_list = subsystem ∷ bare ∷ [];
  portid_list = port ∷ record port { id = 5; portid = pos 2 } ∷ [];
  discovery_queue_list = queue ∷ record queue { portid = 5 } ∷ [];
  unattached_logpage_list = [];
  mgmt_mode = in_band_mgmt;
  refresh = pos 0;
  log_page_retry_count = pos 0;
  refresh_countdown = pos 0;
  kato_countdown = pos 0;
  group_member = false;
  inb_connected = false;
}

abbrev dem : Dem
dem = record {
  target_list = target ∷ [];
  group_list = [];
  host_list = [];
  aen_req_list = record { id = 1; ep = 11; nqn = codes "h1" } ∷ [];
}

found : find_target (codes "t") dem ≡ some target
unfolding find_target streq
found = refl

listed : find_subsys (codes "s") target.subsys_list ≡ some subsystem
unfolding find_subsys streq
listed = refl

listed_port : find_portid (pos 1) target.portid_list ≡ some port
unfolding find_portid
listed_port = refl

set_ns_lem_example :
    lookup_ns
      (codes "t")
      (codes "s")
      (pos 1)
      (set_ns remote devices
        (codes "t")
        (codes "s")
        (some (record space { devns = pos 5 }))
        dem
        []).dem
    ≡ some (record space { devns = pos 5 })
unfolding streq
set_ns_lem_example =
    set_ns_lem remote (codes "t") (codes "s") dem [] target subsystem found listed devices
      (record space { devns = pos 5 }) (codes "t") (codes "s") (pos 1) refl

del_ns_lem_example :
    lookup_ns
      (codes "t")
      (codes "s")
      (pos 1)
      (del_ns remote (codes "t") (codes "s") (pos 1) true dem []).dem
    ≡ none
unfolding streq find_ns
del_ns_lem_example =
    del_ns_lem remote (codes "t") (codes "s") dem [] target subsystem found listed (pos 1) space
      (codes "t") (codes "s") (pos 1) refl (refl, (refl, tt))

namespaces_distinct_example :
    AllDistinct (set_ns remote devices (codes "t") (codes "s") (some space) dem []).dem
    × AllDistinct (del_ns remote (codes "t") (codes "s") (pos 1) true dem []).dem
namespaces_distinct_example =
    namespaces_distinct remote devices (codes "t") (codes "s") (some space) (pos 1) true dem []
      (((refl, (refl, tt)), ((refl, (refl, tt)), tt)), tt)

del_portid_lem_example :
    (t' : Target) × (find_target
        (codes "t")
        (del_portid remote peers (codes "t") (pos 1) true dem []).dem
      ≡ some t')
    × WithoutPort port target t'
    × ((del_portid remote peers (codes "t") (pos 1) true dem []).world
        ≡ (del_portid_at remote in_band_mgmt port []).1)
del_portid_lem_example =
    del_portid_lem remote peers (codes "t") (pos 1) dem [] target port found listed_port
      (refl, (refl, tt))

abbrev wider : NewSubsys
wider = record { nqn = codes "s"; access = pos 1 }

abbrev new_host : Host
new_host = record { alias = codes "two"; nqn = codes "h2" }

del_target_lem_example :
    (find_target (codes "t") (del_target remote peers (codes "t") true dem []).dem ≡ none)
    × ((del_target remote peers (codes "t") true dem []).dem.group_list ≡ [])
unfolding streq
del_target_lem_example =
    del_target_lem remote peers (codes "t") dem [] target found (refl, tt) (codes "t")
