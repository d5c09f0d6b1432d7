-- ===== src/Inb/Tests.antt =====
-- Examples for the in-band management messages of src/dem/config.c.
use nvme_dem.Prelude.{
  All, ◌≡◌, ◌⊎◌, refl, inl, inr, true, false, List, [], ◌∷◌, some, arith, any, codes, pos,
}
use nvme_dem.Memory.{Mem, received}
use nvme_dem.Dem.State.{Host, Ns, Subsystem, Target, in_band_mgmt}
use nvme_dem.Dem.LogPages.Refresh.{is_restricted}
use nvme_dem.Endpoint.Ops.{Call, Ops}
use nvme_dem.Endpoint.Config.{page, handle_mi_send}
use nvme_dem.Endpoint.Report.{NsDev, Iface, get_nsdev, get_xport}
use nvme_dem.Inb.Message.{set_ns, id_of, len_of, build}
use nvme_dem.Inb.Build.{nullb_devid}
use nvme_dem.Inb.Fields.{IsNqn}
use nvme_dem.Inb.Delivery.{IsSendable, meaning, handle_mi_send-build}
use nvme_dem.Inb.Send.{Peer, unanswered, answered}
use nvme_dem.Inb.Senders.{Round, Link}
use nvme_dem.Inb.Config.{config_target_inb}
use nvme_dem.Inb.Configured.{Made, calls, config_target_inb_lem, config_target_inb_succeeds}
use nvme_dem.Inb.Plan.{config_messages}
use nvme_dem.Inb.Merge.{Listed, shows}
use nvme_dem.Inb.Devices.{arrived, same_dev, get_inb_nsdevs, get_inb_nsdevs_lem}
use nvme_dem.Inb.Xports.{same_iface, get_inb_xports, get_inb_xports_lem}

abbrev host : Host
host = record { alias = codes "one"; nqn = codes "h1" }

abbrev subsystem : Subsystem
subsystem = record {
  id = 7;
  nqn = codes "s";
  access = pos 0;
  host_list = host ∷ [];
  ns_list = [];
  logpage_list = [];
}

abbrev ns : Ns
ns = record { nsid = pos 1; devid = nullb_devid; devns = pos 2 }

-- A target that keeps the calls that are made, the last one first.
abbrev recorder : Ops (List Call)
recorder = record { perform = λ c s. (true, c ∷ s) }

-- A page that is not clear.
abbrev dirty : Mem
dirty x = 165

handle_mi_send-build_example :
    handle_mi_send recorder
      (id_of (set_ns subsystem ns))
      (page (received (len_of (set_ns subsystem ns)) (build dirty (set_ns subsystem ns)) dirty))
      dirty
      []
    ≡ some (record {
      ret = 0;
      data_page = received (len_of (set_ns subsystem ns)) (build dirty (set_ns subsystem ns)) dirty;
      target = meaning (set_ns subsystem ns) ∷ [];
    })
handle_mi_send-build_example =
    handle_mi_send-build recorder (set_ns subsystem ns) dirty dirty []
      (((refl, tt), omega arith), omega arith, inl refl, omega arith)

abbrev peer : Peer (List Call)
peer = record { data_page = dirty; target = [] }

abbrev devices : List NsDev
devices = record { devid = nullb_devid; nsid = pos 0 } ∷ record { devid = pos 3; nsid = pos 1 } ∷ []

-- The list knows one of the devices, and one that is gone.
abbrev stale : List (Listed NsDev)
stale =
    record { key = record { devid = pos 3; nsid = pos 1 }; valid = false }
    ∷ record { key = record { devid = pos 5; nsid = pos 1 }; valid = true }
    ∷ []

get_inb_nsdevs_lem_example :
    any
      (shows same_dev (record { devid = pos 5; nsid = pos 1 }))
      (get_inb_nsdevs (some (arrived (get_nsdev dirty devices))) stale)
    ≡ any (λ d. same_dev d (record { devid = pos 5; nsid = pos 1 })) devices
get_inb_nsdevs_lem_example =
    get_inb_nsdevs_lem devices dirty stale (record { devid = pos 5; nsid = pos 1 })
      ((inl refl, omega arith), ((inr (omega arith), omega arith), tt)) (omega arith) (omega arith)

abbrev interface : Iface
interface = record { type = codes "rdma"; family = codes "ipv4"; address = codes "10.0" }

get_inb_xports_lem_example :
    any
      (shows same_iface interface)
      (get_inb_xports (some (arrived (get_xport dirty (interface ∷ [])))) [])
    ≡ any (λ i. same_iface i interface) (interface ∷ [])
get_inb_xports_lem_example =
    get_inb_xports_lem (interface ∷ []) dirty [] interface
      ((inl refl, inl refl, (refl, (refl, (refl, (refl, tt)))), omega arith), tt) (omega arith)
      (omega arith)

abbrev target : Target
target = record {
  id = 3;
  alias = codes "t";
  subsys_list = record subsystem { ns_list = ns ∷ [] } ∷ [];
  portid_list =
      record {
        id = 4;
        portid = pos 1;
        type = codes "rdma";
        family = codes "ipv4";
        address = codes "10.0";
        port_num = pos 4420;
      }
      ∷ [];
  discovery_queue_list = [];
  unattached_logpage_list = [];
  mgmt_mode = in_band_mgmt;
  refresh = pos 0;
  log_page_retry_count = pos 0;
  refresh_countdown = pos 0;
  kato_countdown = pos 0;
  group_member = false;
  inb_connected = false;
}

-- The first message is carried out twice: its first answer is lost.
abbrev fine : Round
fine = record { connects = true; first = answered; second = answered }

abbrev link : Link (List Call)
link = record {
  connected = true;
  peer = peer;
  script = record fine { first = unanswered } ∷ fine ∷ fine ∷ fine ∷ fine ∷ fine ∷ [];
}

subsystem-IsNqn : IsNqn subsystem.nqn
subsystem-IsNqn = ((refl, tt), omega arith)

host-IsNqn : IsNqn host.nqn
host-IsNqn = ((refl, (refl, tt)), omega arith)

target-IsSendable : All IsSendable (config_messages target)
unfolding is_restricted
target-IsSendable = (
  (omega arith, inl refl, inl refl, ((refl, (refl, (refl, (refl, tt)))), omega arith), omega arith),
  (
    (subsystem-IsNqn, omega arith),
    (
      host-IsNqn,
      (
        (subsystem-IsNqn, host-IsNqn),
        (
          (subsystem-IsNqn, omega arith, inl refl, omega arith),
          ((subsystem-IsNqn, omega arith), tt),
        ),
      ),
    ),
  ),
)

abbrev steady : Link (List Call)
steady = record link { script = fine ∷ fine ∷ fine ∷ fine ∷ fine ∷ fine ∷ [] }

config_target_inb_lem_example :
    ((config_target_inb recorder dirty true target link).ok ≡ false)
    ⊎ Made recorder
        (config_messages target)
        []
        (config_target_inb recorder dirty true target link).link.peer.target
config_target_inb_lem_example =
    config_target_inb_lem recorder dirty true target link target-IsSendable

config_target_inb_succeeds_example :
    ((config_target_inb recorder dirty true target steady).ok ≡ true)
    × ((config_target_inb recorder dirty true target steady).link.peer.target
        ≡ calls recorder (config_messages target) [])
unfolding is_restricted
config_target_inb_succeeds_example =
    config_target_inb_succeeds recorder dirty (λ c s. refl) true target steady target-IsSendable
      refl (refl, (refl, (refl, (refl, (refl, (refl, tt))))))
