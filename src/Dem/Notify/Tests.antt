-- ===== src/Dem/Notify/Tests.antt =====
-- Examples for the notifications of src/dem/config.c.
use nvme_dem.Prelude.{◌≡◌, true, false, List, [], ◌∷◌, arith, codes, pos, All, ◌==◌}
use nvme_dem.Dem.State.{EventRequest, Host, GroupHostLink, Subsystem, Target, local_mgmt}
use nvme_dem.Dem.Notify.Lists.{Notification, in_notification_list, create_notification_list}
use nvme_dem.Dem.Notify.Once.{Once, create_notification_list-Once}
use nvme_dem.Dem.Notify.Send.{Peers, send_notifications, pending-send_notifications}

-- Two requests of one host and one of another.
abbrev requests : List EventRequest
requests =
    record { id = 1; ep = 11; nqn = codes "h1" }
    ∷ record { id = 2; ep = 12; nqn = codes "h2" }
    ∷ record { id = 3; ep = 11; nqn = codes "h1" }
    ∷ []

abbrev host : Host
host = record { alias = codes "one"; nqn = codes "h1" }

abbrev restricted : Subsystem
restricted = record {
  id = 7;
  nqn = codes "s";
  access = pos 0;
  host_list = host ∷ [];
  ns_list = [];
  logpage_list = [];
}

abbrev target : Target
target = record {
  id = 3;
  alias = codes "t";
  subsys_list = restricted ∷ [];
  portid_list = [];
  discovery_queue_list = [];
  unattached_logpage_list = [];
  mgmt_mode = local_mgmt;
  refresh = pos 0;
  log_page_retry_count = pos 0;
  refresh_countdown = pos 0;
  kato_countdown = pos 0;
  group_member = true;
  inb_connected = false;
}

abbrev hosts : List GroupHostLink
hosts = record { group = 5; alias = codes "one"; nqn = codes "h1" } ∷ []

abbrev peers : Peers
peers = record { has_cmd = λ ep. true; is_connected = λ ep. ep == 11 }

abbrev note : Notification
note = record { req = 2; ep = 12; nqn = codes "h2"; valid = true }

create_notification_list-Once_example :
    Once (create_notification_list requests)
    × All (λ r. in_notification_list (create_notification_list requests) r.nqn ≡ true) requests
create_notification_list-Once_example =
    create_notification_list-Once requests (omega arith, (omega arith, (omega arith, tt)))

pending-send_notifications_example :
    (send_notifications peers (note ∷ []) requests).pending
    ≡ record { id = 1; ep = 11; nqn = codes "h1" }
      ∷ record { id = 3; ep = 11; nqn = codes "h1" }
      ∷ []
pending-send_notifications_example = pending-send_notifications peers (note ∷ []) requests
