-- ===== src/Dem/LogPages/Tests.antt =====
-- Examples for the log pages of src/dem/logpages.c.
use nvme_dem.Prelude.{streq, ◌≡◌, refl, true, false, List, [], ◌∷◌, CStr, codes, some, pos}
use nvme_dem.Dem.State.{Entry, Subsystem, CtrlQueue, Target, local_mgmt}
use nvme_dem.Dem.LogPages.Fetch.{LogHdr}
use nvme_dem.Dem.LogPages.Save.{save_log_pages, invalidate_log_pages}
use nvme_dem.Dem.LogPages.Refresh.{Fabric, refresh_log_pages}
use nvme_dem.Dem.LogPages.Lookup.{page_for, is_same}
use nvme_dem.Dem.LogPages.Recorded.{save_log_pages-recorded}
use nvme_dem.Dem.LogPages.Fresh.{Fresh}
use nvme_dem.Dem.LogPages.Distinct.{AllDistinct, save_log_pages-Distinct}
use nvme_dem.Dem.LogPages.Sound.{Reported, refresh_log_pages-Fresh}

abbrev record_of : CStr → CStr → Entry
record_of nqn traddr = record {
  trtype = 1;
  adrfam = 1;
  subtype = 2;
  treq = 2;
  portid = 1;
  cntlid = 0xffff;
  trsvcid = codes "4420";
  subnqn = nqn;
  traddr = traddr;
  qptype = 0;
  prtype = 0;
  cms = 0;
  pkey = 0;
}

abbrev known : Entry
known = record_of (codes "nqn.a") (codes "10.0.0.1")

abbrev unknown : Entry
unknown = record_of (codes "nqn.b") (codes "10.0.0.2")

abbrev subsystem : Subsystem
subsystem = record {
  id = 7;
  nqn = codes "nqn.a";
  access = pos 0;
  host_list = record { alias = codes "h"; nqn = codes "nqn.h" } ∷ [];
  ns_list = [];
  logpage_list = record { portid = 4; e = known; valid = true } ∷ [];
}

abbrev queue : CtrlQueue
queue = record {
  portid = 4;
  subsys = some 7;
  hostnqn = codes "nqn.h";
  connected = false;
  failed_kato = false;
}

abbrev target : Target
target = record {
  id = 3;
  alias = codes "t";
  subsys_list = subsystem ∷ [];
  portid_list = [];
  discovery_queue_list = queue ∷ [];
  unattached_logpage_list = [];
  mgmt_mode = local_mgmt;
  refresh = pos 0;
  log_page_retry_count = pos 0;
  refresh_countdown = pos 0;
  kato_countdown = pos 0;
  group_member = false;
  inb_connected = false;
}

abbrev log : List Entry
log = known ∷ unknown ∷ []

abbrev header : LogHdr
header = record { genctr = 5; numrec = 2; entries = log }

abbrev fabric : Fabric
fabric = record {
  connects = λ dq. true;
  kato_refused = λ dq. false;
  header = λ dq. some header;
  pages = λ dq n. some header;
}

-- A later record of the same address, as of another controller.
abbrev newest : Entry
newest = record known { cntlid = 5; portid = 2 }

save_log_pages-recorded_example :
    page_for known (save_log_pages 4 target (known ∷ unknown ∷ newest ∷ []))
    ≡ some (record { portid = 4; e = newest; valid = true })
unfolding is_same streq
save_log_pages-recorded_example =
    save_log_pages-recorded 4 known (known ∷ unknown ∷ newest ∷ []) target

save_log_pages-Distinct_example :
    AllDistinct (invalidate_log_pages target) × AllDistinct (save_log_pages 4 target log)
save_log_pages-Distinct_example = save_log_pages-Distinct 4 log target ((refl, tt), tt)

refresh_log_pages-Fresh_example :
    Fresh (Reported fabric (queue ∷ [])) (refresh_log_pages fabric target)
refresh_log_pages-Fresh_example = refresh_log_pages-Fresh fabric target
