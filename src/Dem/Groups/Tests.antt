-- ===== src/Dem/Groups/Tests.antt =====
-- Examples for the groups of src/dem/config.c.
use nvme_dem.Prelude.{refl, true, false, [], ◌∷◌, codes, pos}
use nvme_dem.Dem.State.{Group, Target, Dem, local_mgmt}
use nvme_dem.Dem.Notify.Send.{Peers}
use nvme_dem.Dem.Groups.Ops.{add_target_to_group, del_target_from_group}
use nvme_dem.Dem.Groups.Member.{IsConsistent, member_exact}

abbrev target : Target
target = record {
  id = 3;
  alias = codes "t";
  subsys_list = [];
  portid_list = [];
  discovery_queue_list = [];
  unattached_logpage_list = [];
  mgmt_mode = local_mgmt;
  refresh = pos 0;
  log_page_retry_count = pos 0;
  refresh_countdown = pos 0;
  kato_countdown = pos 0;
  group_member = true;
  inb_connected = false;
}

abbrev group : Group
group = record { id = 5; name = codes "g"; target_list = 3 ∷ [] }

abbrev other : Group
other = record { id = 6; name = codes "k"; target_list = [] }

-- One target, in the first of two groups, and a host in that group.
abbrev dem : Dem
dem = record {
  target_list = target ∷ [];
  group_list = group ∷ other ∷ [];
  host_list = record { group = 5; alias = codes "one"; nqn = codes "h1" } ∷ [];
  aen_req_list = record { id = 1; ep = 11; nqn = codes "h1" } ∷ [];
}

abbrev peers : Peers
peers = record { has_cmd = λ ep. true; is_connected = λ ep. true }

member_exact_example :
    IsConsistent (add_target_to_group peers 6 (codes "t") dem).dem
    × IsConsistent (del_target_from_group peers 6 (codes "t") dem).dem
member_exact_example = member_exact peers 6 (codes "t") dem refl (refl, tt)
