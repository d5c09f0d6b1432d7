-- ===== src/Dem/Config/Targets.antt =====
-- `config_target_oob`, `add_target`, `send_del_target` and `del_target` of src/dem/config.c.
pub mod Plan
pub mod Deleted
use nvme_dem.Prelude.{
  ◌++◌, strncpy, pos, ℕ, Bool, true, false, List, [], ◌∷◌, Option, none, some, if◌then◌else◌, CStr,
  codes,
}
use nvme_dem.Dem.State.{
  Host, Subsystem, PortId, Target, MgmtMode, local_mgmt, in_band_mgmt, out_of_band_mgmt, Dem,
}
use nvme_dem.Dem.LogPages.Refresh.{Fabric, refresh_log_pages}
use nvme_dem.Dem.Notify.Lists.{create_event_host_list_for_target}
use nvme_dem.Dem.Notify.Send.{Peers, send_notifications}
use nvme_dem.Dem.Groups.Ops.{max_alias_size, find_target, del_first}
use nvme_dem.Dem.Config.Find.{has_alias}
use nvme_dem.Dem.Config.Remote.{
  Order, delete_at, Remote, uri, before, config_portid, config_subsys_oob, del_subsys_at,
  del_host_at, del_portid_at, send_each,
}
use nvme_dem.Dem.Config.Result.{Ret, success, refused, no_note, Done, stopped, announced}

-- `alloc_target`
abbrev pub alloc_target : ℕ → CStr → Target
alloc_target fresh alias = record {
  id = fresh;
  alias = strncpy alias max_alias_size;
  subsys_list = [];
  portid_list = [];
  discovery_queue_list = [];
  unattached_logpage_list = [];
  mgmt_mode = local_mgmt;
  refresh = pos 0;
  log_page_retry_count = pos 0;
  refresh_countdown = pos 0;
  kato_countdown = pos 0;
  group_member = false;
  inb_connected = false;
}

-- `none` is -EEXIST, for every error of the stored configuration.
unfoldable pub add_target : ℕ → CStr → Bool → Dem → Option Dem
add_target fresh alias json d =
    if json
    then some (record d { target_list = d.target_list ++ alloc_target fresh alias ∷ [] })
    else none

module _ {W : Type 0} (r : Remote W) where
  -- A loop that ends at the first failure.
  unfoldable pub until_failure : {A : Type 0} → (A → W → Bool × W) → List A → W → Bool × W
  until_failure f [] w = (true, w)
  until_failure f (x ∷ xs) w = before r (f x w) (λ v. until_failure f xs v)

  -- The target is refreshed unless a port failed, also where a subsystem failed.
  unfoldable pub config_target_oob : Fabric → Target → W → Bool × Target × W
  unfolding until_failure
  config_target_oob f t w =
      let (ok, v) = until_failure (config_portid r out_of_band_mgmt) t.portid_list w in
      if ok
      then (let (ok', v') = until_failure (config_subsys_oob r t.portid_list) t.subsys_list v in
          (ok', refresh_log_pages f t, v'))
      else (ok, t, v)

  -- The order that resets an endpoint. `reset` is what becomes of the in-band one, which is
  -- `send_reset_config` of Inb/Senders; the result of either is dropped.
  unfoldable pub send_del_target : (W → Bool × W) → MgmtMode → W → W
  send_del_target reset in_band_mgmt w = (reset w).1
  send_del_target reset out_of_band_mgmt w = (r.send (delete_at r (codes "config")) w).1
  send_del_target reset local_mgmt w = w

  -- The subsystem, and then each of its hosts by its alias.
  abbrev pub del_subsys_hosts : MgmtMode → Subsystem → W → Bool × W
  del_subsys_hosts mode s w =
      let (ok, v) = del_subsys_at r mode s w in
      (ok, send_each r (λ h. del_host_at r mode h.alias) s.host_list v)

  abbrev pub clear_target : Target → W → W
  clear_target t w =
      send_each r (del_portid_at r t.mgmt_mode) t.portid_list
        (send_each r (del_subsys_hosts t.mgmt_mode) t.subsys_list w)

  abbrev pub del_found_target : Peers → CStr → Dem → W → Option Target → Done W
  del_found_target peers alias d w none = stopped success no_note d w
  del_found_target peers alias d w (some t) =
      announced peers (create_event_host_list_for_target d.aen_req_list t) (record {
        ret = success;
        note = no_note;
        dem = record d { target_list = del_first (has_alias alias) d.target_list };
        world = clear_target t w;
        told = [];
      })

  -- The groups keep their links to the target.
  unfoldable pub del_target : Peers → CStr → Bool → Dem → W → Done W
  unfolding find_target del_first send_each
  del_target peers alias json d w =
      if json
      then del_found_target peers alias d w (find_target alias d)
      else stopped refused no_note d w
