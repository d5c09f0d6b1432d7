-- ===== src/Dem/Config/Ports.antt =====
-- `set_portid` and `del_portid` of src/dem/config.c.
pub mod Gone
use nvme_dem.Prelude.{
  ℕ, Bool, true, false, not, List, [], ◌∷◌, ◌++◌, Option, none, some, map, filter, ◌==◌,
  if◌then◌else◌, CStr, ℤ, pos, eqb_ℤ,
}
use nvme_dem.Dem.State.{LogPage, Subsystem, PortId, CtrlQueue, Target, Dem}
use nvme_dem.Dem.LogPages.Refresh.{Fabric, refresh_log_pages}
use nvme_dem.Dem.Notify.Lists.{create_event_host_list_for_target}
use nvme_dem.Dem.Notify.Send.{Peers}
use nvme_dem.Dem.Groups.Ops.{find_target, del_first}
use nvme_dem.Dem.Daemon.Queues.{create_discovery_queue}
use nvme_dem.Dem.Config.Find.{has_portid, find_portid, put_first}
use nvme_dem.Dem.Config.Namespaces.{is_local}
use nvme_dem.Dem.Config.Remote.{
  Remote, link_portid_to, unlink_portid_from, del_portid_at, config_portid, send_each,
}
use nvme_dem.Dem.Config.Result.{
  Ret, success, refused, no_entry, Note, no_note, config_alert, target_err, Acted, Done, stopped,
  stored, announced, ret_of, note_of,
}

-- The log pages and the queues of the port go, those of the list of unattached log pages stay. That a
-- connected queue is disconnected first is not part of the state.
abbrev pub drop_logpages : ℕ → Subsystem → Subsystem
drop_logpages port s = record s {
  logpage_list = filter (λ l. not (l.portid == port)) s.logpage_list;
}

abbrev pub drop_port : PortId → Target → Target
drop_port p t = record t {
  discovery_queue_list = filter (λ dq. not (dq.portid == p.id)) t.discovery_queue_list;
  subsys_list = map (drop_logpages p.id) t.subsys_list;
  portid_list = del_first (has_portid p.portid) t.portid_list;
}

-- `_del_portid_dq`
unfoldable pub del_portid_dq : PortId → Target → Target
unfolding del_first
del_portid_dq p t = record t {
  discovery_queue_list = del_first (λ dq. dq.portid == p.id) t.discovery_queue_list;
}

-- The fields of a port as they are parsed.
abbrev pub fill_port : PortId → PortId → PortId
fill_port new p = record new { id = p.id }

-- The port with the id, or a new one at the address `fresh`; and the list with it filled.
abbrev pub port_at : ℕ → PortId → Option PortId → PortId
port_at fresh new none = record new { id = fresh }
port_at fresh new (some p) = fill_port new p

abbrev pub store_port : ℤ → PortId → Option PortId → List PortId → List PortId
store_port id p none ps = ps ++ p ∷ []
store_port id p (some old) ps = put_first (has_portid id) p ps

module _ {W : Type 0} (r : Remote W) (peers : Peers) where
  abbrev pub told_target : Done W → Target → Done W
  told_target o t = announced peers (create_event_host_list_for_target o.dem.aen_req_list t) o

  abbrev pub del_port_in : PortId → Target → W → Acted W
  del_port_in p t w =
      let (ok, v) = del_portid_at r t.mgmt_mode p w in
      record { ret = ret_of ok; note = note_of ok; target = drop_port p t; world = v }

  abbrev pub announce_acted : CStr → Dem → Acted W → Done W
  announce_acted alias d a = told_target (stored alias d a) a.target

  abbrev pub del_found_port : CStr → Dem → W → Target → Option PortId → Done W
  del_found_port alias d w t none = stopped success no_note d w
  del_found_port alias d w t (some p) = announce_acted alias d (del_port_in p t w)

  abbrev pub del_port_of : CStr → ℤ → Dem → W → Option Target → Done W
  del_port_of alias id d w none = stopped success no_note d w
  del_port_of alias id d w (some t) = del_found_port alias d w t (find_portid id t.portid_list)

  unfoldable pub del_portid : CStr → ℤ → Bool → Dem → W → Done W
  unfolding find_target find_portid del_first
  del_portid alias id json d w =
      if json then del_port_of alias id d w (find_target alias d) else stopped refused no_note d w

  module _ (f : Fabric) (shared : CStr) where
    -- The target and the other end, in the loop over the subsystems.
    unfoldable pub link_subsystems : PortId → List Subsystem → Target → W → Target × W
    link_subsystems p [] t w = (t, w)
    link_subsystems p (s ∷ ss) t w =
        let (ok, v) = link_portid_to r t.mgmt_mode s p w in
        link_subsystems p ss (create_discovery_queue f shared t (some s) p) v

    -- After the endpoint took the port.
    abbrev pub port_accepted : PortId → Target → W → Acted W
    port_accepted p t w =
        let t' = create_discovery_queue f shared (del_portid_dq p t) none p in
        let (t'', v) = link_subsystems p t'.subsys_list t' w in
        record { ret = success; note = no_note; target = refresh_log_pages f t''; world = v }

    -- `old` is the port under its former id.
    abbrev pub reconfigure_port : PortId → PortId → Target → W → Acted W
    reconfigure_port old p t w =
        let v = send_each r (λ s. unlink_portid_from r t.mgmt_mode s old) t.subsys_list w in
        let v' = if eqb_ℤ p.portid old.portid then v else (del_portid_at r t.mgmt_mode old v).1 in
        let (ok, v'') = config_portid r t.mgmt_mode p v' in
        if ok
        then port_accepted p t v''
        else record { ret = ret_of ok; note = config_alert; target = t; world = v'' }

    abbrev pub set_port_in : ℕ → ℤ → PortId → Target → W → Acted W
    set_port_in fresh id new t w =
        let found = find_portid id t.portid_list in
        let p = port_at fresh new found in
        let t' = record t { portid_list = store_port id p found t.portid_list } in
        if is_local t.mgmt_mode
        then record {
          ret = success;
          note = no_note;
          target = create_discovery_queue f shared t' none p;
          world = w;
        }
        else reconfigure_port (record new { portid = id }) p t' w

    abbrev pub set_port_of : ℕ → CStr → ℤ → PortId → Dem → W → Option Target → Done W
    set_port_of fresh alias id new d w none = stopped no_entry target_err d w
    set_port_of fresh alias id new d w (some t) =
        announce_acted alias d (set_port_in fresh id new t w)

    -- The id 0 asks for a new port; `json` is the parsed port, or an error.
    unfoldable pub set_portid : ℕ → CStr → ℤ → Option PortId → Dem → W → Done W
    unfolding find_target find_portid del_portid_dq link_subsystems
    set_portid fresh alias id none d w = stopped refused no_note d w
    set_portid fresh alias id (some new) d w =
        set_port_of fresh alias (if eqb_ℤ id (pos 0) then new.portid else id) new d w
          (find_target alias d)
