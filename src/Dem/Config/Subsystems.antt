-- ===== src/Dem/Config/Subsystems.antt =====
-- `set_subsys` and `del_subsys` of src/dem/config.c.
use nvme_dem.Prelude.{
  ℕ, Bool, not, ◌&&◌, ◌||◌, List, [], ◌∷◌, ◌++◌, Option, none, some, ◌==◌, if◌then◌else◌, CStr,
  streq, ℤ, negsuc, eqb_ℤ,
}
use nvme_dem.Dem.State.{Subsystem, PortId, Target, Dem}
use nvme_dem.Dem.LogPages.Refresh.{Fabric, refresh_log_pages, is_restricted, is_empty}
use nvme_dem.Dem.Notify.Lists.{create_event_host_list_for_subsys}
use nvme_dem.Dem.Notify.Send.{Peers}
use nvme_dem.Dem.Groups.Ops.{find_target, del_first}
use nvme_dem.Dem.Daemon.Queues.{create_discovery_queue}
use nvme_dem.Dem.Daemon.Subsys.{del_subsys_dq}
use nvme_dem.Dem.Config.Find.{find_subsys, modify_subsys}
use nvme_dem.Dem.Config.Remote.{
  Remote, link_portid_to, del_subsys_at, del_host_at, unlink_host_from, config_subsys_at, send_each,
}
use nvme_dem.Dem.Config.Result.{
  success, refused, no_entry, no_note, config_alert, Acted, Done, stopped, stored, announced,
  ret_of, note_of,
}

-- UNDEFINED_ACCESS
abbrev pub undefined_access : ℤ
undefined_access = negsuc 0

-- What `set_json_subsys` parses: a name, empty if there is none, and an access, undefined if none.
pub record NewSubsys : Type 0 where
  pub nqn : CStr
  pub access : ℤ

-- `new_subsys`
abbrev pub new_subsys : ℕ → NewSubsys → Subsystem
new_subsys fresh n = record {
  id = fresh;
  nqn = n.nqn;
  access = n.access;
  host_list = [];
  ns_list = [];
  logpage_list = [];
}

abbrev pub changes : CStr → NewSubsys → Subsystem → Bool
changes nqn n s =
    (not (is_empty n.nqn) && not (streq nqn n.nqn))
    || (not (eqb_ℤ n.access undefined_access) && not (eqb_ℤ n.access s.access))

abbrev pub overwrite : NewSubsys → Subsystem → Subsystem
overwrite n s = record s {
  nqn = if is_empty n.nqn then s.nqn else n.nqn;
  access = if eqb_ℤ n.access undefined_access then s.access else n.access;
}

module _ {W : Type 0} (r : Remote W) (peers : Peers) (f : Fabric) (shared : CStr) where
  -- The notifications go out before the queue and the subsystem are dropped.
  abbrev pub del_subsys_in : Subsystem → Target → W → Acted W
  del_subsys_in s t w =
      let (ok, v) = del_subsys_at r t.mgmt_mode s w in
      let t' = del_subsys_dq f t s in
      record {
        ret = ret_of ok;
        note = note_of ok;
        target = record t' { subsys_list = del_first (λ x. x.id == s.id) t'.subsys_list };
        world = v;
      }

  abbrev pub told_subsys : Subsystem → Done W → Done W
  told_subsys s o = announced peers (create_event_host_list_for_subsys o.dem.aen_req_list s) o

  abbrev pub del_found : CStr → Dem → W → Target → Option Subsystem → Done W
  del_found alias d w t none = stopped success no_note d w
  del_found alias d w t (some s) = told_subsys s (stored alias d (del_subsys_in s t w))

  abbrev pub del_subsys_of : CStr → CStr → Dem → W → Option Target → Done W
  del_subsys_of alias nqn d w none = stopped success no_note d w
  del_subsys_of alias nqn d w (some t) = del_found alias d w t (find_subsys nqn t.subsys_list)

  unfoldable pub del_subsys : CStr → CStr → Bool → Dem → W → Done W
  unfolding find_target find_subsys del_first
  del_subsys alias nqn json d w =
      if json
      then del_subsys_of alias nqn d w (find_target alias d)
      else stopped refused no_note d w

  -- The loop at the end of `_config_subsys`.
  abbrev pub without_hosts : Subsystem → Target → Target
  without_hosts s t = modify_subsys s.id (λ x. record x { host_list = [] }) (del_subsys_dq f t s)

  -- `_config_subsys`. The hosts of a subsystem that is open to all leave it.
  unfoldable pub config_subsys : Subsystem → Target → W → Bool × Target × W
  unfolding modify_subsys
  config_subsys s t w =
      let (ok, v) = config_subsys_at r t.mgmt_mode t.portid_list s w in
      if is_restricted s then (ok, t, v) else (
        ok,
        without_hosts s t,
        send_each r (λ h. unlink_host_from r t.mgmt_mode s h) s.host_list v,
      )

  -- The loop over the ports.
  unfoldable pub link_ports : Subsystem → List PortId → Target → W → Target × W
  link_ports s [] t w = (t, w)
  link_ports s (p ∷ ps) t w =
      let (ok, v) = link_portid_to r t.mgmt_mode s p w in
      link_ports s ps (create_discovery_queue f shared t (some s) p) v

  -- The subsystem as `_config_subsys` leaves it.
  abbrev pub configured : Subsystem → Subsystem
  configured s = if is_restricted s then s else record s { host_list = [] }

  abbrev pub apply_subsys : Subsystem → Target → W → Acted W
  apply_subsys s t w =
      let (ok, t', v) = config_subsys s t w in
      if ok
      then (let (t'', v') = link_ports (configured s) t'.portid_list t' v in
          record { ret = success; note = no_note; target = refresh_log_pages f t''; world = v' })
      else record { ret = ret_of ok; note = config_alert; target = t'; world = v }

  -- A subsystem that changes its name or access is deleted at the endpoint first. The hosts of one
  -- that is open to all now are deleted there by their aliases.
  abbrev pub replace_subsys : CStr → NewSubsys → Subsystem → Target → W → W
  replace_subsys nqn n s t w =
      if changes nqn n s
      then (let v = (del_subsys_at r t.mgmt_mode s w).1 in
          if is_restricted (overwrite n s)
          then v
          else send_each r (λ h. del_host_at r t.mgmt_mode h.alias) s.host_list v)
      else w

  abbrev pub changed_subsys : CStr → NewSubsys → Subsystem → Subsystem
  changed_subsys nqn n s = if changes nqn n s then overwrite n s else s

  abbrev pub set_found : CStr → CStr → NewSubsys → Dem → W → Target → Option Subsystem → Done W
  set_found alias nqn n d w t none = stopped no_entry no_note d w
  set_found alias nqn n d w t (some s) =
      let s' = changed_subsys nqn n s in
      told_subsys (configured s') (
        stored alias d (
          apply_subsys s' (modify_subsys s.id (λ x. changed_subsys nqn n x) t)
            (replace_subsys nqn n s t w)))

  -- `none` for the name asks for a new subsystem.
  abbrev pub set_subsys_in : ℕ → CStr → Option CStr → NewSubsys → Dem → W → Target → Done W
  set_subsys_in fresh alias none n d w t =
      let s = new_subsys fresh n in
      told_subsys (configured s)
        (stored alias d (apply_subsys s (record t { subsys_list = t.subsys_list ++ s ∷ [] }) w))
  set_subsys_in fresh alias (some nqn) n d w t =
      set_found alias nqn n d w t (find_subsys nqn t.subsys_list)

  abbrev pub set_subsys_of : ℕ → CStr → Option CStr → NewSubsys → Dem → W → Option Target → Done W
  set_subsys_of fresh alias name n d w none = stopped no_entry no_note d w
  set_subsys_of fresh alias name n d w (some t) = set_subsys_in fresh alias name n d w t

  unfoldable pub set_subsys : ℕ → CStr → Option CStr → Option NewSubsys → Dem → W → Done W
  unfolding find_target find_subsys modify_subsys config_subsys link_ports
  set_subsys fresh alias name none d w = stopped refused no_note d w
  set_subsys fresh alias name (some n) d w =
      set_subsys_of fresh alias name n d w (find_target alias d)
