-- ===== src/Dem/Config/Hosts/Orders.antt =====
-- What `link_host` and `unlink_host` of src/dem/config.c ask of the endpoint.
use nvme_dem.Prelude.{◌≡◌, refl, ap, true, false, List, [], ◌∷◌, some, CStr}
use nvme_dem.Dem.State.{Host, Subsystem, PortId, Target, MgmtMode, Dem}
use nvme_dem.Dem.LogPages.Refresh.{Fabric, is_restricted, is_empty}
use nvme_dem.Dem.Notify.Send.{Peers}
use nvme_dem.Dem.Groups.Ops.{find_target}
use nvme_dem.Dem.Config.Find.{find_subsys}
use nvme_dem.Dem.Config.Remote.{
  Remote, link_host_to, unlink_host_from, del_host_at, link_portid_to, send_each,
}
use nvme_dem.Dem.Config.Result.{stored, announced}
use nvme_dem.Dem.Config.Hosts.{find_host, is_used, link_host_op, unlink_host_op, take_out}

module _ {W : Type 0} (r : Remote W) where
  -- A restricted subsystem without hosts is linked to no port.
  no_links :
      (mode : MgmtMode) (s : Subsystem) (ps : List PortId) (w : W)
      → is_restricted s ≡ true
      → s.host_list ≡ []
      → send_each r (λ p. link_portid_to r mode s p) ps w ≡ w
  unfolding send_each link_portid_to
  no_links mode s [] w a e = refl
  no_links mode s (p ∷ ps) w a e = let q = ap is_empty e in rw (a, q) (no_links mode s ps w a e)

  module _ (peers : Peers) (f : Fabric) (shared tgt subnqn : CStr) (d : Dem) (w : W) (t : Target)
      (s : Subsystem) (found : find_target tgt d ≡ some t)
      (listed : find_subsys subnqn t.subsys_list ≡ some s) where
    -- Linking the first host of a restricted subsystem sends the orders for the host and no other: no
    -- port is linked, although the subsystem was linked to none before.
    pub link_host_links_no_port :
        (h : Host)
        → is_restricted s ≡ true
        → s.host_list ≡ []
        → (link_host_op r peers f shared tgt subnqn (some h) d w).done.world
          ≡ (link_host_to r t.mgmt_mode s h w).1
    unfolding link_host_op find_host stored announced
    link_host_links_no_port h a e =
        let q = ap is_empty e in
        let n = ap (find_host h.alias) e in
        rw (found, listed, n, q)
          (no_links t.mgmt_mode s t.portid_list (link_host_to r t.mgmt_mode s h w).1 a e)

    -- Unlinking the only use of a host asks the endpoint to unlink it by its NQN, and then to delete a
    -- host by its alias, which is the name of no host there unless it equals an NQN.
    pub unlink_host_deletes_alias :
        (alias : CStr) (h : Host)
        → find_host alias s.host_list ≡ some h
        → is_used alias (take_out r peers f shared alias s h t w).0 ≡ false
        → (unlink_host_op r peers f shared tgt subnqn alias true d w).world
          ≡ (del_host_at r t.mgmt_mode alias (unlink_host_from r t.mgmt_mode s h w).1).1
    unfolding unlink_host_op stored announced
    unlink_host_deletes_alias alias h k u = rw (found, listed, k, u) refl
