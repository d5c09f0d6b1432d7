-- ===== src/Dem/Config/Targets/Plan.antt =====
-- The requests that a configuration out of band stands for (src/dem/config.c).
use nvme_dem.Prelude.{
  ◌≡◌, refl, sym, ◌∙◌, ap, Bool, true, false, ◌&&◌, List, [], ◌∷◌, ◌++◌, if◌then◌else◌, codes,
}
use nvme_dem.Dem.State.{Host, Ns, Subsystem, PortId, Target, out_of_band_mgmt}
use nvme_dem.Dem.LogPages.Refresh.{Fabric, is_restricted, is_empty, refresh_log_pages}
use nvme_dem.Dem.Config.Oob.{
  build_set_port_oob, build_set_host_oob, build_set_subsys_oob, build_set_ns_oob,
  build_set_portid_oob, portid_path, tag_path,
}
use nvme_dem.Dem.Config.Remote.{
  Order, Remote, post_to, config_portid, config_subsys_oob, config_host_oob, config_ns_oob,
  config_link_oob, send_each,
}
use nvme_dem.Dem.Config.Targets.{until_failure, config_target_oob}

-- Each entry's requests, in the order of the entries.
abbrev pub each_of : {A B : Type 0} → (A → List B) → List A → List B
each_of g [] = []
each_of g (x ∷ xs) = g x ++ each_of g xs

module _ {W : Type 0} (r : Remote W) where
  abbrev pub port_plan : PortId → List Order
  port_plan p = post_to r (portid_path p.portid) (build_set_port_oob p) ∷ []

  abbrev pub ns_plan : Subsystem → Ns → List Order
  ns_plan s n = post_to r (tag_path s.nqn (codes "namespace")) (build_set_ns_oob n) ∷ []

  -- The host is made at the endpoint and then allowed to use the subsystem.
  abbrev pub host_plan : Subsystem → Host → List Order
  host_plan s h =
      post_to r (codes "host") (build_set_host_oob h.nqn)
      ∷ post_to r (tag_path s.nqn (codes "host")) (build_set_host_oob h.nqn)
      ∷ []

  abbrev pub link_plan : Subsystem → PortId → List Order
  link_plan s p = post_to r (tag_path s.nqn (codes "portid")) (build_set_portid_oob p.portid) ∷ []

  abbrev pub subsys_plan : List PortId → Subsystem → List Order
  subsys_plan ports s =
      post_to r (codes "subsystem") (build_set_subsys_oob s)
      ∷ (each_of (ns_plan s) s.ns_list
          ++ (each_of (host_plan s) s.host_list
              ++ (if is_restricted s && is_empty s.host_list
                  then []
                  else each_of (link_plan s) ports)))

  abbrev pub target_plan : Target → List Order
  target_plan t =
      each_of port_plan t.portid_list ++ each_of (subsys_plan t.portid_list) t.subsys_list

  -- The other end after the requests.
  abbrev pub carried_out : List Order → W → W
  carried_out [] w = w
  carried_out (o ∷ os) w = carried_out os (r.send o w).1

  carried-append :
      (as_ bs : List Order) (w : W) → carried_out (as_ ++ bs) w ≡ carried_out bs (carried_out as_ w)
  carried-append [] bs w = refl
  carried-append (a ∷ as_) bs w = carried-append as_ bs (r.send a w).1

  module _ {A : Type 0} (f : A → W → Bool × W) (g : A → List Order)
      (same : (x : A) (w : W) → f x w ≡ (true, carried_out (g x) w)) where
    send_each-plan : (xs : List A) (w : W) → send_each r f xs w ≡ carried_out (each_of g xs) w
    unfolding send_each
    send_each-plan [] w = refl
    send_each-plan (x ∷ xs) w =
        rw (same x w)
          (send_each-plan xs (carried_out (g x) w) ∙ sym (carried-append (g x) (each_of g xs) w))

    until_failure-plan :
        (xs : List A) (w : W) → until_failure r f xs w ≡ (true, carried_out (each_of g xs) w)
    unfolding until_failure
    until_failure-plan [] w = refl
    until_failure-plan (x ∷ xs) w = rw (same x w) (
        until_failure-plan xs (carried_out (g x) w)
        ∙ ap (λ v. (true, v)) (sym (carried-append (g x) (each_of g xs) w)))

  module _ (accepts : (o : Order) (w : W) → (r.send o w).0 ≡ true) where
    abbrev sent_all : W → Bool × W
    sent_all w = (true, w)

    sent : (o : Order) (w : W) → r.send o w ≡ (true, (r.send o w).1)
    sent o w = ap (λ b. (b, (r.send o w).1)) (accepts o w)

    port-plan :
        (p : PortId) (w : W)
        → config_portid r out_of_band_mgmt p w ≡ (true, carried_out (port_plan p) w)
    unfolding config_portid
    port-plan p w = sent (post_to r (portid_path p.portid) (build_set_port_oob p)) w

    host-plan :
        (s : Subsystem) (h : Host) (w : W)
        → config_host_oob r s h w ≡ (true, carried_out (host_plan s h) w)
    host-plan s h w =
        let first = post_to r (codes "host") (build_set_host_oob h.nqn) in
        rw (accepts first w) (
          sent (post_to r (tag_path s.nqn (codes "host")) (build_set_host_oob h.nqn))
            (r.send first w).1)

    spaces_and_hosts :
        (s : Subsystem) (w : W)
        → send_each r
            (config_host_oob r s)
            s.host_list
            (send_each r (config_ns_oob r s) s.ns_list w)
          ≡ carried_out
              (each_of (host_plan s) s.host_list)
              (carried_out (each_of (ns_plan s) s.ns_list) w)
    spaces_and_hosts s w =
        ap (send_each r (config_host_oob r s) s.host_list) (
          send_each-plan (config_ns_oob r s) (ns_plan s)
            (λ n v. sent (post_to r (tag_path s.nqn (codes "namespace")) (build_set_ns_oob n)) v)
            s.ns_list w)
        ∙ send_each-plan (config_host_oob r s) (host_plan s) (host-plan s) s.host_list
            (carried_out (each_of (ns_plan s) s.ns_list) w)

    links_unless :
        (c : Bool) (ports : List PortId) (s : Subsystem) (w : W)
        → (if c then sent_all w else sent_all (send_each r (config_link_oob r s) ports w))
          ≡ (true, carried_out (if c then [] else each_of (link_plan s) ports) w)
    links_unless true ports s w = refl
    links_unless false ports s w =
        ap (λ v. (true, v))
          (send_each-plan (config_link_oob r s) (link_plan s)
            (λ p v.
              sent (post_to r (tag_path s.nqn (codes "portid")) (build_set_portid_oob p.portid)) v)
            ports w)

    subsys-plan :
        (ports : List PortId) (s : Subsystem) (w : W)
        → config_subsys_oob r ports s w ≡ (true, carried_out (subsys_plan ports s) w)
    unfolding config_subsys_oob
    subsys-plan ports s w =
        let o = post_to r (codes "subsystem") (build_set_subsys_oob s) in
        let v = (r.send o w).1 in
        let c = is_restricted s && is_empty s.host_list in
        let spaces = each_of (ns_plan s) s.ns_list in
        let hosts = each_of (host_plan s) s.host_list in
        let links : List Order = if c then [] else each_of (link_plan s) ports in
        rw (accepts o w) (
          links_unless c ports s (
            send_each r (config_host_oob r s) s.host_list
              (send_each r (config_ns_oob r s) s.ns_list v))
          ∙ ap (λ z. (true, carried_out links z)) (spaces_and_hosts s v)
          ∙ ap (λ z. (true, z))
              (sym (
                carried-append spaces (hosts ++ links) v
                ∙ carried-append hosts links (carried_out spaces v))))

    -- A configuration out of band of a target whose endpoint takes every request succeeds: it makes,
    -- each once and in this order, the requests for the ports, and for each subsystem the one for it,
    -- for its namespaces, for its hosts, and the links to all ports unless it is restricted and has no
    -- host; and it refreshes the target.
    pub config_target_oob_lem :
        (f : Fabric) (t : Target) (w : W)
        → config_target_oob r f t w ≡ (true, refresh_log_pages f t, carried_out (target_plan t) w)
    unfolding config_target_oob
    config_target_oob_lem f t w =
        rw
          (
            until_failure-plan (config_portid r out_of_band_mgmt) port_plan port-plan t.portid_list
                w,
            until_failure-plan (config_subsys_oob r t.portid_list) (subsys_plan t.portid_list)
                (subsys-plan t.portid_list) t.subsys_list
                (carried_out (each_of port_plan t.portid_list) w),
          )
          (ap (λ v. (true, refresh_log_pages f t, v))
            (sym (
              carried-append (each_of port_plan t.portid_list)
                (each_of (subsys_plan t.portid_list) t.subsys_list) w)))
