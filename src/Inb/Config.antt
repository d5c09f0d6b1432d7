-- ===== src/Inb/Config.antt =====
-- `config_target_inb` of src/dem/config.c: the whole configuration of a target goes to its endpoint.
-- `target_refresh`, which a success calls at the end, is in Dem/Daemon/Subsys.
use nvme_dem.Prelude.{Bool, true, false, ◌&&◌, not, List, [], ◌∷◌, if◌then◌else◌}
use nvme_dem.Memory.{Mem}
use nvme_dem.Dem.State.{Host, Subsystem, PortId, Target}
use nvme_dem.Dem.LogPages.Refresh.{is_restricted, is_empty}
use nvme_dem.Endpoint.Ops.{Ops}
use nvme_dem.Inb.Senders.{
  Link, Result, config_portid_inb, config_subsys_inb, send_host_config_inb, send_link_host_inb,
  send_set_ns_inb, send_link_portid_inb,
}

-- `if (ret) goto out2;` between two steps.
abbrev pub and_then : {S : Type 0} → Result S → (Link S → Result S) → Result S
and_then r k = if r.ok then k r.link else r

-- A loop that leaves at the first failure.
unfoldable pub each : {S A : Type 0} → (A → Link S → Result S) → List A → Link S → Result S
each f [] l = record { ok = true; link = l }
each f (x ∷ xs) l = and_then (f x l) (λ k. each f xs k)

module _ {S : Type 0} (ops : Ops S) (heap : Mem) where
  abbrev pub config_host : Subsystem → Host → Link S → Result S
  config_host s h l =
      and_then (send_host_config_inb ops heap h l) (λ k. send_link_host_inb ops heap s h k)

  abbrev pub config_hosts : Subsystem → Link S → Result S
  config_hosts s l =
      if is_restricted s then each (config_host s) s.host_list l else record { ok = true; link = l }

  -- A restricted subsystem without hosts is linked to no port.
  abbrev pub config_links : List PortId → Subsystem → Link S → Result S
  config_links ports s l =
      if is_restricted s && is_empty s.host_list
      then record { ok = true; link = l }
      else each (send_link_portid_inb ops heap s) ports l

  abbrev pub config_spaces : List PortId → Subsystem → Link S → Result S
  config_spaces ports s l =
      and_then (each (send_set_ns_inb ops heap s) s.ns_list l) (λ k. config_links ports s k)

  abbrev pub config_access : List PortId → Subsystem → Link S → Result S
  config_access ports s l = and_then (config_hosts s l) (λ k. config_spaces ports s k)

  unfoldable pub config_subsystem : List PortId → Subsystem → Link S → Result S
  unfolding each
  config_subsystem ports s l =
      and_then (config_subsys_inb ops heap s l) (λ k. config_access ports s k)

  -- `reaches` is whether the `connect_ctrl` at the start succeeds; it leaves `connected` alone.
  unfoldable pub config_target_inb : Bool → Target → Link S → Result S
  unfolding config_subsystem
  config_target_inb reaches t l =
      if not l.connected && not reaches
      then record { ok = false; link = l }
      else and_then (each (config_portid_inb ops heap) t.portid_list l)
          (λ k. each (config_subsystem t.portid_list) t.subsys_list k)
