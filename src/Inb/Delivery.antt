-- ===== src/Inb/Delivery.antt =====
-- A message that src/dem/config.c builds is read back by src/endpoint/pseudo_target.c: the endpoint
-- makes the call that the message means.
use nvme_dem.Prelude.{◌^◌, ◌≡◌, refl, ap, arith, pos}
use nvme_dem.Memory.{Mem, received}
use nvme_dem.Endpoint.Ops.{
  Call, delete_subsys, delete_host, create_host, create_subsys, create_ns, delete_ns, create_portid,
  delete_portid, link_host_to_subsys, unlink_host_from_subsys, link_port_to_subsys,
  unlink_port_from_subsys, reset_config, Ops,
}
use nvme_dem.Endpoint.Config as Config
use nvme_dem.Endpoint.Config.{asked, dispatch_config, page, handle_mi_send, answer_call, carry_out}
use nvme_dem.Inb.Build.{build_host_config_inb, build_host_delete_inb, build_subsys_delete_inb}
use nvme_dem.Inb.Message.{
  Message, reset, set_port, del_port, link_port, unlink_port, set_subsys, del_subsys, set_ns,
  del_ns, set_host, del_host, link_host, unlink_host, id_of, len_of, build,
}
use nvme_dem.Inb.Fields.{IsNqn, InRange}
use nvme_dem.Inb.Reads.{
  IsDevid, name_first, link_port_read, link_host_read, subsys_read, ns_delete_read, ns_config_read,
  port_delete_read,
}
use nvme_dem.Inb.Port.{IsPort, port_read, service_read}

-- The call that a message stands for, in the terms of the DEM.
abbrev pub meaning : Message → Call
meaning reset = reset_config
meaning (set_port p) = create_portid p.portid p.family p.type (pos 2) p.address p.port_num
meaning (del_port p) = delete_portid p.portid
meaning (link_port s p) = link_port_to_subsys s.nqn p.portid
meaning (unlink_port s p) = unlink_port_from_subsys s.nqn p.portid
meaning (set_subsys s) = create_subsys s.nqn s.access
meaning (del_subsys s) = delete_subsys s.nqn
meaning (set_ns s n) = create_ns s.nqn n.nsid n.devid n.devns
meaning (del_ns s n) = delete_ns s.nqn n.nsid
meaning (set_host nqn) = create_host nqn
meaning (del_host nqn) = delete_host nqn
meaning (link_host s h) = link_host_to_subsys s.nqn h.nqn
meaning (unlink_host s h) = unlink_host_from_subsys s.nqn h.nqn

-- The names fit their fields with a terminating 0, and the numbers fit theirs.
abbrev pub IsSendable : Message → Type 0
IsSendable reset = Unit
IsSendable (set_port p) = IsPort p
IsSendable (del_port p) = InRange (2 ^ 16) p.portid
IsSendable (link_port s p) = IsNqn s.nqn × InRange (2 ^ 16) p.portid
IsSendable (unlink_port s p) = IsNqn s.nqn × InRange (2 ^ 16) p.portid
IsSendable (set_subsys s) = IsNqn s.nqn × InRange 256 s.access
IsSendable (del_subsys s) = IsNqn s.nqn
IsSendable (set_ns s n) =
    IsNqn s.nqn × InRange (2 ^ 31) n.nsid × IsDevid n.devid × InRange (2 ^ 31) n.devns
IsSendable (del_ns s n) = IsNqn s.nqn × InRange (2 ^ 31) n.nsid
IsSendable (set_host nqn) = IsNqn nqn
IsSendable (del_host nqn) = IsNqn nqn
IsSendable (link_host s h) = IsNqn s.nqn × IsNqn h.nqn
IsSendable (unlink_host s h) = IsNqn s.nqn × IsNqn h.nqn

dispatch-build :
    (msg : Message) (heap old : Mem)
    → IsSendable msg
    → dispatch_config (id_of msg) (received (len_of msg) (build heap msg) old) ≡ asked (meaning msg)
unfolding dispatch_config id_of len_of Config.set_portid Config.del_portid Config.link_portid
    Config.unlink_portid Config.set_subsys Config.del_subsys Config.set_ns Config.del_ns
    Config.set_host Config.del_host Config.link_host Config.unlink_host build
dispatch-build reset heap old k = refl
dispatch-build (set_port p) heap old k =
    let r = port_read heap old p k in rw (r.0, r.1, r.2, r.3, r.4, r.5, service_read heap old p k)
dispatch-build (del_port p) heap old k = rw (port_delete_read heap old p k)
dispatch-build (link_port s p) heap old k =
    let r = link_port_read heap old s p k.0 k.1 in rw (r.0, r.1)
dispatch-build (unlink_port s p) heap old k =
    let r = link_port_read heap old s p k.0 k.1 in rw (r.0, r.1)
dispatch-build (set_subsys s) heap old k = let r = subsys_read heap old s k.0 k.1 in rw (r.0, r.1)
dispatch-build (del_subsys s) heap old k =
    unfold build_subsys_delete_inb in rw (name_first 256 heap old s.nqn k (omega arith))
dispatch-build (set_ns s n) heap old k =
    let r = ns_config_read heap old s n k.0 k.1 k.2 k.3 in rw (r.0, r.1, r.2, r.3)
dispatch-build (del_ns s n) heap old k =
    let r = ns_delete_read heap old s n k.0 k.1 in rw (r.0, r.1)
dispatch-build (set_host nqn) heap old k =
    unfold build_host_config_inb in rw (name_first 256 heap old nqn k (omega arith))
dispatch-build (del_host nqn) heap old k =
    unfold build_host_delete_inb in rw (name_first 256 heap old nqn k (omega arith))
dispatch-build (link_host s h) heap old k =
    let r = link_host_read heap old s h.nqn k.0 k.1 in rw (r.0, r.1)
dispatch-build (unlink_host s h) heap old k =
    let r = link_host_read heap old s h.nqn k.0 k.1 in rw (r.0, r.1)

module _ {S : Type 0} (ops : Ops S) (msg : Message) (heap old : Mem) (s : S)
    (ok : IsSendable msg) where
  -- The endpoint carries a sendable message out: it makes, once, the call that the message stands
  -- for, with the names and numbers of the DEM, and its status is that of the call. This holds for
  -- all thirteen messages, whatever the memory held before that the DEM builds the message in and
  -- that the endpoint reads it into.
  pub handle_mi_send-build :
      handle_mi_send ops (id_of msg) (page (received (len_of msg) (build heap msg) old)) old s
      ≡ answer_call ops
          (received (len_of msg) (build heap msg) old)
          (meaning msg)
          (ops.perform (meaning msg) s)
  unfolding handle_mi_send
  handle_mi_send-build =
      ap (carry_out ops (received (len_of msg) (build heap msg) old) s)
        (dispatch-build msg heap old ok)
