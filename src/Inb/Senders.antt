-- ===== src/Inb/Senders.antt =====
-- The senders of src/dem/config.c over the link to an endpoint, each of one message.
use nvme_dem.Prelude.{Bool, false, List, [], ◌∷◌, CStr}
use nvme_dem.Memory.{Mem}
use nvme_dem.Dem.State.{Host, Ns, Subsystem, PortId}
use nvme_dem.Endpoint.Ops.{Ops}
use nvme_dem.Inb.Message.{
  Message, reset, set_port, del_port, link_port, unlink_port, set_subsys, del_subsys, set_ns,
  del_ns, set_host, del_host, link_host, unlink_host,
}
use nvme_dem.Inb.Send.{Wire, lost, Peer, Outcome, send_set_config}

-- What happens in one call of `_send_set_config`: whether `connect_ctrl` succeeds, and what becomes
-- of the two sends.
pub record Round : Type 0 where
  pub connects : Bool
  pub first : Wire
  pub second : Wire

-- `ctrl->connected`, the endpoint, and what is to happen in the next calls; where that is at an end,
-- the endpoint is out of reach.
pub record Link (S : Type 0) : Type 0 where
  pub connected : Bool
  pub peer : Peer S
  pub script : List Round

abbrev pub next : List Round → Round
next [] = record { connects = false; first = lost; second = lost }
next (r ∷ rs) = r

abbrev pub rest : List Round → List Round
rest [] = []
rest (r ∷ rs) = rs

-- Whether 0 is returned, and the link.
pub record Result (S : Type 0) : Type 0 where
  pub ok : Bool
  pub link : Link S

-- `heap` is what the memory holds that the messages are built in.
module _ {S : Type 0} (ops : Ops S) (heap : Mem) where
  abbrev pub of_outcome : List Round → Outcome S → Result S
  of_outcome rs o = record {
    ok = o.ok;
    link = record { connected = o.connected; peer = o.peer; script = rs };
  }

  unfoldable pub send : Message → Link S → Result S
  unfolding send_set_config
  send msg l =
      let r = next l.script in
      of_outcome (rest l.script)
        (send_set_config ops msg heap l.connected r.connects r.first r.second l.peer)

  abbrev pub config_portid_inb : PortId → Link S → Result S
  config_portid_inb p = send (set_port p)

  abbrev pub config_subsys_inb : Subsystem → Link S → Result S
  config_subsys_inb s = send (set_subsys s)

  abbrev pub send_host_config_inb : Host → Link S → Result S
  send_host_config_inb h = send (set_host h.nqn)

  abbrev pub send_link_host_inb : Subsystem → Host → Link S → Result S
  send_link_host_inb s h = send (link_host s h)

  abbrev pub send_unlink_host_inb : Subsystem → Host → Link S → Result S
  send_unlink_host_inb s h = send (unlink_host s h)

  abbrev pub send_del_host_inb : CStr → Link S → Result S
  send_del_host_inb nqn = send (del_host nqn)

  abbrev pub send_link_portid_inb : Subsystem → PortId → Link S → Result S
  send_link_portid_inb s p = send (link_port s p)

  abbrev pub send_unlink_portid_inb : Subsystem → PortId → Link S → Result S
  send_unlink_portid_inb s p = send (unlink_port s p)

  abbrev pub send_del_subsys_inb : Subsystem → Link S → Result S
  send_del_subsys_inb s = send (del_subsys s)

  abbrev pub send_del_portid_inb : PortId → Link S → Result S
  send_del_portid_inb p = send (del_port p)

  abbrev pub send_set_ns_inb : Subsystem → Ns → Link S → Result S
  send_set_ns_inb s n = send (set_ns s n)

  abbrev pub send_del_ns_inb : Subsystem → Ns → Link S → Result S
  send_del_ns_inb s n = send (del_ns s n)

  abbrev pub send_reset_config : Link S → Result S
  send_reset_config = send reset
