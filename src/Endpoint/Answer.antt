-- ===== src/Endpoint/Answer.antt =====
-- What the answers of the endpoint's controller mean to a peer (src/endpoint/pseudo_target.c).
use nvme_dem.Prelude.{
  ◌&&◌, ◌||◌, not, ◌%◌, ◌^◌, ◌≡◌, ◌⊎◌, inl, inr, refl, Bool, true, false, List, Option, none, some,
  arith, ◌==◌, if◌then◌else◌, ltb, Bool-cases,
}
use nvme_dem.Memory.{Mem}
use nvme_dem.Memory.Words.{read16}
use nvme_dem.Nvme.Sc
use nvme_dem.Nvme.Mi
use nvme_dem.Nvme.Opcode
use nvme_dem.Nvme.Fctype
use nvme_dem.Nvme.Reg
use nvme_dem.Dem.Discovery.Command.{Command}
use nvme_dem.Dem.Discovery.Request.{status_of, handle_property_set, handle_property_get, length_of}
use nvme_dem.Endpoint.Ops.{
  Call, Ops, reset_config, delete_subsys, delete_host, create_host, create_subsys, create_ns,
  delete_ns, create_portid, delete_portid, link_host_to_subsys, unlink_host_from_subsys,
  link_port_to_subsys, unlink_port_from_subsys,
}
use nvme_dem.Endpoint.Config.{
  page_size, Fetch, failed, page, Asked, handle_mi_send, carry_out, unknown, fault, asked,
  dispatch_config, status_of_call,
}
use nvme_dem.Endpoint.Report.{
  NsDev, Iface, Report, get_nsdev, get_xport, send_report, handle_mi_receive,
}
use nvme_dem.Endpoint.Request.{
  EpCommand, Transport, Conn, Act, ntohl, handle_set_features, connect_status, handle_connect,
  handle_identify, features_act, dispatch_fabrics, of_sent, of_received, finish, dispatch,
  handle_request,
}
use nvme_dem.Endpoint.Expected.{
  HasError, fetched, connects, call_succeeds, after_call, after_send, succeeds, target_after,
  IsSane,
}

module _ {S : Type 0} (ops : Ops S) where
  -- The same of what a handler leaves.
  abbrev IsFair : Bool → S → Option (Act S) → Type 0
  IsFair ok s none = Unit
  IsFair ok s (some a) =
      ((status_of a.ret == 0) ≡ ok) × (a.conn.target ≡ s) × ((ok ≡ true) ⊎ (a.sent ≡ none))

  finish-IsSane :
      (x : Transport) (k : Conn S) (c : EpCommand) (o : Option (Act S))
      → IsFair (succeeds ops x k c) (target_after ops x k c) o
      → IsSane ops x k c (finish c.cmd o)
  finish-IsSane x k c none f = tt
  finish-IsSane x k c (some a) f = record { echoed = refl; status = f.0; target = f.1; quiet = f.2 }

  IsFair-if :
      (b p q : Bool) (s t : S) (o o' : Option (Act S))
      → IsFair p s o
      → IsFair q t o'
      → IsFair (if b then p else q) (if b then s else t) (if b then o else o')
  IsFair-if true p q s t o o' f g = f
  IsFair-if false p q s t o o' f g = g

  -- The same where the target stays.
  IsFair-kept :
      (b p q : Bool) (s : S) (o o' : Option (Act S))
      → IsFair p s o
      → IsFair q s o'
      → IsFair (if b then p else q) s (if b then o else o')
  IsFair-kept true p q s o o' f g = f
  IsFair-kept false p q s o o' f g = g

  connect-IsFair :
      (f : Fetch) (k : Conn S)
      → HasError f
      → IsFair (fetched f connects) k.target (some (handle_connect f k))
  unfolding handle_connect connect_status
  connect-IsFair (failed e) k h = (h, refl, inr refl)
  connect-IsFair (page m) k h = (connect_ok (read16 m 16 == 0xffff) _, refl, inr refl)
    where
      connect_ok :
          (a b : Bool)
          → (status_of (
                if not a
                then Sc.connect_invalid_param
                else if not b
                then Sc.connect_invalid_host
                else Sc.success)
              == 0)
            ≡ (a && b)
      connect_ok true true = refl
      connect_ok true false = refl
      connect_ok false b = refl

  fabrics-IsFair :
      (x : Transport) (k : Conn S) (c : EpCommand)
      → HasError x.read
      → IsFair
          (if c.cmd.fctype == Fctype.property_set
            then c.cmd.offset == Reg.cc
            else if c.cmd.fctype == Fctype.property_get
            then c.cmd.offset == Reg.csts || c.cmd.offset == Reg.cap || c.cmd.offset == Reg.vs
            else if c.cmd.fctype == Fctype.connect
            then fetched x.read connects
            else false)
          k.target
          (some (dispatch_fabrics x c.cmd k))
  unfolding dispatch_fabrics handle_property_set handle_property_get
  fabrics-IsFair x k c h = ground (arith, connect-IsFair x.read k h)

  identify-IsFair :
      (k : Conn S) (c : Command) (w : Bool)
      → IsFair (c.cns == 1 && w) k.target (some (handle_identify c w k))
  unfolding handle_identify
  identify-IsFair k c w = ground arith

  features-IsFair :
      (k : Conn S) (c : Command)
      → IsFair
          (ntohl c.cdw10 % 2 ^ 8 == 0)
          k.target
          (some (features_act k (handle_set_features c 0)))
  unfolding handle_set_features
  features-IsFair k c = elim (Bool-cases (ntohl c.cdw10 % 2 ^ 8 == 0)) [
    | inl e ↦ rw e (refl, refl, inr refl)
    | inr e ↦ rw e (refl, refl, inr refl)
  ]

  -- `large` is whether the report leaves the page.
  report-IsFair :
      (k : Conn S) (large w : Bool) (r : Report)
      → IsFair w k.target (
          of_received k (
            if large
            then none
            else some (record {
              ret = if w then Sc.success else Sc.write_fault;
              data_page = r.filled;
              sent = if w then some r else none;
            })))
  report-IsFair k true w r = tt
  report-IsFair k false true r = (refl, refl, inl refl)
  report-IsFair k false false r = (refl, refl, inr refl)

  receive-IsFair :
      (x : Transport) (k : Conn S) (c : EpCommand) (devices : List NsDev) (interfaces : List Iface)
      → IsFair x.written k.target (
          of_received k
            (handle_mi_receive devices interfaces c.fcid (length_of c.cmd) x.written k.data_page))
  unfolding handle_mi_receive
  receive-IsFair x k c devices interfaces = elim (Bool-cases (c.fcid == Mi.get_ns_config)) [
    | inl e ↦ rw e (sent_report (get_nsdev k.data_page devices))
    | inr e ↦ rw e (elim (Bool-cases (c.fcid == Mi.get_xport_config)) [
      | inl f ↦ rw f (sent_report (get_xport k.data_page interfaces))
      | inr f ↦ rw f (sent_report (record { filled = k.data_page; size = length_of c.cmd }))
    ])
  ]
    where
      sent_report :
          (r : Report) → IsFair x.written k.target (of_received k (send_report x.written r))
      sent_report r = report-IsFair k (ltb page_size r.size) x.written r

  carried-IsFair :
      (k : Conn S) (m : Mem) (a : Asked)
      → IsFair
          (call_succeeds ops a k.target)
          (after_call ops a k.target)
          (of_sent k (carry_out ops m k.target a))
  carried-IsFair k m fault = tt
  carried-IsFair k m unknown = (refl, refl, inr refl)
  carried-IsFair k m (asked d) = (status_ok d, refl, inr refl)
    where
      of_call : (b : Bool) → (status_of (if b then Sc.success else Sc.access_denied) == 0) ≡ b
      of_call true = refl
      of_call false = refl

      status_ok :
          (d : Call)
          → (status_of (status_of_call d (ops.perform d k.target).0) == 0)
            ≡ call_succeeds ops (asked d) k.target
      status_ok (delete_subsys p1) = of_call _
      status_ok (delete_host p1) = of_call _
      status_ok (create_host p1) = of_call _
      status_ok (create_subsys p1 p2) = of_call _
      status_ok (create_ns p1 p2 p3 p4) = of_call _
      status_ok (delete_ns p1 p2) = of_call _
      status_ok (create_portid p1 p2 p3 p4 p5 p6) = of_call _
      status_ok (delete_portid p1) = of_call _
      status_ok (link_host_to_subsys p1 p2) = of_call _
      status_ok (unlink_host_from_subsys p1 p2) = of_call _
      status_ok (link_port_to_subsys p1 p2) = of_call _
      status_ok (unlink_port_from_subsys p1 p2) = of_call _
      status_ok reset_config = refl

  send-IsFair :
      (f : Fetch) (k : Conn S) (c : EpCommand)
      → HasError f
      → IsFair
          (fetched f (λ m. call_succeeds ops (dispatch_config c.fcid m) k.target))
          (after_send ops c.fcid f k.target)
          (of_sent k (handle_mi_send ops c.fcid f k.data_page k.target))
  unfolding handle_mi_send
  send-IsFair (failed e) k c h = (h, refl, inr refl)
  send-IsFair (page m) k c h = carried-IsFair k m (dispatch_config c.fcid m)

  module _ (devices : List NsDev) (interfaces : List Iface) where
    dispatch-IsFair :
        (x : Transport) (k : Conn S) (c : EpCommand)
        → HasError x.read
        → IsFair
            (succeeds ops x k c)
            (target_after ops x k c)
            (dispatch ops devices interfaces x k c)
    unfolding dispatch succeeds target_after
    dispatch-IsFair x k c h =
        IsFair-if (c.cmd.opcode == Opcode.fabrics) _ _ _ _ _ _ (fabrics-IsFair x k c h) (
          IsFair-if (c.cmd.opcode == Opcode.mi_send) _ _ _ _ _ _ (send-IsFair x.read k c h) (
            IsFair-kept (c.cmd.opcode == Opcode.mi_receive) _ _ _ _ _
              (receive-IsFair x k c devices interfaces)
              (IsFair-kept (c.cmd.opcode == Opcode.identify) _ _ _ _ _
                (identify-IsFair k c.cmd x.written)
                (IsFair-kept (c.cmd.opcode == Opcode.keep_alive) _ _ _ _ _ (refl, refl, inl refl)
                  (IsFair-kept (c.cmd.opcode == Opcode.set_features) _ _ _ _ _
                    (features-IsFair k c.cmd) (refl, refl, inr refl))))))

    -- Every command that the endpoint answers is answered under its own id, with the status 0 exactly
    -- if it succeeds: a property that is known; a connect whose data were read and name this
    -- controller; a management send whose structure was read, whose id is known and whose call
    -- succeeds, or is the reset; a management receive that was written; an identify of the controller
    -- that was written; a keep-alive; and a Set Features whose identifier, as the code reads it, ends in
    -- 0. The target is the one after that call and is else the same, and a command that fails sends
    -- nothing. An error of a remote read has a status that is not 0.
    pub handle_request_answered :
        (x : Transport) (k : Conn S) (c : EpCommand)
        → HasError x.read
        → IsSane ops x k c (handle_request ops devices interfaces x k c)
    unfolding handle_request
    handle_request_answered x k c h =
        finish-IsSane x k c (dispatch ops devices interfaces x k c) (dispatch-IsFair x k c h)
