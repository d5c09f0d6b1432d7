-- ===== src/Dem/Config/Remote.antt =====
-- What src/dem/config.c asks of a target's endpoint, by the target's management mode: the in-band
-- messages of Inb and the out-of-band requests of Oob. What becomes of an order is an argument.
use nvme_dem.Prelude.{
  ℕ, ltb, length, Bool, true, ◌&&◌, List, [], ◌∷◌, ◌++◌, CStr, codes, if◌then◌else◌,
}
use nvme_dem.Parse.Decimal.{print_int}
use nvme_dem.Dem.State.{
  Host, Ns, Subsystem, PortId, MgmtMode, local_mgmt, in_band_mgmt, out_of_band_mgmt,
}
use nvme_dem.Dem.LogPages.Refresh.{is_restricted, is_empty}
use nvme_dem.Dem.Config.Oob.{
  OobIface, get_uri, build_set_port_oob, build_set_host_oob, build_set_subsys_oob, build_set_ns_oob,
  build_set_portid_oob, portid_path, host_path, subsys_path, tag_path, member_path,
}
use nvme_dem.Inb.Message.{
  Message, set_port, del_port, link_port, unlink_port, set_subsys, del_subsys, set_ns, del_ns,
  set_host, del_host, link_host, unlink_host,
}

-- An in-band message, or a request: `exec_post` of a body and `exec_delete`. `overran` is undefined
-- behaviour: the URI was printed past the end of its buffer.
pub data Order : Type 0 where
  inband : Message → Order
  post : CStr → CStr → Order
  delete : CStr → Order
  overran : Order

-- MAX_URI_SIZE
abbrev pub max_uri_size : ℕ
max_uri_size = 128

-- A request whose URI fits `char uri[MAX_URI_SIZE]`, its terminating 0 included.
abbrev pub in_buffer : CStr → Order → Order
in_buffer u o = if ltb (length u) max_uri_size then o else overran

-- Whether 0 is returned, and what is at the other end.
pub record Remote (W : Type 0) : Type 1 where
  pub oob : OobIface
  pub send : Order → W → Bool × W

module _ {W : Type 0} (r : Remote W) where
  abbrev pub uri : CStr → CStr
  uri p = get_uri r.oob ++ p

  abbrev pub post_to : CStr → CStr → Order
  post_to p body = in_buffer (uri p) (post (uri p) body)

  abbrev pub delete_at : CStr → Order
  delete_at p = in_buffer (uri p) (delete (uri p))

  -- `if (ret) return ret;` between two orders.
  abbrev pub before : Bool × W → (W → Bool × W) → Bool × W
  before (ok, w) k = if ok then k w else (ok, w)

  -- The order in each mode; a local target has none.
  abbrev pub by_mode : MgmtMode → Message → Order → W → Bool × W
  by_mode in_band_mgmt m o w = r.send (inband m) w
  by_mode out_of_band_mgmt m o w = r.send o w
  by_mode local_mgmt m o w = (true, w)

  unfoldable pub link_host_to : MgmtMode → Subsystem → Host → W → Bool × W
  link_host_to in_band_mgmt s h w =
      before (r.send (inband (set_host h.nqn)) w) (λ v. r.send (inband (link_host s h)) v)
  link_host_to out_of_band_mgmt s h w =
      before (r.send (post_to (codes "host") (build_set_host_oob h.nqn)) w)
        (λ v. r.send (post_to (tag_path s.nqn (codes "host")) (build_set_host_oob h.nqn)) v)
  link_host_to local_mgmt s h w = (true, w)

  unfoldable pub unlink_host_from : MgmtMode → Subsystem → Host → W → Bool × W
  unlink_host_from mode s h =
      by_mode mode (unlink_host s h) (delete_at (member_path s.nqn (codes "host") h.nqn))

  unfoldable pub del_host_at : MgmtMode → CStr → W → Bool × W
  del_host_at mode nqn = by_mode mode (del_host nqn) (delete_at (host_path nqn))

  unfoldable pub link_portid_to : MgmtMode → Subsystem → PortId → W → Bool × W
  link_portid_to mode s p w =
      if is_restricted s && is_empty s.host_list
      then (true, w)
      else by_mode mode (link_port s p)
          (post_to (tag_path s.nqn (codes "portid")) (build_set_portid_oob p.portid)) w

  unfoldable pub unlink_portid_from : MgmtMode → Subsystem → PortId → W → Bool × W
  unlink_portid_from mode s p =
      by_mode mode (unlink_port s p)
        (delete_at (member_path s.nqn (codes "portid") (print_int p.portid)))

  unfoldable pub del_subsys_at : MgmtMode → Subsystem → W → Bool × W
  del_subsys_at mode s = by_mode mode (del_subsys s) (delete_at (subsys_path s.nqn))

  unfoldable pub del_portid_at : MgmtMode → PortId → W → Bool × W
  del_portid_at mode p = by_mode mode (del_port p) (delete_at (portid_path p.portid))

  unfoldable pub config_portid : MgmtMode → PortId → W → Bool × W
  config_portid mode p =
      by_mode mode (set_port p) (post_to (portid_path p.portid) (build_set_port_oob p))

  unfoldable pub set_ns_at : MgmtMode → Subsystem → Ns → W → Bool × W
  set_ns_at mode s n =
      by_mode mode (set_ns s n)
        (post_to (member_path s.nqn (codes "namespace") (print_int n.nsid)) (build_set_ns_oob n))

  unfoldable pub del_ns_at : MgmtMode → Subsystem → Ns → W → Bool × W
  del_ns_at mode s n =
      by_mode mode (del_ns s n)
        (delete_at (member_path s.nqn (codes "namespace") (print_int n.nsid)))

  -- A loop over entries whose failures are only reported.
  unfoldable pub send_each : {A : Type 0} → (A → W → Bool × W) → List A → W → W
  send_each f [] w = w
  send_each f (x ∷ xs) w = send_each f xs (f x w).1

  -- The hosts' loop of `config_subsys_oob`: `continue` after a failure.
  abbrev pub config_host_oob : Subsystem → Host → W → Bool × W
  config_host_oob s h w =
      before (r.send (post_to (codes "host") (build_set_host_oob h.nqn)) w)
        (λ v. r.send (post_to (tag_path s.nqn (codes "host")) (build_set_host_oob h.nqn)) v)

  abbrev pub config_ns_oob : Subsystem → Ns → W → Bool × W
  config_ns_oob s n = r.send (post_to (tag_path s.nqn (codes "namespace")) (build_set_ns_oob n))

  abbrev pub config_link_oob : Subsystem → PortId → W → Bool × W
  config_link_oob s p =
      r.send (post_to (tag_path s.nqn (codes "portid")) (build_set_portid_oob p.portid))

  -- Only the first request's failure is returned.
  unfoldable pub config_subsys_oob : List PortId → Subsystem → W → Bool × W
  unfolding send_each
  config_subsys_oob ports s w =
      before (r.send (post_to (codes "subsystem") (build_set_subsys_oob s)) w) (λ v.
        let v' =
          send_each (config_host_oob s) s.host_list (send_each (config_ns_oob s) s.ns_list v) in
        if is_restricted s && is_empty s.host_list
        then (true, v')
        else (true, send_each (config_link_oob s) ports v'))

  unfoldable pub config_subsys_at : MgmtMode → List PortId → Subsystem → W → Bool × W
  unfolding config_subsys_oob
  config_subsys_at in_band_mgmt ports s w = r.send (inband (set_subsys s)) w
  config_subsys_at out_of_band_mgmt ports s w = config_subsys_oob ports s w
  config_subsys_at local_mgmt ports s w = (true, w)
