-- ===== src/Dem/Config/Managed/Calls.antt =====
-- The calls that the operations of src/dem/config.c on one object make at an endpoint manager.
use nvme_dem.Prelude.{
  ◌≡◌, refl, ap, ap₂, fun_ext, All, Bool, true, ◌&&◌, List, [], ◌∷◌, ◌++◌, arith, CStr, codes,
  streq, pos, if◌then◌else◌,
}
use nvme_dem.Parse.Decimal.{print_int, atoi-print_int}
use nvme_dem.Dem.State.{Host, Ns, Subsystem, PortId, out_of_band_mgmt}
use nvme_dem.Dem.LogPages.Refresh.{is_restricted, is_empty}
use nvme_dem.Dem.Config.Oob.{OobIface, get_uri, path}
use nvme_dem.Dem.Config.Remote.{
  before, config_portid, link_host_to, unlink_host_from, del_host_at, link_portid_to,
  unlink_portid_from, del_subsys_at, del_portid_at, set_ns_at, del_ns_at,
}
use nvme_dem.Dem.Config.Managed.{IsPart, Fits, HttpClient}
use nvme_dem.Dem.Config.Managed.Delivery.{
  there, deletion, delete-call, port-call, host-call, allow-call, enable-call, set_ns-call,
  subsystem-IsPart, portid-IsPart, namespace-IsPart, host-IsPart, print_int-IsPart,
}
use nvme_dem.Endpoint.Ops.{
  delete_subsys, delete_host, create_host, create_ns, create_portid, delete_ns, delete_portid,
  link_host_to_subsys, unlink_host_from_subsys, link_port_to_subsys, unlink_port_from_subsys, Ops,
}
use nvme_dem.Endpoint.Report.{NsDev, Iface}
use nvme_dem.Endpoint.Rest.Json.{Jansson, Reads, IsInt}
use nvme_dem.Endpoint.Rest.Answer.{deleted}
use nvme_dem.Endpoint.Rest.Post.{is_portid}
use nvme_dem.Endpoint.Rest.Delete.{
  delete_request, del_portid, del_subsys, del_ns, del_host, unlink_host, unlink_portid,
}
use nvme_dem.Endpoint.Rest.Made.{port_fields, host_fields, ns_fields, portid_fields}

module _ {S J : Type 0} (ops : Ops S) (json : Jansson J) (devices : List NsDev)
    (interfaces : List Iface) (client : HttpClient) (o : OobIface)
    (asks : (ps : List CStr)
      → All IsPart ps
      → client.request_uri (get_uri o ++ path ps) ≡ b'/' ∷ path ps) where
  -- Making and linking an object out of band, whose requests fit their buffers and
  -- are read by the JSON library, makes the call
  -- that is meant at the manager's target and returns its result. For a host these are two calls, the
  -- second if the first succeeds, and for a port no call where the subsystem is restricted and has no host.
  pub requests_make_calls :
      (u : Subsystem) (h : Host) (n : Ns) (p : PortId) (s : S)
      → IsPart u.nqn
      → Reads json (host_fields h.nqn)
      → Reads json (ns_fields n)
      → Reads json (port_fields p)
      → Reads json (portid_fields p.portid)
      → IsInt n.devid
      → IsInt n.devns
      → is_portid p.portid ≡ true
      → IsInt p.portid
      → IsInt p.port_num
      → Fits o (codes "portid" ∷ print_int p.portid ∷ [])
      → Fits o (codes "subsystem" ∷ u.nqn ∷ codes "namespace" ∷ print_int n.nsid ∷ [])
      → Fits o (codes "host" ∷ [])
      → Fits o (codes "subsystem" ∷ u.nqn ∷ codes "host" ∷ [])
      → Fits o (codes "subsystem" ∷ u.nqn ∷ codes "portid" ∷ [])
      → (config_portid (there ops json devices interfaces client o asks) out_of_band_mgmt p s
          ≡ ops.perform (create_portid p.portid p.family p.type (pos 0) p.address p.port_num) s)
        × (set_ns_at (there ops json devices interfaces client o asks) out_of_band_mgmt u n s
            ≡ ops.perform (create_ns u.nqn n.nsid n.devid n.devns) s)
        × (link_host_to (there ops json devices interfaces client o asks) out_of_band_mgmt u h s
            ≡ before
                (there ops json devices interfaces client o asks)
                (ops.perform (create_host h.nqn) s)
                (λ t. ops.perform (link_host_to_subsys u.nqn h.nqn) t))
        × (link_portid_to (there ops json devices interfaces client o asks) out_of_band_mgmt u p s
            ≡ (if is_restricted u && is_empty u.host_list
                then (true, s)
                else ops.perform (link_port_to_subsys u.nqn p.portid) s))
  unfolding link_host_to link_portid_to
  requests_make_calls u h n p s k rh rn rp ri hd hn hp hi hs fp fn fh fl fe = (
    port-call ops json devices interfaces client o asks p s rp hp hs fp,
    set_ns-call ops json devices interfaces client o asks u n s k rn hd hn fn,
    ap₂ (before (there ops json devices interfaces client o asks))
        (host-call ops json devices interfaces client o asks h.nqn s rh fh)
        (fun_ext (λ v. allow-call ops json devices interfaces client o asks u.nqn h.nqn v k rh fl)),
    ap (λ (b : Bool × S). if is_restricted u && is_empty u.host_list then (true, s) else b)
        (enable-call ops json devices interfaces client o asks u.nqn p.portid s k ri hi fe),
  )

  -- Deleting and unlinking an object out of band, with URIs that fit their buffers, makes the call that
  -- is meant at the manager's target.
  -- It returns success if the call succeeds, and where it fails, what the HTTP library makes of a
  -- status line that has no code.
  pub deletions_make_calls :
      (u : Subsystem) (h : Host) (n : Ns) (p : PortId) (s : S)
      → IsPart u.nqn
      → IsPart h.nqn
      → Fits o (codes "subsystem" ∷ u.nqn ∷ [])
      → Fits o (codes "host" ∷ h.nqn ∷ [])
      → Fits o (codes "subsystem" ∷ u.nqn ∷ codes "namespace" ∷ print_int n.nsid ∷ [])
      → Fits o (codes "portid" ∷ print_int p.portid ∷ [])
      → Fits o (codes "subsystem" ∷ u.nqn ∷ codes "host" ∷ h.nqn ∷ [])
      → Fits o (codes "subsystem" ∷ u.nqn ∷ codes "portid" ∷ print_int p.portid ∷ [])
      → (del_subsys_at (there ops json devices interfaces client o asks) out_of_band_mgmt u s
          ≡ deletion ops json devices interfaces client o asks (delete_subsys u.nqn) s)
        × (del_host_at (there ops json devices interfaces client o asks) out_of_band_mgmt h.nqn s
            ≡ deletion ops json devices interfaces client o asks (delete_host h.nqn) s)
        × (del_ns_at (there ops json devices interfaces client o asks) out_of_band_mgmt u n s
            ≡ deletion ops json devices interfaces client o asks (delete_ns u.nqn n.nsid) s)
        × (del_portid_at (there ops json devices interfaces client o asks) out_of_band_mgmt p s
            ≡ deletion ops json devices interfaces client o asks (delete_portid p.portid) s)
        × (unlink_host_from (there ops json devices interfaces client o asks) out_of_band_mgmt u h s
            ≡ deletion ops json devices interfaces client o asks
                (unlink_host_from_subsys u.nqn h.nqn)
                s)
        × (unlink_portid_from
              (there ops json devices interfaces client o asks)
              out_of_band_mgmt
              u
              p
              s
            ≡ deletion ops json devices interfaces client o asks
                (unlink_port_from_subsys u.nqn p.portid)
                s)
  unfolding del_subsys_at del_host_at del_ns_at del_portid_at unlink_host_from unlink_portid_from
      delete_request streq del_subsys del_host del_ns del_portid unlink_host unlink_portid
  deletions_make_calls u h n p s k l f0 f1 f2 f3 f4 f5 = (
    delete-call ops json devices interfaces client o asks (codes "subsystem") (u.nqn ∷ []) s
        (delete_subsys u.nqn) _ _ (subsystem-IsPart, (k, tt)) (omega arith) f0 refl,
    delete-call ops json devices interfaces client o asks (codes "host") (h.nqn ∷ []) s
        (delete_host h.nqn) _ _ (host-IsPart, (l, tt)) (omega arith) f1 refl,
    delete-call ops json devices interfaces client o asks (codes "subsystem")
        (u.nqn ∷ codes "namespace" ∷ print_int n.nsid ∷ []) s (delete_ns u.nqn n.nsid) _ _
        (subsystem-IsPart, (k, (namespace-IsPart, (print_int-IsPart n.nsid, tt)))) (omega arith) f2
        (ap
          (λ z.
            deleted ops json (delete_ns u.nqn z)
              (codes "Unable to delete ns "
                ++ (print_int n.nsid ++ (codes " from subsys " ++ u.nqn)))
              (codes "Deleted ns " ++ (print_int n.nsid ++ (codes " from subsys " ++ u.nqn))) s)
          (atoi-print_int n.nsid)),
    delete-call ops json devices interfaces client o asks (codes "portid") (print_int p.portid ∷ [])
        s (delete_portid p.portid) _ _ (portid-IsPart, (print_int-IsPart p.portid, tt))
        (omega arith) f3
        (ap
          (λ z.
            deleted ops json (delete_portid z)
              (codes "Unable to delete portid " ++ print_int p.portid)
              (codes "Deleted portid " ++ print_int p.portid) s)
          (atoi-print_int p.portid)),
    delete-call ops json devices interfaces client o asks (codes "subsystem")
        (u.nqn ∷ codes "host" ∷ h.nqn ∷ []) s (unlink_host_from_subsys u.nqn h.nqn) _ _
        (subsystem-IsPart, (k, (host-IsPart, (l, tt)))) (omega arith) f4 refl,
    delete-call ops json devices interfaces client o asks (codes "subsystem")
        (u.nqn ∷ codes "portid" ∷ print_int p.portid ∷ []) s
        (unlink_port_from_subsys u.nqn p.portid) _ _
        (subsystem-IsPart, (k, (portid-IsPart, (print_int-IsPart p.portid, tt)))) (omega arith) f5
        (ap
          (λ z.
            deleted ops json (unlink_port_from_subsys u.nqn z)
              (codes "Unable to delete port "
                ++ (print_int p.portid ++ (codes " from subsys " ++ u.nqn)))
              (codes "Deleted port " ++ (print_int p.portid ++ (codes " from subsys " ++ u.nqn))) s)
          (atoi-print_int p.portid)),
  )
