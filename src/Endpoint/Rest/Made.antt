-- ===== src/Endpoint/Rest/Made.antt =====
-- The calls that the POST requests of src/endpoint/restful.c make of a body that the library reads.
use nvme_dem.Prelude.{
  ◌≡◌, refl, true, List, [], ◌∷◌, ◌++◌, none, some, map, if◌then◌else◌, CStr, codes, streq, ℤ, pos,
  eqb_ℤ,
}
use nvme_dem.Parse.Decimal.{print_int, atoi-print_int}
use nvme_dem.Dem.State.{Ns, PortId, Subsystem}
use nvme_dem.Dem.Config.Oob.{object}
use nvme_dem.Endpoint.Ops.{
  create_host, create_subsys, create_ns, create_portid, link_host_to_subsys, link_port_to_subsys,
  Ops,
}
use nvme_dem.Endpoint.Rest.Json.{Jansson, Field, text, number, printed, Reads, IsInt, int_of_fits}
use nvme_dem.Endpoint.Rest.Answer.{carried}
use nvme_dem.Endpoint.Rest.Post.{
  is_portid, with_nsid, post_portid, post_subsys, post_ns, post_host, link_host, link_portid,
}

-- The members of the bodies of build_..._oob.
abbrev pub port_fields : PortId → List Field
port_fields p =
    text (codes "TRTYPE") p.type
    ∷ text (codes "ADRFAM") p.family
    ∷ text (codes "TRADDR") p.address
    ∷ number (codes "TRSVCID") p.port_num
    ∷ []

abbrev pub host_fields : CStr → List Field
host_fields nqn = text (codes "HOSTNQN") nqn ∷ []

abbrev pub subsys_fields : Subsystem → List Field
subsys_fields s = text (codes "SUBNQN") s.nqn ∷ number (codes "AllowAnyHost") s.access ∷ []

abbrev pub ns_fields : Ns → List Field
ns_fields n =
    number (codes "NSID") n.nsid
    ∷ number (codes "DeviceID") n.devid
    ∷ number (codes "DeviceNSID") n.devns
    ∷ []

abbrev pub portid_fields : ℤ → List Field
portid_fields z = number (codes "PORTID") z ∷ []

-- The access as the endpoint takes it.
abbrev pub allow_any : ℤ → ℤ
allow_any z = if eqb_ℤ z (pos 0) then pos 0 else pos 1

abbrev pub body_of : List Field → CStr
body_of fs = object (map printed fs)

module _ {S J : Type 0} (ops : Ops S) (json : Jansson J) where
  pub port_made :
      (p : PortId) (s : S)
      → Reads json (port_fields p)
      → is_portid p.portid ≡ true
      → IsInt p.port_num
      → post_portid ops json (some (print_int p.portid)) (body_of (port_fields p)) s
        ≡ carried ops json
            (create_portid p.portid p.family p.type (pos 0) p.address p.port_num)
            (codes "Configured portid " ++ print_int p.portid)
            s
  unfolding post_portid streq
  port_made p s r h i =
      let (typ, get_typ, is_typ) = r.has.0 in
      let (fam, get_fam, is_fam) = r.has.1.0 in
      let (addr, get_addr, is_addr) = r.has.1.1.0 in
      let (svc, get_svc, is_svc) = r.has.1.1.1.0 in
      let treq = r.absent (codes "TREQ") refl in
      rw
        (
          atoi-print_int p.portid,
          h,
          r.loaded,
          get_typ,
          get_fam,
          get_addr,
          get_svc,
          is_typ,
          is_fam,
          is_addr,
          is_svc,
          treq,
          int_of_fits p.port_num i,
        )
        refl

  pub host_made :
      (nqn : CStr) (s : S)
      → Reads json (host_fields nqn)
      → post_host ops json none (body_of (host_fields nqn)) s
        ≡ carried ops json (create_host nqn) (codes "Configured host " ++ nqn) s
  unfolding post_host
  host_made nqn s r = let (o, get, is_host) = r.has.0 in rw (r.loaded, get, is_host) refl

  pub link_host_made :
      (subsys nqn : CStr) (s : S)
      → Reads json (host_fields nqn)
      → link_host ops json subsys (body_of (host_fields nqn)) s
        ≡ carried ops json
            (link_host_to_subsys subsys nqn)
            (codes "Configured host " ++ (nqn ++ (codes " for subsys " ++ subsys)))
            s
  unfolding link_host
  link_host_made subsys nqn s r =
      let (o, get, is_host) = r.has.0 in rw (r.loaded, get, is_host) refl

  pub subsys_made :
      (u : Subsystem) (s : S)
      → Reads json (subsys_fields u)
      → post_subsys ops json none (body_of (subsys_fields u)) s
        ≡ carried ops json
            (create_subsys u.nqn (allow_any u.access))
            (codes "Configured subsys " ++ u.nqn)
            s
  unfolding post_subsys
  subsys_made u s r =
      let (n, get_nqn, is_nqn) = r.has.0 in
      let (a, get_access, is_access) = r.has.1.0 in
      rw (r.loaded, get_nqn, is_nqn, get_access, is_access) refl

  ns_body :
      (subsys : CStr) (n : Ns) (s : S) (r : Reads json (ns_fields n))
      → IsInt n.devid
      → IsInt n.devns
      → with_nsid ops json subsys r.value s (some n.nsid)
        ≡ carried ops json
            (create_ns subsys n.nsid n.devid n.devns)
            (codes "Configured nsid " ++ print_int n.nsid)
            s
  ns_body subsys n s r hd hn =
      let (d, get_dev, is_dev) = r.has.1.0 in
      let (m, get_ns, is_ns) = r.has.1.1.0 in
      rw (get_dev, is_dev, int_of_fits n.devid hd, get_ns, is_ns, int_of_fits n.devns hn) refl

  -- The id stands in the path, or in the body.
  pub ns_made :
      (subsys : CStr) (n : Ns) (s : S)
      → Reads json (ns_fields n)
      → IsInt n.devid
      → IsInt n.devns
      → post_ns ops json subsys (some (print_int n.nsid)) (body_of (ns_fields n)) s
        ≡ carried ops json
            (create_ns subsys n.nsid n.devid n.devns)
            (codes "Configured nsid " ++ print_int n.nsid)
            s
  unfolding post_ns
  ns_made subsys n s r hd hn = rw (r.loaded, atoi-print_int n.nsid) (ns_body subsys n s r hd hn)

  pub ns_added :
      (subsys : CStr) (n : Ns) (s : S)
      → Reads json (ns_fields n)
      → IsInt n.nsid
      → IsInt n.devid
      → IsInt n.devns
      → post_ns ops json subsys none (body_of (ns_fields n)) s
        ≡ carried ops json
            (create_ns subsys n.nsid n.devid n.devns)
            (codes "Configured nsid " ++ print_int n.nsid)
            s
  unfolding post_ns
  ns_added subsys n s r hi hd hn =
      let (i, get_id, is_id) = r.has.0 in
      rw (r.loaded, get_id, is_id, int_of_fits n.nsid hi) (ns_body subsys n s r hd hn)

  pub portid_made :
      (subsys : CStr) (z : ℤ) (s : S)
      → Reads json (portid_fields z)
      → IsInt z
      → link_portid ops json subsys (body_of (portid_fields z)) s
        ≡ carried ops json
            (link_port_to_subsys subsys z)
            (codes "Enabled subsys " ++ (subsys ++ (codes " on portid " ++ print_int z)))
            s
  unfolding link_portid
  portid_made subsys z s r h =
      let (o, get, is_id) = r.has.0 in rw (r.loaded, get, is_id, int_of_fits z h) refl
