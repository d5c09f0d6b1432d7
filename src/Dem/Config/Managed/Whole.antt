-- ===== src/Dem/Config/Managed/Whole.antt =====
-- The calls that a configuration out of band of a whole target makes at an endpoint manager.
use nvme_dem.Prelude.{
  arith, length-append, codes, ◌≡◌, refl, sym, ◌∙◌, ap, Bool, true, false, ◌&&◌, List, [], ◌∷◌,
  ◌++◌, All, if◌then◌else◌, CStr, pos,
}
use nvme_dem.Parse.Decimal.{print_int}
use nvme_dem.Dem.State.{Host, Ns, Subsystem, PortId, Target, out_of_band_mgmt}
use nvme_dem.Dem.LogPages.Refresh.{Fabric, is_restricted, is_empty, refresh_log_pages}
use nvme_dem.Dem.Config.Oob.{OobIface, get_uri, path}
use nvme_dem.Dem.Config.Remote.{
  Remote, config_portid, config_host_oob, config_ns_oob, config_link_oob, config_subsys_oob,
  send_each,
}
use nvme_dem.Dem.Config.Targets.{until_failure, config_target_oob}
use nvme_dem.Dem.Config.Targets.Plan.{each_of}
use nvme_dem.Dem.Config.Managed.{Fits, IsPart, HttpClient}
use nvme_dem.Dem.Config.Managed.Delivery.{
  there, port-call, subsys-call, host-call, allow-call, add_ns-call, enable-call,
}
use nvme_dem.Endpoint.Ops.{
  Call, create_host, create_subsys, create_ns, create_portid, link_host_to_subsys,
  link_port_to_subsys, Ops,
}
use nvme_dem.Endpoint.Report.{NsDev, Iface}
use nvme_dem.Endpoint.Rest.Json.{Jansson, Reads, IsInt}
use nvme_dem.Endpoint.Rest.Post.{is_portid}
use nvme_dem.Endpoint.Rest.Made.{
  port_fields, host_fields, subsys_fields, ns_fields, portid_fields, allow_any,
}

-- What a target is to its endpoint, in the terms of the DEM.
abbrev pub port_calls : PortId → List Call
port_calls p = create_portid p.portid p.family p.type (pos 0) p.address p.port_num ∷ []

abbrev pub host_calls : Subsystem → Host → List Call
host_calls u h = create_host h.nqn ∷ link_host_to_subsys u.nqn h.nqn ∷ []

abbrev pub ns_calls : Subsystem → Ns → List Call
ns_calls u n = create_ns u.nqn n.nsid n.devid n.devns ∷ []

abbrev pub enable_calls : Subsystem → PortId → List Call
enable_calls u p = link_port_to_subsys u.nqn p.portid ∷ []

abbrev pub subsys_calls : List PortId → Subsystem → List Call
subsys_calls ports u =
    create_subsys u.nqn (allow_any u.access)
    ∷ (each_of (ns_calls u) u.ns_list
        ++ (each_of (host_calls u) u.host_list
            ++ (if is_restricted u && is_empty u.host_list
                then []
                else each_of (enable_calls u) ports)))

abbrev pub target_calls : Target → List Call
target_calls t =
    each_of port_calls t.portid_list ++ each_of (subsys_calls t.portid_list) t.subsys_list

-- The target of an endpoint after the calls.
abbrev pub made : {S : Type 0} → Ops S → List Call → S → S
made ops [] s = s
made ops (c ∷ cs) s = made ops cs (ops.perform c s).1

made-append :
    {S : Type 0} (ops : Ops S) (as_ bs : List Call) (s : S)
    → made ops (as_ ++ bs) s ≡ made ops bs (made ops as_ s)
made-append ops [] bs s = refl
made-append ops (a ∷ as_) bs s = made-append ops as_ bs (ops.perform a s).1

-- The JSON library reads the bodies, the numbers and names fit, and so do the URIs in their buffers.
module _ {J : Type 0} (json : Jansson J) (o : OobIface) where
  abbrev pub IsPort : PortId → Type 0
  IsPort p =
      Reads json (port_fields p)
      × (is_portid p.portid ≡ true)
      × IsInt p.port_num
      × Reads json (portid_fields p.portid)
      × IsInt p.portid
      × Fits o (codes "portid" ∷ print_int p.portid ∷ [])

  abbrev pub IsNs : Ns → Type 0
  IsNs n = Reads json (ns_fields n) × IsInt n.nsid × IsInt n.devid × IsInt n.devns

  -- A request for what belongs to the subsystem fits.
  abbrev pub HasRoom : Subsystem → CStr → Type 0
  HasRoom u tag = Fits o (codes "subsystem" ∷ u.nqn ∷ tag ∷ [])

  abbrev pub IsSubsys : Subsystem → Type 0
  IsSubsys u =
      IsPart u.nqn
      × Reads json (subsys_fields u)
      × All IsNs u.ns_list
      × All (λ h. Reads json (host_fields h.nqn)) u.host_list
      × HasRoom u (codes "namespace")
      × HasRoom u (codes "host")
      × HasRoom u (codes "portid")

module _ {S : Type 0} (ops : Ops S) (r : Remote S) {A : Type 0} (P : A → Type 0)
    (f : A → S → Bool × S) (g : A → List Call)
    (same : (x : A) (s : S) → P x → f x s ≡ (true, made ops (g x) s)) where
  send_each-made : (xs : List A) (s : S) → All P xs → send_each r f xs s ≡ made ops (each_of g xs) s
  unfolding send_each
  send_each-made [] s h = refl
  send_each-made (x ∷ xs) s h =
      rw (same x s h.0)
        (send_each-made xs (made ops (g x) s) h.1 ∙ sym (made-append ops (g x) (each_of g xs) s))

  until_failure-made :
      (xs : List A) (s : S) → All P xs → until_failure r f xs s ≡ (true, made ops (each_of g xs) s)
  unfolding until_failure
  until_failure-made [] s h = refl
  until_failure-made (x ∷ xs) s h = rw (same x s h.0) (
      until_failure-made xs (made ops (g x) s) h.1
      ∙ ap (λ t. (true, t)) (sym (made-append ops (g x) (each_of g xs) s)))

module _ {S J : Type 0} (ops : Ops S) (json : Jansson J) (devices : List NsDev)
    (interfaces : List Iface) (client : HttpClient) (o : OobIface)
    (asks : (ps : List CStr)
      → All IsPart ps
      → client.request_uri (get_uri o ++ path ps) ≡ b'/' ∷ path ps)
    (accepts : (c : Call) (s : S) → (ops.perform c s).0 ≡ true) where
  abbrev manager_of : Remote S
  manager_of = there ops json devices interfaces client o asks

  done : (c : Call) (s : S) → ops.perform c s ≡ (true, (ops.perform c s).1)
  done c s = ap (λ b. (b, (ops.perform c s).1)) (accepts c s)

  -- Shorter requests fit as well.
  host_room : (u : Subsystem) → HasRoom json o u (codes "host") → Fits o (codes "host" ∷ [])
  host_room u h = omega (
    arith,
    length-append (get_uri o) (codes "host"),
    length-append (get_uri o) (path (codes "subsystem" ∷ u.nqn ∷ codes "host" ∷ [])),
    length-append u.nqn (b'/' ∷ codes "host"),
  )

  subsys_room :
      (u : Subsystem) → HasRoom json o u (codes "portid") → Fits o (codes "subsystem" ∷ [])
  subsys_room u h = omega (
    arith,
    length-append (get_uri o) (codes "subsystem"),
    length-append (get_uri o) (path (codes "subsystem" ∷ u.nqn ∷ codes "portid" ∷ [])),
    length-append u.nqn (b'/' ∷ codes "portid"),
  )

  port-made :
      (p : PortId) (s : S)
      → IsPort json o p
      → config_portid manager_of out_of_band_mgmt p s ≡ (true, made ops (port_calls p) s)
  port-made p s h =
      port-call ops json devices interfaces client o asks p s h.0 h.1 h.2 h.5 ∙ done _ s

  ns-made :
      (u : Subsystem)
      → IsPart u.nqn
      → HasRoom json o u (codes "namespace")
      → (n : Ns) (s : S) → IsNs json o n
      → config_ns_oob manager_of u n s ≡ (true, made ops (ns_calls u n) s)
  ns-made u k r n s h =
      add_ns-call ops json devices interfaces client o asks u.nqn n s k h.0 h.1 h.2 h.3 r ∙ done _ s

  link-made :
      (u : Subsystem)
      → IsPart u.nqn
      → HasRoom json o u (codes "portid")
      → (p : PortId) (s : S) → IsPort json o p
      → config_link_oob manager_of u p s ≡ (true, made ops (enable_calls u p) s)
  link-made u k r p s h =
      enable-call ops json devices interfaces client o asks u.nqn p.portid s k h.3 h.4 r ∙ done _ s

  host-made :
      (u : Subsystem)
      → IsPart u.nqn
      → HasRoom json o u (codes "host")
      → (h : Host) (s : S) → Reads json (host_fields h.nqn)
      → config_host_oob manager_of u h s ≡ (true, made ops (host_calls u h) s)
  host-made u k f h s r =
      rw
        (host-call ops json devices interfaces client o asks h.nqn s r (host_room u f)
          ∙ done (create_host h.nqn) s)
        (allow-call ops json devices interfaces client o asks u.nqn h.nqn
            (ops.perform (create_host h.nqn) s).1 k r f
          ∙ done _ _)

  abbrev ended : S → Bool × S
  ended s = (true, s)

  spaces_and_hosts-made :
      (u : Subsystem) (s : S)
      → IsSubsys json o u
      → send_each manager_of
          (config_host_oob manager_of u)
          u.host_list
          (send_each manager_of (config_ns_oob manager_of u) u.ns_list s)
        ≡ made ops
            (each_of (host_calls u) u.host_list)
            (made ops (each_of (ns_calls u) u.ns_list) s)
  spaces_and_hosts-made u s h =
      ap (send_each manager_of (config_host_oob manager_of u) u.host_list) (
        send_each-made ops manager_of (IsNs json o) (config_ns_oob manager_of u) (ns_calls u)
          (ns-made u h.0 h.4) u.ns_list s h.2)
      ∙ send_each-made ops manager_of (λ (k : Host). Reads json (host_fields k.nqn))
          (config_host_oob manager_of u) (host_calls u) (host-made u h.0 h.5) u.host_list
          (made ops (each_of (ns_calls u) u.ns_list) s) h.3

  links_unless-made :
      (c : Bool) (ports : List PortId) (u : Subsystem) (s : S)
      → All (IsPort json o) ports
      → IsPart u.nqn
      → HasRoom json o u (codes "portid")
      → (if c then ended s else ended (send_each manager_of (config_link_oob manager_of u) ports s))
        ≡ (true, made ops (if c then [] else each_of (enable_calls u) ports) s)
  links_unless-made true ports u s h k f = refl
  links_unless-made false ports u s h k f =
      ap (λ t. (true, t))
        (send_each-made ops manager_of (IsPort json o) (config_link_oob manager_of u)
          (enable_calls u) (link-made u k f) ports s h)

  subsys-made :
      (ports : List PortId)
      → All (IsPort json o) ports
      → (u : Subsystem) (s : S) → IsSubsys json o u
      → config_subsys_oob manager_of ports u s ≡ (true, made ops (subsys_calls ports u) s)
  unfolding config_subsys_oob
  subsys-made ports hp u s h =
      let call = create_subsys u.nqn (allow_any u.access) in
      let t = (ops.perform call s).1 in
      let c = is_restricted u && is_empty u.host_list in
      let spaces = each_of (ns_calls u) u.ns_list in
      let hosts = each_of (host_calls u) u.host_list in
      let links : List Call = if c then [] else each_of (enable_calls u) ports in
      rw
        (subsys-call ops json devices interfaces client o asks u s h.1 (subsys_room u h.6)
          ∙ done call s)
        (links_unless-made c ports u
            (send_each manager_of (config_host_oob manager_of u) u.host_list
              (send_each manager_of (config_ns_oob manager_of u) u.ns_list t))
            hp h.0 h.6
          ∙ ap (λ z. (true, made ops links z)) (spaces_and_hosts-made u t h)
          ∙ ap (λ z. (true, z))
              (sym (
                made-append ops spaces (hosts ++ links) t
                ∙ made-append ops hosts links (made ops spaces t))))

  -- A configuration out of band of a target whose endpoint manager accepts every call, and whose
  -- requests fit their buffers and are read by the JSON library, succeeds: the calls of its ports, and of each subsystem itself,
  -- its namespaces, its hosts and its links, are made at the manager's target, each once and in this
  -- order, and the target is refreshed. The links are to all ports, unless the subsystem is restricted
  -- and has no host.
  pub config_target_oob-made :
      (f : Fabric) (t : Target) (s : S)
      → All (IsPort json o) t.portid_list
      → All (IsSubsys json o) t.subsys_list
      → config_target_oob manager_of f t s
        ≡ (true, refresh_log_pages f t, made ops (target_calls t) s)
  unfolding config_target_oob
  config_target_oob-made f t s hp hs =
      let ports = each_of port_calls t.portid_list in
      let subsystems = each_of (subsys_calls t.portid_list) t.subsys_list in
      rw
        (
          until_failure-made ops manager_of (IsPort json o)
              (config_portid manager_of out_of_band_mgmt) port_calls port-made t.portid_list s hp,
          until_failure-made ops manager_of (IsSubsys json o)
              (config_subsys_oob manager_of t.portid_list) (subsys_calls t.portid_list)
              (subsys-made t.portid_list hp) t.subsys_list (made ops ports s) hs,
        )
        (ap (λ z. (true, refresh_log_pages f t, z)) (sym (made-append ops ports subsystems s)))
