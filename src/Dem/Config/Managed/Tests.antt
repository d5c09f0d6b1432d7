-- ===== src/Dem/Config/Managed/Tests.antt =====
-- Examples for a configuration out of band, from src/dem/config.c to src/endpoint/restful.c.
use nvme_dem.Prelude.{
  ℕ, zero, suc, ◌≡◌, refl, true, false, List, [], ◌∷◌, ◌++◌, Option, none, some, arith, All, any,
  find, if◌then◌else◌, CStr, codes, streq, ℤ, pos,
}
use nvme_dem.Parse.Decimal.{print_int, decimal, digits_of}
use nvme_dem.Dem.State.{Host, Ns, Subsystem, PortId, Target, out_of_band_mgmt}
use nvme_dem.Dem.LogPages.Refresh.{Fabric, is_restricted, refresh_log_pages}
use nvme_dem.Dem.Config.Oob.{OobIface, get_uri, path}
use nvme_dem.Dem.Config.Remote.{
  config_portid, link_host_to, unlink_host_from, del_host_at, link_portid_to, unlink_portid_from,
  del_subsys_at, del_portid_at, set_ns_at, del_ns_at,
}
use nvme_dem.Dem.Config.Targets.{config_target_oob}
use nvme_dem.Dem.Config.Managed.{Fits, IsPart, HttpClient}
use nvme_dem.Dem.Config.Managed.Delivery.{there}
use nvme_dem.Dem.Config.Managed.Calls.{requests_make_calls, deletions_make_calls}
use nvme_dem.Dem.Config.Managed.Whole.{made, target_calls, config_target_oob-made}
use nvme_dem.Endpoint.Ops.{
  Call, delete_subsys, delete_host, create_host, create_ns, create_portid, delete_ns, delete_portid,
  link_host_to_subsys, unlink_host_from_subsys, link_port_to_subsys, unlink_port_from_subsys, Ops,
}
use nvme_dem.Endpoint.Rest.Json.{Jansson, Field, text, number, tag_of, Reads}
use nvme_dem.Endpoint.Rest.Made.{
  port_fields, host_fields, subsys_fields, ns_fields, portid_fields, body_of,
}

abbrev recorder : Ops (List Call)
recorder = record { perform = λ c s. (true, c ∷ s) }

abbrev host : Host
host = record { alias = codes "one"; nqn = codes "h1" }

abbrev space : Ns
space = record { nsid = pos 1; devid = pos 0; devns = pos 1 }

abbrev subsystem : Subsystem
subsystem = record {
  id = 7;
  nqn = codes "s";
  access = pos 0;
  host_list = host ∷ [];
  ns_list = space ∷ [];
  logpage_list = [];
}

abbrev port : PortId
port = record {
  id = 4;
  portid = pos 1;
  type = codes "rdma";
  family = codes "ipv4";
  address = codes "10.0.0.1";
  port_num = pos 4420;
}

abbrev target : Target
target = record {
  id = 3;
  alias = codes "t";
  subsys_list = subsystem ∷ [];
  portid_list = port ∷ [];
  discovery_queue_list = [];
  unattached_logpage_list = [];
  mgmt_mode = out_of_band_mgmt;
  refresh = pos 0;
  log_page_retry_count = pos 0;
  refresh_countdown = pos 0;
  kato_countdown = pos 0;
  group_member = false;
  inb_connected = false;
}

abbrev fabric : Fabric
fabric = record {
  connects = λ q. false;
  kato_refused = λ q. false;
  header = λ q. none;
  pages = λ q n. none;
}

-- A library that knows the bodies of the example: the object of a list of members, a text or a number.
data Value : Type 0 where
  object_of : List Field → Value
  text_of : CStr → Value
  number_of : ℤ → Value

abbrev of_field : Field → Value
of_field (text tag s) = text_of s
of_field (number tag z) = number_of z

abbrev member_of : List Field → CStr → Option Value
member_of [] tag = none
member_of (f ∷ fs) tag =
    let rest = member_of fs tag in if streq (tag_of f) tag then some (of_field f) else rest

abbrev bodies : List (List Field)
bodies =
    port_fields port
    ∷ subsys_fields subsystem
    ∷ ns_fields space
    ∷ host_fields host.nqn
    ∷ portid_fields port.portid
    ∷ []

abbrev of_known : Option (List Field) → Option Value
of_known none = none
of_known (some fs) = some (object_of fs)

abbrev library_get : Value → CStr → Option Value
library_get (object_of fs) tag = member_of fs tag
library_get v tag = none

abbrev library_text : Value → Option CStr
library_text (text_of s) = some s
library_text v = none

abbrev library_number : Value → ℤ
library_number (number_of z) = z
library_number v = pos 0

abbrev library : Jansson Value
library = record {
  loads = λ b. of_known (find (λ fs. streq (body_of fs) b) bodies);
  object_get = library_get;
  string_value = library_text;
  integer_value = library_number;
}

member_absent :
    (fs : List Field) (tag : CStr)
    → any (λ f. streq (tag_of f) tag) fs ≡ false
    → member_of fs tag ≡ none
member_absent [] tag h = refl
member_absent (f ∷ fs) tag h = ground (arith, member_absent fs tag)

port_read : Reads library (port_fields port)
unfolding streq print_int decimal digits_of
port_read = record {
  value = object_of (port_fields port);
  loaded = refl;
  has = (
    (text_of port.type, refl, refl),
    (
      (text_of port.family, refl, refl),
      ((text_of port.address, refl, refl), ((number_of port.port_num, refl, refl), tt)),
    ),
  );
  absent = member_absent (port_fields port);
}

subsys_read : Reads library (subsys_fields subsystem)
unfolding streq print_int decimal digits_of
subsys_read = record {
  value = object_of (subsys_fields subsystem);
  loaded = refl;
  has = ((text_of subsystem.nqn, refl, refl), ((number_of subsystem.access, refl, refl), tt));
  absent = member_absent (subsys_fields subsystem);
}

ns_read : Reads library (ns_fields space)
unfolding streq print_int decimal digits_of
ns_read = record {
  value = object_of (ns_fields space);
  loaded = refl;
  has = (
    (number_of space.nsid, refl, refl),
    ((number_of space.devid, refl, refl), ((number_of space.devns, refl, refl), tt)),
  );
  absent = member_absent (ns_fields space);
}

host_read : Reads library (host_fields host.nqn)
unfolding streq print_int decimal digits_of
host_read = record {
  value = object_of (host_fields host.nqn);
  loaded = refl;
  has = ((text_of host.nqn, refl, refl), tt);
  absent = member_absent (host_fields host.nqn);
}

portid_read : Reads library (portid_fields port.portid)
unfolding streq print_int decimal digits_of
portid_read = record {
  value = object_of (portid_fields port.portid);
  loaded = refl;
  has = ((number_of port.portid, refl, refl), tt);
  absent = member_absent (portid_fields port.portid);
}

abbrev iface : OobIface
iface = record { address = codes "10.0.0.2"; port = pos 80 }

abbrev drop_bytes : ℕ → CStr → CStr
drop_bytes zero s = s
drop_bytes (suc n) [] = []
drop_bytes (suc n) (c ∷ s) = drop_bytes n s

abbrev client : HttpClient
client = record { request_uri = λ u. b'/' ∷ drop_bytes 19 u; takes_raw = false }

asks :
    (ps : List CStr)
    → All IsPart ps
    → client.request_uri (get_uri iface ++ path ps) ≡ b'/' ∷ path ps
unfolding get_uri print_int decimal digits_of
asks ps h = refl

-- The URIs of the example fit.
port-Fits : Fits iface (codes "portid" ∷ print_int port.portid ∷ [])
unfolding get_uri print_int decimal digits_of
port-Fits = omega arith

subsys-Fits : Fits iface (codes "subsystem" ∷ codes "s" ∷ [])
unfolding get_uri print_int decimal digits_of
subsys-Fits = omega arith

tag-Fits :
    Fits iface (codes "subsystem" ∷ codes "s" ∷ codes "namespace" ∷ [])
    × Fits iface (codes "subsystem" ∷ codes "s" ∷ codes "host" ∷ [])
    × Fits iface (codes "subsystem" ∷ codes "s" ∷ codes "portid" ∷ [])
unfolding get_uri print_int decimal digits_of
tag-Fits = (omega arith, omega arith, omega arith)

host-Fits : Fits iface (codes "host" ∷ []) × Fits iface (codes "host" ∷ codes "h1" ∷ [])
unfolding get_uri print_int decimal digits_of
host-Fits = (omega arith, omega arith)

member-Fits :
    Fits iface (codes "subsystem" ∷ codes "s" ∷ codes "namespace" ∷ print_int space.nsid ∷ [])
    × Fits iface (codes "subsystem" ∷ codes "s" ∷ codes "host" ∷ codes "h1" ∷ [])
    × Fits iface (codes "subsystem" ∷ codes "s" ∷ codes "portid" ∷ print_int port.portid ∷ [])
unfolding get_uri print_int decimal digits_of
member-Fits = (omega arith, omega arith, omega arith)

requests_make_calls_example :
    (config_portid (there recorder library [] [] client iface asks) out_of_band_mgmt port [] ≡ (
      true,
      create_portid (pos 1) (codes "ipv4") (codes "rdma") (pos 0) (codes "10.0.0.1") (pos 4420)
          ∷ [],
    ))
    × (set_ns_at
          (there recorder library [] [] client iface asks)
          out_of_band_mgmt
          subsystem
          space
          []
        ≡ (true, create_ns (codes "s") (pos 1) (pos 0) (pos 1) ∷ []))
    × (link_host_to
          (there recorder library [] [] client iface asks)
          out_of_band_mgmt
          subsystem
          host
          []
        ≡ (true, link_host_to_subsys (codes "s") (codes "h1") ∷ create_host (codes "h1") ∷ []))
    × (link_portid_to
          (there recorder library [] [] client iface asks)
          out_of_band_mgmt
          subsystem
          port
          []
        ≡ (true, link_port_to_subsys (codes "s") (pos 1) ∷ []))
unfolding is_restricted
requests_make_calls_example =
    requests_make_calls recorder library [] [] client iface asks subsystem host space port []
      ((refl, tt), refl) host_read ns_read port_read portid_read (omega arith) (omega arith) refl
      (omega arith) (omega arith) port-Fits member-Fits.0 host-Fits.0 tag-Fits.1 tag-Fits.2

deletions_make_calls_example :
    (del_subsys_at (there recorder library [] [] client iface asks) out_of_band_mgmt subsystem []
      ≡ (true, delete_subsys (codes "s") ∷ []))
    × (del_host_at (there recorder library [] [] client iface asks) out_of_band_mgmt (codes "h1") []
        ≡ (true, delete_host (codes "h1") ∷ []))
    × (del_ns_at
          (there recorder library [] [] client iface asks)
          out_of_band_mgmt
          subsystem
          space
          []
        ≡ (true, delete_ns (codes "s") (pos 1) ∷ []))
    × (del_portid_at (there recorder library [] [] client iface asks) out_of_band_mgmt port []
        ≡ (true, delete_portid (pos 1) ∷ []))
    × (unlink_host_from
          (there recorder library [] [] client iface asks)
          out_of_band_mgmt
          subsystem
          host
          []
        ≡ (true, unlink_host_from_subsys (codes "s") (codes "h1") ∷ []))
    × (unlink_portid_from
          (there recorder library [] [] client iface asks)
          out_of_band_mgmt
          subsystem
          port
          []
        ≡ (true, unlink_port_from_subsys (codes "s") (pos 1) ∷ []))
deletions_make_calls_example =
    deletions_make_calls recorder library [] [] client iface asks subsystem host space port []
      ((refl, tt), refl) ((refl, (refl, tt)), refl) subsys-Fits host-Fits.1 member-Fits.0 port-Fits
      member-Fits.1 member-Fits.2

config_target_oob-made_example :
    config_target_oob (there recorder library [] [] client iface asks) fabric target []
    ≡ (true, refresh_log_pages fabric target, made recorder (target_calls target) [])
config_target_oob-made_example =
    config_target_oob-made recorder library [] [] client iface asks (λ c s. refl) fabric target []
      ((port_read, refl, omega arith, portid_read, omega arith, port-Fits), tt)
      (
        (
          ((refl, tt), refl),
          subsys_read,
          ((ns_read, omega arith, omega arith, omega arith), tt),
          (host_read, tt),
          tag-Fits.0,
          tag-Fits.1,
          tag-Fits.2,
        ),
        tt,
      )
