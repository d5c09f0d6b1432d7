-- ===== src/Dem/Config/Oob.antt =====
-- The out-of-band requests of src/dem/config.c: `get_uri`, the functions build_..._oob, and the URIs
-- that the functions send_..._oob print. The bodies fit their buffer of 1024 bytes.
use nvme_dem.Prelude.{List, [], ◌∷◌, ◌++◌, CStr, codes, ℤ}
use nvme_dem.Parse.Decimal.{print_int}
use nvme_dem.Dem.State.{Ns, Subsystem, PortId}

-- `target->sc_iface.oob`
pub record OobIface : Type 0 where
  pub address : CStr
  pub port : ℤ

-- `"%s"` in JSON.
abbrev pub quoted : CStr → CStr
quoted s = b'"' ∷ (s ++ b'"' ∷ [])

-- JSSTR and JSINDX
abbrev pub jsstr : CStr → CStr → CStr
jsstr tag s = quoted tag ++ (b':' ∷ quoted s)

abbrev pub jsindx : CStr → ℤ → CStr
jsindx tag z = quoted tag ++ (b':' ∷ print_int z)

-- The members of an object, with commas and braces.
abbrev pub members : List CStr → CStr
members [] = []
members (m ∷ []) = m
members (m ∷ (n ∷ ms)) = m ++ (b',' ∷ members (n ∷ ms))

abbrev pub object : List CStr → CStr
object ms = b'{' ∷ (members ms ++ b'}' ∷ [])

-- A path: its parts with a slash between them.
abbrev pub path : List CStr → CStr
path [] = []
path (p ∷ []) = p
path (p ∷ (q ∷ ps)) = p ++ (b'/' ∷ path (q ∷ ps))

unfoldable pub get_uri : OobIface → CStr
get_uri o = codes "http://" ++ (o.address ++ (b':' ∷ (print_int o.port ++ b'/' ∷ [])))

unfoldable pub build_set_port_oob : PortId → CStr
build_set_port_oob p = object (
    jsstr (codes "TRTYPE") p.type
    ∷ jsstr (codes "ADRFAM") p.family
    ∷ jsstr (codes "TRADDR") p.address
    ∷ jsindx (codes "TRSVCID") p.port_num
    ∷ [])

unfoldable pub build_set_host_oob : CStr → CStr
build_set_host_oob nqn = object (jsstr (codes "HOSTNQN") nqn ∷ [])

unfoldable pub build_set_subsys_oob : Subsystem → CStr
build_set_subsys_oob s =
    object (jsstr (codes "SUBNQN") s.nqn ∷ jsindx (codes "AllowAnyHost") s.access ∷ [])

unfoldable pub build_set_ns_oob : Ns → CStr
build_set_ns_oob n = object (
    jsindx (codes "NSID") n.nsid
    ∷ jsindx (codes "DeviceID") n.devid
    ∷ jsindx (codes "DeviceNSID") n.devns
    ∷ [])

unfoldable pub build_set_portid_oob : ℤ → CStr
build_set_portid_oob portid = object (jsindx (codes "PORTID") portid ∷ [])

-- The paths below `get_uri`.
abbrev pub portid_path : ℤ → CStr
portid_path portid = path (codes "portid" ∷ print_int portid ∷ [])

abbrev pub host_path : CStr → CStr
host_path nqn = path (codes "host" ∷ nqn ∷ [])

abbrev pub subsys_path : CStr → CStr
subsys_path nqn = path (codes "subsystem" ∷ nqn ∷ [])

-- A collection of a subsystem, and one member of it.
abbrev pub tag_path : CStr → CStr → CStr
tag_path nqn tag = path (codes "subsystem" ∷ nqn ∷ tag ∷ [])

abbrev pub member_path : CStr → CStr → CStr → CStr
member_path nqn tag name = path (codes "subsystem" ∷ nqn ∷ tag ∷ name ∷ [])
