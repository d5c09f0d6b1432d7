-- ===== src/Endpoint/Report.antt =====
-- `get_nsdev`, `get_xport` and `handle_mi_receive` of src/endpoint/pseudo_target.c: what an endpoint
-- reports of its devices and interfaces.
use nvme_dem.Prelude.{
  ℕ, ◌+◌, ◌*◌, ◌%◌, Bool, List, [], ◌∷◌, Option, none, some, ◌==◌, ltb, if◌then◌else◌, CStr, length,
  ℤ,
}
use nvme_dem.Memory.{Mem, write, padded}
use nvme_dem.Memory.Words.{le8}
use nvme_dem.Nvme.Sc
use nvme_dem.Nvme.Mi
use nvme_dem.Parse.Names.{to_trtype, to_adrfam}
use nvme_dem.Dem.Discovery.Command.{of_int32}
use nvme_dem.Endpoint.Config.{page_size}

-- `struct nsdev` of src/endpoint/common.h.
pub record NsDev : Type 0 where
  pub devid : ℤ
  pub nsid : ℤ

-- The fields of `struct portid` that the list of interfaces is read for.
pub record Iface : Type 0 where
  pub type : CStr
  pub family : CStr
  pub address : CStr

-- `struct nvmf_get_ns_devices_entry`: devid 0, nsid 1, and six bytes that `memset` clears.
abbrev pub dev_entry : NsDev → List ℕ
dev_entry d = of_int32 d.devid % 256 ∷ of_int32 d.nsid % 256 ∷ padded 6 []

-- `struct nvmf_get_transports_entry`: trtype 0, adrfam 1, traddr 8. An address has at most 40 bytes.
abbrev pub iface_entry : Iface → List ℕ
iface_entry i = to_trtype i.type ∷ to_adrfam i.family ∷ 0 ∷ 0 ∷ 0 ∷ 0 ∷ 0 ∷ 0 ∷ padded 256 i.address

-- The loop over the list, from offset `a` on.
unfoldable pub write_devs : Mem → ℕ → List NsDev → Mem
write_devs m a [] = m
write_devs m a (d ∷ ds) = write_devs (write m a (dev_entry d)) (a + 8) ds

unfoldable pub write_ifaces : Mem → ℕ → List Iface → Mem
write_ifaces m a [] = m
write_ifaces m a (i ∷ is) = write_ifaces (write m a (iface_entry i)) (a + 264) is

-- The page, and the number of bytes to send. The header is the count, in one byte.
pub record Report : Type 0 where
  pub filled : Mem
  pub size : ℕ

unfoldable pub get_nsdev : Mem → List NsDev → Report
get_nsdev m ds = record {
  filled = write (write_devs m 1 ds) 0 (le8 (length ds));
  size = length ds * 8 + 1;
}

unfoldable pub get_xport : Mem → List Iface → Report
get_xport m is = record {
  filled = write (write_ifaces m 1 is) 0 (le8 (length is));
  size = length is * 264 + 1;
}

-- The status, the page, and what was written to the peer: a size and the page's content.
pub record Received : Type 0 where
  pub ret : ℕ
  pub data_page : Mem
  pub sent : Option Report

-- `len` is the length that the command asks for, which only an unknown id leaves in force; `none` is
-- a write past the page.
abbrev pub send_report : Bool → Report → Option Received
send_report written r =
    if ltb page_size r.size
    then none
    else some (record {
      ret = if written then Sc.success else Sc.write_fault;
      data_page = r.filled;
      sent = if written then some r else none;
    })

unfoldable pub handle_mi_receive : List NsDev → List Iface → ℕ → ℕ → Bool → Mem → Option Received
unfolding get_nsdev get_xport
handle_mi_receive devices interfaces id len written m =
    if id == Mi.get_ns_config
    then send_report written (get_nsdev m devices)
    else if id == Mi.get_xport_config
    then send_report written (get_xport m interfaces)
    else send_report written (record { filled = m; size = len })
