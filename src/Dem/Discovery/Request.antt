-- ===== src/Dem/Discovery/Request.antt =====
-- The handlers of src/dem/pseudo_target.c and their dispatch, `handle_request`.
-- What the transport does is an argument: the data that a remote read brings (`none` where it
-- fails), whether a key is allocated and whether a remote write succeeds. `fresh` is the address of
-- a new request. Sending the completion and reposting the receive are the value `resp`.
use Prim.Native.Nat.{bit_or}
use nvme_dem.Prelude.{
  ℕ, ◌+◌, ◌*◌, ◌%◌, ◌^◌, Bool, not, ◌∷◌, Option, none, some, ◌==◌, if◌then◌else◌, CStr, streq,
  strncpy, ℤ,
}
use nvme_dem.Dem.State.{Dem}
use nvme_dem.Dem.Discovery.Command.{
  Command, Completion, ConnectData, get_unaligned_le24, disc_subsys_name, to_int32, of_int32,
}
use nvme_dem.Dem.Discovery.Pages.{
  Payload, nothing, identity, Reply, fault, reply, handle_get_log_page_count, handle_get_log_pages,
}
use nvme_dem.Nvme.Sc
use nvme_dem.Nvme.Reg
use nvme_dem.Nvme.Feat
use nvme_dem.Nvme.Opcode
use nvme_dem.Nvme.Fctype

pub record Transport : Type 0 where
  pub read : Option ConnectData
  pub keyed : Bool
  pub written : Bool
  pub fresh : ℕ

-- `struct host_conn`, with the fields of its endpoint that the handlers use.
pub record HostConn : Type 0 where
  pub ep : ℕ
  pub nqn : CStr
  pub csts : ℕ
  pub countdown : ℤ
  pub kato : ℤ

-- `(1 << 16) | (2 << 8) | 1`
abbrev pub nvme_ver : ℕ
nvme_ver = 2 ^ 16 + 2 * 2 ^ 8 + 1

abbrev pub aer_notice : ℕ
aer_notice = 0xF002

-- KATO_INTERVAL / DELAY_TIMEOUT
abbrev pub kato_ticks : ℕ
kato_ticks = 5

-- A handler's status, with the connection and the result field that it leaves.
pub record Step : Type 0 where
  pub ret : ℕ
  pub host : HostConn
  pub result : ℕ

abbrev pub step : ℕ → HostConn → Step
step r h = record { ret = r; host = h; result = 0 }

unfoldable pub handle_property_set : Command → HostConn → Step
handle_property_set c h =
    if c.offset == Reg.cc
    then step Sc.success (record h { csts = if c.value == 0x460001 then 1 else 8 })
    else step Sc.invalid_field h

unfoldable pub handle_property_get : Command → HostConn → Step
handle_property_get c h =
    if c.offset == Reg.csts
    then record { ret = Sc.success; host = h; result = h.csts }
    else if c.offset == Reg.cap
    then record { ret = Sc.success; host = h; result = 0x200f0003ff }
    else if c.offset == Reg.vs
    then record { ret = Sc.success; host = h; result = nvme_ver }
    else step Sc.invalid_field h

unfoldable pub handle_get_features : Command → HostConn → Step
handle_get_features c h =
    let fid = c.cdw10 % 256 in
    if fid == Feat.async_event
    then record { ret = Sc.success; host = h; result = aer_notice }
    else if fid == Feat.kato
    then record { ret = Sc.success; host = h; result = of_int32 h.kato }
    else step Sc.invalid_field h

-- `kato * 5` is unsigned and wraps; it is stored in an `int`.
unfoldable pub handle_set_features : Command → HostConn → Step
handle_set_features c h =
    let fid = c.cdw10 % 256 in
    if fid == Feat.async_event
    then step Sc.success h
    else if fid == Feat.kato
    then step Sc.success (record h { kato = to_int32 (c.cdw11 * kato_ticks % 2 ^ 32) })
    else step Sc.invalid_field h

-- The name of the host is stored before the checks, and the second check overrides the first.
unfoldable pub handle_connect : Option ConnectData → HostConn → Step
handle_connect none h = step Sc.read_error h
handle_connect (some m) h =
    let h' = record h { nqn = strncpy m.hostnqn 256 } in
    if not (m.cntlid == 0xffff)
    then step Sc.connect_invalid_param h'
    else if not (streq m.subsysnqn disc_subsys_name)
    then step Sc.connect_invalid_host h'
    else step Sc.success h'

unfoldable pub handle_identify : Command → Bool → Reply
handle_identify c written =
    if not (c.cns == 1)
    then reply Sc.bad_attributes nothing
    else if written
    then reply Sc.success identity
    else reply Sc.write_fault nothing

-- The new request goes to the head of the list.
unfoldable pub handle_async_event : ℕ → HostConn → Dem → Dem
handle_async_event fresh h d = record d {
  aen_req_list = record { id = fresh; ep = h.ep; nqn = h.nqn } ∷ d.aen_req_list;
}

pub record Handled : Type 0 where
  pub ret : ℕ
  pub host : HostConn
  pub dem : Dem
  pub payload : Payload
  pub resp : Completion

-- `resp->status = (NVME_SC_DNR | ret) << 1`, 16 bits wide.
abbrev pub status_of : ℕ → ℕ
status_of ret = if ret == 0 then 0 else bit_or Sc.dnr ret * 2 % 2 ^ 16

abbrev pub finish : Command → Dem → Payload → Step → Option Handled
finish c d p s = some (record {
  ret = s.ret;
  host = s.host;
  dem = d;
  payload = p;
  resp = record { command_id = c.command_id; status = status_of s.ret; result = s.result };
})

abbrev pub finish_reply : Command → HostConn → Dem → Reply → Option Handled
finish_reply c h d fault = none
finish_reply c h d (reply ret p) = finish c d p (step ret h)

unfoldable pub dispatch_fabrics : Transport → Command → HostConn → Step
dispatch_fabrics x c h =
    if c.fctype == Fctype.property_set
    then handle_property_set c h
    else if c.fctype == Fctype.property_get
    then handle_property_get c h
    else if c.fctype == Fctype.connect
    then handle_connect x.read h
    else step Sc.invalid_opcode h

abbrev pub length_of : Command → ℕ
length_of c = get_unaligned_le24 c.length0 c.length1 c.length2

unfoldable pub dispatch_log_page : Transport → Command → HostConn → Dem → Reply
dispatch_log_page x c h d =
    if length_of c == 16
    then handle_get_log_page_count d h.nqn x.written
    else handle_get_log_pages d h.nqn (length_of c) x.keyed x.written

-- `none` is a write past the end of a buffer.
unfoldable pub handle_request : Transport → HostConn → Dem → Command → Option Handled
handle_request x h d c =
    if c.opcode == Opcode.fabrics
    then finish c d nothing (dispatch_fabrics x c h)
    else if c.opcode == Opcode.identify
    then finish_reply c h d (handle_identify c x.written)
    else if c.opcode == Opcode.keep_alive
    then finish c d nothing (step Sc.success h)
    else if c.opcode == Opcode.get_log_page
    then finish_reply c h d (dispatch_log_page x c h d)
    else if c.opcode == Opcode.get_features
    then finish c d nothing (handle_get_features c h)
    else if c.opcode == Opcode.set_features
    then finish c d nothing (handle_set_features c h)
    else if c.opcode == Opcode.async_event
    then finish c (handle_async_event x.fresh h d) nothing (step Sc.success h)
    else finish c d nothing (step Sc.invalid_opcode h)
