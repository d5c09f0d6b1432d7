-- ===== src/Endpoint/Config.antt =====
-- `handle_mi_send` of src/endpoint/pseudo_target.c and the functions that it dispatches to: each
-- reads a structure of src/incl/nvme.h in the page `ep->data` and makes a call.
use nvme_dem.Prelude.{ℕ, ◌-◌, Bool, Option, none, some, ◌==◌, if◌then◌else◌, CStr, ℤ, pos}
use nvme_dem.Memory.{Mem, read_str}
use nvme_dem.Memory.Words.{read8, read16, read32}
use nvme_dem.Nvme.Sc
use nvme_dem.Nvme.Mi
use nvme_dem.Parse.Addr.{atoi}
use nvme_dem.Parse.Names.{trtype_str, adrfam_str}
use nvme_dem.Dem.Discovery.Command.{to_int32}
use nvme_dem.Inb.Build.{nullb_devid, wire_nullb_devid}
use nvme_dem.Endpoint.Ops.{
  Call, delete_subsys, delete_host, create_host, create_subsys, create_ns, delete_ns, create_portid,
  delete_portid, link_host_to_subsys, unlink_host_from_subsys, link_port_to_subsys,
  unlink_port_from_subsys, reset_config, Ops,
}

abbrev pub page_size : ℕ
page_size = 4096

-- A string in the page, as the callee reads it; `none` is a read past the end of the page.
abbrev pub text_at : Mem → ℕ → Option CStr
text_at m a = read_str (page_size - a) m a

infixl 5 ◌>>=◌
abbrev pub ◌>>=◌ {ℓ κ} : {A : Type ℓ} {B : Type κ} → Option A → (A → Option B) → Option B
none >>= f = none
some a >>= f = f a

unfoldable pub set_portid : Mem → Option Call
set_portid m = do
  addr ← text_at m 38
  svcid ← text_at m 6
  some (
      create_portid (pos (read16 m 4)) (adrfam_str (read8 m 1)) (trtype_str (read8 m 0))
        (pos (read8 m 3)) addr (atoi svcid))

unfoldable pub del_portid : Mem → Option Call
del_portid m = some (delete_portid (pos (read16 m 0)))

unfoldable pub set_subsys : Mem → Option Call
set_subsys m = do nqn ← text_at m 0; some (create_subsys nqn (pos (read8 m 256)))

unfoldable pub del_subsys : Mem → Option Call
del_subsys m = do nqn ← text_at m 0; some (delete_subsys nqn)

abbrev pub local_devid : ℕ → ℤ
local_devid d = if d == wire_nullb_devid then nullb_devid else to_int32 d

unfoldable pub set_ns : Mem → Option Call
set_ns m = do
  nqn ← text_at m 0
  some (
      create_ns nqn (to_int32 (read32 m 256)) (local_devid (read32 m 260))
        (to_int32 (read32 m 264)))

unfoldable pub del_ns : Mem → Option Call
del_ns m = do nqn ← text_at m 0; some (delete_ns nqn (to_int32 (read32 m 256)))

unfoldable pub set_host : Mem → Option Call
set_host m = do nqn ← text_at m 0; some (create_host nqn)

unfoldable pub del_host : Mem → Option Call
del_host m = do nqn ← text_at m 0; some (delete_host nqn)

unfoldable pub link_portid : Mem → Option Call
link_portid m = do nqn ← text_at m 0; some (link_port_to_subsys nqn (pos (read16 m 256)))

unfoldable pub unlink_portid : Mem → Option Call
unlink_portid m = do nqn ← text_at m 0; some (unlink_port_from_subsys nqn (pos (read16 m 256)))

unfoldable pub link_host : Mem → Option Call
link_host m = do nqn ← text_at m 0; host ← text_at m 256; some (link_host_to_subsys nqn host)

unfoldable pub unlink_host : Mem → Option Call
unlink_host m = do nqn ← text_at m 0; host ← text_at m 256; some (unlink_host_from_subsys nqn host)

-- What a message asks for: nothing that is known, or a call, or a read past the page.
pub data Asked : Type 0 where
  unknown fault : Asked
  asked : Call → Asked

abbrev pub ask : Option Call → Asked
ask none = fault
ask (some c) = asked c

-- The `switch` on the message's id.
unfoldable pub dispatch_config : ℕ → Mem → Asked
dispatch_config id m =
    if id == Mi.reset_config
    then asked reset_config
    else if id == Mi.set_port_config
    then ask (set_portid m)
    else if id == Mi.del_port_config
    then ask (del_portid m)
    else if id == Mi.link_port_config
    then ask (link_portid m)
    else if id == Mi.unlink_port_config
    then ask (unlink_portid m)
    else if id == Mi.set_subsys_config
    then ask (set_subsys m)
    else if id == Mi.del_subsys_config
    then ask (del_subsys m)
    else if id == Mi.set_ns_config
    then ask (set_ns m)
    else if id == Mi.del_ns_config
    then ask (del_ns m)
    else if id == Mi.set_host_config
    then ask (set_host m)
    else if id == Mi.del_host_config
    then ask (del_host m)
    else if id == Mi.link_host_config
    then ask (link_host m)
    else if id == Mi.unlink_host_config
    then ask (unlink_host m)
    else unknown

-- What `rma_read` brings: an error that it returns, as the bits of an `int`, or the page.
pub data Fetch : Type 0 where
  failed : ℕ → Fetch
  page : Mem → Fetch

-- The returned status, the page and the target; `none` is a read past the page.
pub record Sent (S : Type 0) : Type 0 where
  pub ret : ℕ
  pub data_page : Mem
  pub target : S

-- `reset_config` returns nothing, and the message succeeds.
abbrev pub status_of_call : Call → Bool → ℕ
status_of_call reset_config ok = Sc.success
status_of_call c ok = if ok then Sc.success else Sc.access_denied

module _ {S : Type 0} (ops : Ops S) where
  abbrev pub answer_call : Mem → Call → Bool × S → Option (Sent S)
  answer_call m c (ok, s) = some (record { ret = status_of_call c ok; data_page = m; target = s })

  abbrev pub carry_out : Mem → S → Asked → Option (Sent S)
  carry_out m s fault = none
  carry_out m s unknown = some (record { ret = Sc.invalid_field; data_page = m; target = s })
  carry_out m s (asked c) = answer_call m c (ops.perform c s)

  unfoldable pub handle_mi_send : ℕ → Fetch → Mem → S → Option (Sent S)
  unfolding dispatch_config
  handle_mi_send id (failed e) old s = some (record { ret = e; data_page = old; target = s })
  handle_mi_send id (page m) old s = carry_out m s (dispatch_config id m)
