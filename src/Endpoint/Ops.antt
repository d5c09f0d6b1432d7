-- ===== src/Endpoint/Ops.antt =====
-- `struct ops` of src/endpoint/common.h: the operations of a target, which src/endpoint/configfs.c
-- and src/endpoint/spdk_config.c implement. A call is a value, and a target is what it does with it.
use nvme_dem.Prelude.{Bool, CStr, ℤ}

pub data Call : Type 0 where
  delete_subsys delete_host create_host : CStr → Call
  create_subsys : CStr → ℤ → Call
  create_ns : CStr → ℤ → ℤ → ℤ → Call
  delete_ns : CStr → ℤ → Call
  create_portid : ℤ → CStr → CStr → ℤ → CStr → ℤ → Call
  delete_portid : ℤ → Call
  link_host_to_subsys unlink_host_from_subsys : CStr → CStr → Call
  link_port_to_subsys unlink_port_from_subsys : CStr → ℤ → Call
  reset_config : Call

-- Whether 0 is returned, and the target's new state.
pub record Ops (S : Type 0) : Type 0 where
  pub perform : Call → S → Bool × S
