-- ===== src/Dem/State.antt =====
-- The objects of src/dem/common.h and src/incl/dem.h. An object that others point to has an `id`,
-- its address; a pointer is such a number, and comparing pointers is comparing numbers.
-- A linked list is the list of its entries, in order. Allocation is taken to succeed.
use nvme_dem.Prelude.{ℕ, Bool, List, Option, CStr, ℤ}

-- `struct nvmf_disc_rsp_page_entry` (src/incl/nvme.h); its reserved fields are never read.
pub record Entry : Type 0 where
  pub trtype : ℕ
  pub adrfam : ℕ
  pub subtype : ℕ
  pub treq : ℕ
  pub portid : ℕ
  pub cntlid : ℕ
  pub trsvcid : CStr
  pub subnqn : CStr
  pub traddr : CStr
  pub qptype : ℕ
  pub prtype : ℕ
  pub cms : ℕ
  pub pkey : ℕ

-- `struct logpage`; `portid` is the id of the port that reported it.
pub record LogPage : Type 0 where
  pub portid : ℕ
  pub e : Entry
  pub valid : Bool

-- `struct host`
pub record Host : Type 0 where
  pub alias : CStr
  pub nqn : CStr

-- `struct ns`
pub record Ns : Type 0 where
  pub nsid : ℤ
  pub devid : ℤ
  pub devns : ℤ

-- `struct subsystem`; `access` is RESTRICTED (0), ALLOW_ANY (1) or UNDEFINED_ACCESS (-1).
pub record Subsystem : Type 0 where
  pub id : ℕ
  pub nqn : CStr
  pub access : ℤ
  pub host_list : List Host
  pub ns_list : List Ns
  pub logpage_list : List LogPage

-- `struct portid`
pub record PortId : Type 0 where
  pub id : ℕ
  pub portid : ℤ
  pub type : CStr
  pub family : CStr
  pub address : CStr
  pub port_num : ℤ

-- `struct ctrl_queue`; `subsys` is the id of its subsystem, or null.
pub record CtrlQueue : Type 0 where
  pub portid : ℕ
  pub subsys : Option ℕ
  pub hostnqn : CStr
  pub connected : Bool
  pub failed_kato : Bool

-- LOCAL_MGMT, IN_BAND_MGMT, OUT_OF_BAND_MGMT
pub data MgmtMode : Type 0 where
  local_mgmt in_band_mgmt out_of_band_mgmt : MgmtMode

-- `struct target`; `inb_connected` is `sc_iface.inb.connected`.
pub record Target : Type 0 where
  pub id : ℕ
  pub alias : CStr
  pub subsys_list : List Subsystem
  pub portid_list : List PortId
  pub discovery_queue_list : List CtrlQueue
  pub unattached_logpage_list : List LogPage
  pub mgmt_mode : MgmtMode
  pub refresh : ℤ
  pub log_page_retry_count : ℤ
  pub refresh_countdown : ℤ
  pub kato_countdown : ℤ
  pub group_member : Bool
  pub inb_connected : Bool

-- `struct group`; the links of its targets are the ids of the targets.
pub record Group : Type 0 where
  pub id : ℕ
  pub name : CStr
  pub target_list : List ℕ

-- `struct group_host_link`; `group` is an id.
pub record GroupHostLink : Type 0 where
  pub group : ℕ
  pub alias : CStr
  pub nqn : CStr

-- `struct event_notification` in the list of requests: the endpoint by its id, and its host.
pub record EventRequest : Type 0 where
  pub id : ℕ
  pub ep : ℕ
  pub nqn : CStr

-- The global lists of src/dem/daemon.c.
pub record Dem : Type 0 where
  pub target_list : List Target
  pub group_list : List Group
  pub host_list : List GroupHostLink
  pub aen_req_list : List EventRequest
