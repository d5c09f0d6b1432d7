-- ===== src/Dem/Discovery/Tests.antt =====
-- Examples for the discovery controller of src/dem/pseudo_target.c.
use nvme_dem.Prelude.{ℕ, ◌≡◌, refl, true, false, [], ◌∷◌, codes, none, pos, filter, length}
use nvme_dem.Nvme.Opcode
use nvme_dem.Nvme.Fctype
use nvme_dem.Nvme.Reg
use nvme_dem.Nvme.Feat
use nvme_dem.Dem.State.{LogPage, Subsystem, Target, Dem, local_mgmt}
use nvme_dem.Dem.Discovery.Command.{Command}
use nvme_dem.Dem.Discovery.Pages.{log_page_count, log_pages, nothing}
use nvme_dem.Dem.Discovery.Request.{
  Transport, HostConn, Handled, handle_request, handle_set_features,
}
use nvme_dem.Dem.Discovery.Visible.{
  entries, is_visible, list_targets, log_pages-visible, log_page_count-length,
}
use nvme_dem.Dem.Discovery.Answer.{Sane, handle_request-Sane}
use nvme_dem.Dem.Discovery.Service.{dropped, idle_rounds, idle_rounds_lem}

abbrev page : LogPage
page = record {
  portid = 4;
  e = record {
    trtype = 1;
    adrfam = 1;
    subtype = 2;
    treq = 2;
    portid = 1;
    cntlid = 0xffff;
    trsvcid = codes "4420";
    subnqn = codes "s";
    traddr = codes "10.0.0.1";
    qptype = 0;
    prtype = 0;
    cms = 0;
    pkey = 0;
  };
  valid = true;
}

abbrev subsystem : Subsystem
subsystem = record {
  id = 7;
  nqn = codes "s";
  access = pos 0;
  host_list = record { alias = codes "one"; nqn = codes "h1" } ∷ [];
  ns_list = [];
  logpage_list = page ∷ record page { valid = false } ∷ [];
}

abbrev target : Target
target = record {
  id = 3;
  alias = codes "t";
  subsys_list = subsystem ∷ [];
  portid_list = [];
  discovery_queue_list = [];
  unattached_logpage_list = [];
  mgmt_mode = local_mgmt;
  refresh = pos 0;
  log_page_retry_count = pos 0;
  refresh_countdown = pos 0;
  kato_countdown = pos 0;
  group_member = false;
  inb_connected = false;
}

abbrev dem : Dem
dem = record { target_list = target ∷ []; group_list = []; host_list = []; aen_req_list = [] }

abbrev transport : Transport
transport = record { read = none; keyed = true; written = true; fresh = 99 }

abbrev conn : HostConn
conn = record { ep = 11; nqn = codes "h1"; csts = 0; countdown = pos 3; kato = pos 200 }

abbrev blank : Command
blank = record {
  opcode = 0;
  command_id = 42;
  fctype = 0;
  offset = 0;
  value = 0;
  cdw10 = 0;
  cdw11 = 0;
  cns = 0;
  length0 = 0;
  length1 = 0;
  length2 = 0;
}

abbrev set_kato_cmd : ℕ → Command
set_kato_cmd k = record blank { opcode = Opcode.set_features; cdw10 = Feat.kato; cdw11 = k }

abbrev get_kato_cmd : Command
get_kato_cmd = record blank { opcode = Opcode.get_features; cdw10 = Feat.kato }

abbrev set_cc_cmd : Command
set_cc_cmd = record blank {
  opcode = Opcode.fabrics;
  fctype = Fctype.property_set;
  offset = Reg.cc;
  value = 0x460001;
}

abbrev get_csts_cmd : Command
get_csts_cmd = record blank {
  opcode = Opcode.fabrics;
  fctype = Fctype.property_get;
  offset = Reg.csts;
}

log_pages-visible_example :
    log_pages dem (codes "h1")
    ≡ entries (filter (is_visible dem (codes "h1")) (list_targets (target ∷ [])))
log_pages-visible_example = log_pages-visible dem (codes "h1")

log_page_count-length_example :
    log_page_count dem (codes "h1") ≡ length (log_pages dem (codes "h1"))
log_page_count-length_example = log_page_count-length dem (codes "h1")

-- The answer to Set Features.
abbrev set_answer : Handled
set_answer = record {
  ret = 0;
  host = record conn { kato = pos 10 };
  dem = dem;
  payload = nothing;
  resp = record { command_id = 42; status = 0; result = 0 };
}

handle_request-Sane_example : Sane dem (set_kato_cmd 2) set_answer
unfolding handle_request handle_set_features
handle_request-Sane_example =
    handle_request-Sane transport conn dem (set_kato_cmd 2) set_answer refl

idle_rounds_lem_example : idle_rounds 3 conn dem ≡ dropped dem
idle_rounds_lem_example = idle_rounds_lem 2 3 conn dem refl
