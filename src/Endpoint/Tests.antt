-- ===== src/Endpoint/Tests.antt =====
-- Examples for the controller of src/endpoint/pseudo_target.c.
use nvme_dem.Prelude.{ℕ, true, List, [], ◌∷◌, pos}
use nvme_dem.Memory.{Mem}
use nvme_dem.Nvme.Opcode
use nvme_dem.Nvme.Mi
use nvme_dem.Nvme.Feat
use nvme_dem.Dem.Discovery.Command.{Command}
use nvme_dem.Endpoint.Ops.{Call, Ops}
use nvme_dem.Endpoint.Config.{page}
use nvme_dem.Endpoint.Request.{EpCommand, Transport, Conn, handle_request}
use nvme_dem.Endpoint.Expected.{IsSane}
use nvme_dem.Endpoint.Answer.{handle_request_answered}

abbrev recorder : Ops (List Call)
recorder = record { perform = λ c s. (true, c ∷ s) }

abbrev clear : Mem
clear x = 0

abbrev transport : Transport
transport = record { read = page clear; written = true }

abbrev conn : Conn (List Call)
conn = record {
  host = record { ep = 1; nqn = []; csts = 0; countdown = pos 1200; kato = pos 1200 };
  data_page = clear;
  target = [];
}

abbrev command : ℕ → Command
command opcode = record {
  opcode = opcode;
  command_id = 9;
  fctype = 0;
  offset = 0;
  value = 0;
  cdw10 = Feat.kato;
  cdw11 = 120;
  cns = 0;
  length0 = 0;
  length1 = 0;
  length2 = 0;
}

abbrev reset_cmd : EpCommand
reset_cmd = record { cmd = command Opcode.mi_send; fcid = Mi.reset_config }

abbrev set_kato_cmd : EpCommand
set_kato_cmd = record { cmd = command Opcode.set_features; fcid = 0 }

handle_request_answered_example :
    IsSane recorder transport conn reset_cmd
      (handle_request recorder [] [] transport conn reset_cmd)
handle_request_answered_example = handle_request_answered recorder [] [] transport conn reset_cmd tt
