-- ===== src/Endpoint/Expected.antt =====
-- Which commands succeed at the endpoint's controller (src/endpoint/pseudo_target.c), and what they do to
-- its target, in terms of the command, of what is read and of the calls.
use nvme_dem.Prelude.{
  ◌&&◌, ◌||◌, ℕ, ◌%◌, ◌^◌, ◌≡◌, ◌⊎◌, Bool, true, false, Option, none, some, ◌==◌, if◌then◌else◌,
}
use nvme_dem.Memory.{Mem, text_is}
use nvme_dem.Memory.Words.{read16}
use nvme_dem.Nvme.Opcode
use nvme_dem.Nvme.Fctype
use nvme_dem.Nvme.Reg
use nvme_dem.Dem.Discovery.Command.{disc_subsys_name}
use nvme_dem.Dem.Discovery.Request.{status_of}
use nvme_dem.Endpoint.Ops.{Ops, reset_config}
use nvme_dem.Endpoint.Config.{Fetch, failed, page, Asked, unknown, fault, asked, dispatch_config}
use nvme_dem.Endpoint.Request.{EpCommand, Transport, Conn, Handled, ntohl}

-- A failed read brings an error whose status is not 0.
abbrev pub HasError : Fetch → Type 0
HasError (failed e) = (status_of e == 0) ≡ false
HasError (page m) = Unit

-- What is asked of the structure that was read.
abbrev pub fetched : Fetch → (Mem → Bool) → Bool
fetched (failed e) p = false
fetched (page m) p = p m

-- The controller id and the subsystem's name of a connect.
abbrev pub connects : Mem → Bool
connects m = read16 m 16 == 0xffff && text_is m 256 disc_subsys_name

module _ {S : Type 0} (ops : Ops S) where
  -- The call of a management message succeeds; the reset always does.
  abbrev pub call_succeeds : Asked → S → Bool
  call_succeeds unknown s = false
  call_succeeds fault s = false
  call_succeeds (asked reset_config) s = true
  call_succeeds (asked c) s = (ops.perform c s).0

  abbrev pub after_call : Asked → S → S
  after_call (asked c) s = (ops.perform c s).1
  after_call a s = s

  abbrev pub after_send : ℕ → Fetch → S → S
  after_send id (failed e) s = s
  after_send id (page m) s = after_call (dispatch_config id m) s

  -- Which commands succeed.
  unfoldable pub succeeds : Transport → Conn S → EpCommand → Bool
  succeeds x k c =
      if c.cmd.opcode == Opcode.fabrics
      then (if c.cmd.fctype == Fctype.property_set
          then c.cmd.offset == Reg.cc
          else if c.cmd.fctype == Fctype.property_get
          then c.cmd.offset == Reg.csts || c.cmd.offset == Reg.cap || c.cmd.offset == Reg.vs
          else if c.cmd.fctype == Fctype.connect
          then fetched x.read connects
          else false)
      else if c.cmd.opcode == Opcode.mi_send
      then fetched x.read (λ m. call_succeeds (dispatch_config c.fcid m) k.target)
      else if c.cmd.opcode == Opcode.mi_receive
      then x.written
      else if c.cmd.opcode == Opcode.identify
      then c.cmd.cns == 1 && x.written
      else if c.cmd.opcode == Opcode.keep_alive
      then true
      else if c.cmd.opcode == Opcode.set_features
      then ntohl c.cmd.cdw10 % 2 ^ 8 == 0
      else false

  -- The target afterwards: only a management send makes a call.
  unfoldable pub target_after : Transport → Conn S → EpCommand → S
  target_after x k c =
      if c.cmd.opcode == Opcode.fabrics
      then k.target
      else if c.cmd.opcode == Opcode.mi_send
      then after_send c.fcid x.read k.target
      else k.target

  -- The completion belongs to the command, its status is 0 exactly if the command succeeds, the target
  -- is as after its call, and a command that fails sends nothing.
  pub record Sane (x : Transport) (k : Conn S) (c : EpCommand) (r : Handled S) : Type 0 where
    pub echoed : r.resp.command_id ≡ c.cmd.command_id
    pub status : (r.resp.status == 0) ≡ succeeds x k c
    pub target : r.act.conn.target ≡ target_after x k c
    pub quiet : (succeeds x k c ≡ true) ⊎ (r.act.sent ≡ none)

  abbrev pub IsSane : Transport → Conn S → EpCommand → Option (Handled S) → Type 0
  IsSane x k c none = Unit
  IsSane x k c (some r) = Sane x k c r
