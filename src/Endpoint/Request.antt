-- ===== src/Endpoint/Request.antt =====
-- The other handlers of src/endpoint/pseudo_target.c and their dispatch, `handle_request`. The
-- handlers of properties are those of src/dem/pseudo_target.c, word for word.
-- What a remote read brings and whether a remote write succeeds are arguments.
use nvme_dem.Prelude.{
  ℕ, ◌+◌, ◌*◌, ◌/◌, ◌%◌, ◌^◌, Bool, not, List, [], ◌∷◌, Option, none, some, ◌==◌, ltb,
  if◌then◌else◌,
}
use nvme_dem.Memory.{Mem, write, read_chars, text_is, terminated}
use nvme_dem.Memory.Words.{le8, le16, le32, read16}
use nvme_dem.Nvme.Sc
use nvme_dem.Nvme.Opcode
use nvme_dem.Nvme.Fctype
use nvme_dem.Dem.Discovery.Command.{Command, Completion, disc_subsys_name, to_int32}
use nvme_dem.Dem.Discovery.Request.{
  HostConn, Step, nvme_ver, kato_ticks, handle_property_set, handle_property_get, status_of,
  length_of,
}
use nvme_dem.Endpoint.Ops.{Ops}
use nvme_dem.Endpoint.Config.{Fetch, failed, page, Sent, handle_mi_send, page_size}
use nvme_dem.Endpoint.Report.{NsDev, Iface, Report, Received, handle_mi_receive}

-- A command, with `fcid` of the management commands.
pub record EpCommand : Type 0 where
  pub cmd : Command
  pub fcid : ℕ

pub record Transport : Type 0 where
  pub read : Fetch
  pub written : Bool

-- A connection, the page `ep->data` and the endpoint's target.
pub record Conn (S : Type 0) : Type 0 where
  pub host : HostConn
  pub data_page : Mem
  pub target : S

-- A handler's status, what it leaves and what it sends of the page.
pub record Act (S : Type 0) : Type 0 where
  pub ret : ℕ
  pub conn : Conn S
  pub sent : Option Report
  pub result : ℕ

pub record Handled (S : Type 0) : Type 0 where
  pub act : Act S
  pub resp : Completion

-- What `ntohl` makes of a field that holds `n` as its least significant byte first.
unfoldable pub ntohl : ℕ → ℕ
ntohl n =
    n % 2 ^ 8 * 2 ^ 24
    + n / 2 ^ 8 % 2 ^ 8 * 2 ^ 16
    + n / 2 ^ 16 % 2 ^ 8 * 2 ^ 8
    + n / 2 ^ 24 % 2 ^ 8

-- `*kato` is what the caller initialised it with. A refusal gives nothing.
unfoldable pub handle_set_features : Command → ℕ → Option ℕ
handle_set_features c kato = if ntohl c.cdw10 % 2 ^ 8 == kato then some (ntohl c.cdw11) else none

-- `struct nvmf_connect_data`: cntlid 16, subsysnqn 256, hostnqn 512. The name of the host is stored
-- before the checks, and the second check overrides the first.
unfoldable pub connect_status : Mem → ℕ
connect_status m =
    if not (read16 m 16 == 0xffff)
    then Sc.connect_invalid_param
    else if not (text_is m 256 disc_subsys_name)
    then Sc.connect_invalid_host
    else Sc.success

-- `struct nvme_id_ctrl`: fr 64, mdts 77, cntlid 78, ver 80, lpa 261, maxcmd 514, sgls 536,
-- subnqn 768.
unfoldable pub identity_page : Mem
identity_page =
    let m0 = write (λ x. 0) 64 (0x20 ∷ 0 ∷ 0 ∷ 0 ∷ 0 ∷ 0 ∷ 0 ∷ 0 ∷ []) in
    let m1 = write (write m0 77 (le8 0)) 78 (le16 0) in
    let m2 = write (write m1 80 (le32 nvme_ver)) 261 (le8 4) in
    let m3 = write (write m2 514 (le16 2)) 536 (le32 (1 + 4 + 2 ^ 20)) in
    write m3 768 (terminated disc_subsys_name)

module _ {S : Type 0} where
  abbrev pub ended : ℕ → Conn S → Act S
  ended r k = record { ret = r; conn = k; sent = none; result = 0 }

  abbrev pub of_step : Conn S → Step → Act S
  of_step k s = record {
    ret = s.ret;
    conn = record k { host = s.host };
    sent = none;
    result = s.result;
  }

  unfoldable pub handle_connect : Fetch → Conn S → Act S
  unfolding connect_status
  handle_connect (failed e) k = ended e k
  handle_connect (page m) k =
      ended (connect_status m)
        (record k { host = record k.host { nqn = read_chars 256 m 512 }; data_page = m })

  -- At most the structure is sent.
  unfoldable pub handle_identify : Command → Bool → Conn S → Act S
  unfolding identity_page
  handle_identify c written k = if not (c.cns == 1) then ended Sc.bad_attributes k else record {
    ret = if written then Sc.success else Sc.write_fault;
    conn = record k { data_page = identity_page };
    sent =
        if written
        then some (record {
          filled = identity_page;
          size = if ltb page_size (length_of c) then page_size else length_of c;
        })
        else none;
    result = 0;
  }

  -- The branch of `handle_request` for Set Features, where `kato` is 0. The new time is stored in an
  -- `int`.
  abbrev pub features_act : Conn S → Option ℕ → Act S
  features_act k none = ended Sc.invalid_field k
  features_act k (some v) =
      ended Sc.success
        (record k { host = record k.host { kato = to_int32 (v * kato_ticks % 2 ^ 32) } })

  unfoldable pub dispatch_fabrics : Transport → Command → Conn S → Act S
  unfolding handle_connect
  dispatch_fabrics x c k =
      if c.fctype == Fctype.property_set
      then of_step k (handle_property_set c k.host)
      else if c.fctype == Fctype.property_get
      then of_step k (handle_property_get c k.host)
      else if c.fctype == Fctype.connect
      then handle_connect x.read k
      else ended Sc.invalid_opcode k

  abbrev pub of_sent : Conn S → Option (Sent S) → Option (Act S)
  of_sent k none = none
  of_sent k (some r) = some (ended r.ret (record k { data_page = r.data_page; target = r.target }))

  abbrev pub of_received : Conn S → Option Received → Option (Act S)
  of_received k none = none
  of_received k (some r) = some (record {
    ret = r.ret;
    conn = record k { data_page = r.data_page };
    sent = r.sent;
    result = 0;
  })

  abbrev pub finish : Command → Option (Act S) → Option (Handled S)
  finish c none = none
  finish c (some a) = some (record {
    act = a;
    resp = record { command_id = c.command_id; status = status_of a.ret; result = a.result };
  })

  module _ (ops : Ops S) (devices : List NsDev) (interfaces : List Iface) where
    -- `none` is an access past the end of the page.
    unfoldable pub dispatch : Transport → Conn S → EpCommand → Option (Act S)
    unfolding dispatch_fabrics handle_identify handle_set_features handle_mi_send handle_mi_receive
    dispatch x k c =
        if c.cmd.opcode == Opcode.fabrics
        then some (dispatch_fabrics x c.cmd k)
        else if c.cmd.opcode == Opcode.mi_send
        then of_sent k (handle_mi_send ops c.fcid x.read k.data_page k.target)
        else if c.cmd.opcode == Opcode.mi_receive
        then of_received k
            (handle_mi_receive devices interfaces c.fcid (length_of c.cmd) x.written k.data_page)
        else if c.cmd.opcode == Opcode.identify
        then some (handle_identify c.cmd x.written k)
        else if c.cmd.opcode == Opcode.keep_alive
        then some (ended Sc.success k)
        else if c.cmd.opcode == Opcode.set_features
        then some (features_act k (handle_set_features c.cmd 0))
        else some (ended Sc.invalid_opcode k)

    unfoldable pub handle_request : Transport → Conn S → EpCommand → Option (Handled S)
    unfolding dispatch
    handle_request x k c = finish c.cmd (dispatch x k c)
