-- ===== src/Dem/Discovery/Answer.antt =====
-- What the answers of the discovery controller mean to a host (src/dem/pseudo_target.c).
use nvme_dem.Prelude.{
  ℕ, ◌*◌, ◌%◌, ◌^◌, ◌<◌, ◌≡◌, ◌↔◌, ◌⊎◌, refl, ap, ◌∙◌, subst, inl, inr, not, Bool, true, false,
  Option, none, some, arith, ◌==◌, if◌then◌else◌,
}
use nvme_dem.Dem.State.{Dem}
use nvme_dem.Dem.Discovery.Command.{Command, ConnectData, to_int32, of_int32}
use nvme_dem.Dem.Discovery.Pages.{
  nothing, Reply, fault, reply, handle_get_log_page_count, handle_get_log_pages,
}
use nvme_dem.Dem.Discovery.Request.{
  Transport, HostConn, Handled, Step, step, handle_request, finish, finish_reply, dispatch_fabrics,
  dispatch_log_page, handle_identify, handle_get_features, handle_set_features, handle_property_set,
  handle_property_get, handle_connect, handle_async_event, status_of,
}
use nvme_dem.Nvme.Sc
use nvme_dem.Nvme.Reg
use nvme_dem.Nvme.Feat
use nvme_dem.Nvme.Opcode
use nvme_dem.Nvme.Fctype

-- A status that fits below the DNR bit, and a failure that changes no list and sends nothing.
pub record Sane (d : Dem) (c : Command) (r : Handled) : Type 0 where
  pub echoed : r.resp.command_id ≡ c.command_id
  pub status : (r.resp.status ≡ 0) ↔ (r.ret ≡ 0)
  pub quiet : (r.ret ≡ 0) ⊎ (r.dem ≡ d) × (r.payload ≡ nothing)

-- The status field is 0 for the code 0 alone.
abbrev pub is_sane : ℕ → Bool
is_sane r = if r == 0 then status_of r == 0 else not (status_of r == 0)

connect-is_sane : (m : Option ConnectData) (h : HostConn) → is_sane (handle_connect m h).ret ≡ true
unfolding handle_connect
connect-is_sane none h = refl
connect-is_sane (some m) h = ground arith

fabrics-is_sane :
    (x : Transport) (c : Command) (h : HostConn) → is_sane (dispatch_fabrics x c h).ret ≡ true
unfolding dispatch_fabrics handle_property_set handle_property_get
fabrics-is_sane x c h = ground (arith, connect-is_sane x.read h)

features-is_sane :
    (c : Command) (h : HostConn)
    → (is_sane (handle_get_features c h).ret ≡ true)
      × (is_sane (handle_set_features c h).ret ≡ true)
unfolding handle_get_features handle_set_features
features-is_sane c h = (ground arith, ground arith)

-- A reply with a failure carries nothing.
abbrev IsFair : Reply → Type 0
IsFair fault = Unit
IsFair (reply r p) = (is_sane r ≡ true) × ((r ≡ 0) ⊎ (p ≡ nothing))

identify-IsFair : (c : Command) (w : Bool) → IsFair (handle_identify c w)
unfolding handle_identify
identify-IsFair c w = ground arith

log_page-IsFair :
    (x : Transport) (c : Command) (h : HostConn) (d : Dem) → IsFair (dispatch_log_page x c h d)
unfolding dispatch_log_page handle_get_log_page_count handle_get_log_pages
log_page-IsFair x c h d = ground arith

split_status : (r v : ℕ) → (if r == 0 then v == 0 else not (v == 0)) ≡ true → (v ≡ 0) ↔ (r ≡ 0)
split_status r v h = ground arith

pub status_sane : (r : ℕ) → is_sane r ≡ true → (status_of r ≡ 0) ↔ (r ≡ 0)
status_sane r h = split_status r (status_of r) h

abbrev Checked : Dem → Command → Option Handled → Type 0
Checked d c none = Unit
Checked d c (some r) = Sane d c r

finish-Checked :
    (c : Command) (d : Dem) (s : Step) → is_sane s.ret ≡ true → Checked d c (finish c d nothing s)
finish-Checked c d s h = record {
  echoed = refl;
  status = status_sane s.ret h;
  quiet = inr (refl, refl);
}

reply-Checked :
    (c : Command) (h : HostConn) (d : Dem) (p : Reply)
    → IsFair p
    → Checked d c (finish_reply c h d p)
reply-Checked c h d fault f = tt
reply-Checked c h d (reply n p) f = record {
  echoed = refl;
  status = status_sane n f.0;
  quiet = elim f.1 [ inl z ↦ inl z | inr e ↦ inr (refl, e) ];
}

async-Checked :
    (c : Command) (h : HostConn) (d d' : Dem)
    → Checked d c (finish c d' nothing (step Sc.success h))
async-Checked c h d d' = record { echoed = refl; status = status_sane 0 refl; quiet = inl refl }

Checked-if :
    (d : Dem) (c : Command) (b : Bool) (o o' : Option Handled)
    → Checked d c o
    → Checked d c o'
    → Checked d c (if b then o else o')
Checked-if d c true o o' p q = p
Checked-if d c false o o' p q = q

request-Checked :
    (x : Transport) (h : HostConn) (d : Dem) (c : Command) → Checked d c (handle_request x h d c)
unfolding handle_request
request-Checked x h d c =
    Checked-if d c (c.opcode == Opcode.fabrics) _ _
      (finish-Checked c d (dispatch_fabrics x c h) (fabrics-is_sane x c h))
      (Checked-if d c (c.opcode == Opcode.identify) _ _
        (reply-Checked c h d (handle_identify c x.written) (identify-IsFair c x.written))
        (Checked-if d c (c.opcode == Opcode.keep_alive) _ _
          (finish-Checked c d (step Sc.success h) refl)
          (Checked-if d c (c.opcode == Opcode.get_log_page) _ _
            (reply-Checked c h d (dispatch_log_page x c h d) (log_page-IsFair x c h d))
            (Checked-if d c (c.opcode == Opcode.get_features) _ _
              (finish-Checked c d (handle_get_features c h) (features-is_sane c h).0)
              (Checked-if d c (c.opcode == Opcode.set_features) _ _
                (finish-Checked c d (handle_set_features c h) (features-is_sane c h).1)
                (Checked-if d c (c.opcode == Opcode.async_event) _ _
                  (async-Checked c h d (handle_async_event x.fresh h d))
                  (finish-Checked c d (step Sc.invalid_opcode h) refl)))))))

-- Every command that is answered gets the completion of its own id, with status 0 exactly when the
-- handler succeeds; a command that fails changes none of the lists and sends no data.
pub handle_request-Sane :
    (x : Transport) (h : HostConn) (d : Dem) (c : Command) (r : Handled)
    → handle_request x h d c ≡ some r
    → Sane d c r
handle_request-Sane x h d c r e = subst (Checked d c) e (request-Checked x h d c)

-- The result of a command that succeeds.
abbrev pub Answers : Option Handled → ℕ → Type 0
Answers none n = ⊥
Answers (some r) n = (r.ret ≡ 0) × (r.resp.result ≡ n)

-- The connection after a command.
abbrev pub host_after : HostConn → Option Handled → HostConn
host_after h none = h
host_after h (some r) = r.host

int32_round : (n : ℕ) → n < 2 ^ 32 → of_int32 (to_int32 n) ≡ n
int32_round n h = ground arith

module _ (x : Transport) (h : HostConn) (d : Dem) (c : Command) where
  pub set_features_lem :
      c.opcode ≡ Opcode.set_features
      → handle_request x h d c ≡ finish c d nothing (handle_set_features c h)
  unfolding handle_request
  set_features_lem a = ground arith

  get_features_lem :
      c.opcode ≡ Opcode.get_features
      → handle_request x h d c ≡ finish c d nothing (handle_get_features c h)
  unfolding handle_request
  get_features_lem a = ground arith

  property_set_lem :
      c.opcode ≡ Opcode.fabrics
      → c.fctype ≡ Fctype.property_set
      → handle_request x h d c ≡ finish c d nothing (handle_property_set c h)
  unfolding handle_request dispatch_fabrics
  property_set_lem a b = ground arith

  property_get_lem :
      c.opcode ≡ Opcode.fabrics
      → c.fctype ≡ Fctype.property_get
      → handle_request x h d c ≡ finish c d nothing (handle_property_get c h)
  unfolding handle_request dispatch_fabrics
  property_get_lem a b = ground arith

  pub set_kato :
      c.cdw10 % 256 ≡ Feat.kato
      → handle_set_features c h
        ≡ step Sc.success (record h { kato = to_int32 (c.cdw11 * 5 % 2 ^ 32) })
  unfolding handle_set_features
  set_kato b = ground arith

  get_kato :
      c.cdw10 % 256 ≡ Feat.kato
      → handle_get_features c h ≡ record { ret = Sc.success; host = h; result = of_int32 h.kato }
  unfolding handle_get_features
  get_kato b = ground arith

  set_cc :
      c.offset ≡ Reg.cc
      → handle_property_set c h
        ≡ step Sc.success (record h { csts = if c.value == 0x460001 then 1 else 8 })
  unfolding handle_property_set
  set_cc b = ground arith

  get_csts :
      c.offset ≡ Reg.csts
      → handle_property_get c h ≡ record { ret = Sc.success; host = h; result = h.csts }
  unfolding handle_property_get
  get_csts b = ground arith

-- The keep-alive time that Get Features returns is five times the one that Set Features set, in 32
-- bits, whatever else the two commands hold.
pub kato_read_back :
    (x y : Transport) (h : HostConn) (d : Dem) (set get : Command)
    → set.opcode ≡ Opcode.set_features
    → set.cdw10 % 256 ≡ Feat.kato
    → get.opcode ≡ Opcode.get_features
    → get.cdw10 % 256 ≡ Feat.kato
    → Answers
        (handle_request y (host_after h (handle_request x h d set)) d get)
        (set.cdw11 * 5 % 2 ^ 32)
kato_read_back x y h d set get a b c e =
    let k = to_int32 (set.cdw11 * 5 % 2 ^ 32) in
    let h' : HostConn = record h { kato = k } in
    rw (set_features_lem x h d set a ∙ ap (finish set d nothing) (set_kato x h d set b)) (
      rw (get_features_lem y h' d get c ∙ ap (finish get d nothing) (get_kato y h' d get e))
        (refl, int32_round (set.cdw11 * 5 % 2 ^ 32) (omega arith)))

-- The controller reports ready after the host writes 0x460001 to CC, and shut down after any other
-- value.
pub csts_read_back :
    (x y : Transport) (h : HostConn) (d : Dem) (set get : Command)
    → set.opcode ≡ Opcode.fabrics
    → set.fctype ≡ Fctype.property_set
    → set.offset ≡ Reg.cc
    → get.opcode ≡ Opcode.fabrics
    → get.fctype ≡ Fctype.property_get
    → get.offset ≡ Reg.csts
    → Answers
        (handle_request y (host_after h (handle_request x h d set)) d get)
        (if set.value == 0x460001 then 1 else 8)
csts_read_back x y h d set get a b c e f g =
    let h' : HostConn = record h { csts = if set.value == 0x460001 then 1 else 8 } in
    rw (property_set_lem x h d set a b ∙ ap (finish set d nothing) (set_cc x h d set c)) (
      rw (property_get_lem y h' d get e f ∙ ap (finish get d nothing) (get_csts y h' d get g))
        (refl, refl))
