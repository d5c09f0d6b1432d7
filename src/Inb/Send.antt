-- ===== src/Inb/Send.antt =====
-- `_send_set_config` of src/dem/config.c, with the endpoint at the other end.
use nvme_dem.Prelude.{
  ◌≡◌, ◌⊎◌, inl, inr, refl, Bool, true, false, Option, none, some, arith, ◌==◌, if◌then◌else◌,
  Bool-cases,
}
use nvme_dem.Memory.{Mem, received}
use nvme_dem.Endpoint.Ops.{Ops}
use nvme_dem.Endpoint.Config.{Sent, page, handle_mi_send, status_of_call}
use nvme_dem.Inb.Message.{Message, id_of, len_of, build}
use nvme_dem.Inb.Delivery.{meaning, IsSendable, handle_mi_send-build}

-- What becomes of a command: it does not reach the endpoint, or its completion does not come back
-- before the retries of `send_mi_send` run out, or it is answered.
pub data Wire : Type 0 where
  lost unanswered answered : Wire

-- The endpoint: its page and its target.
pub record Peer (S : Type 0) : Type 0 where
  pub data_page : Mem
  pub target : S

-- Whether 0 is returned, and the endpoint.
pub record Tried (S : Type 0) : Type 0 where
  pub ok : Bool
  pub peer : Peer S

-- The result of `_send_set_config`, and `ctrl->connected`.
pub record Outcome (S : Type 0) : Type 0 where
  pub ok : Bool
  pub connected : Bool
  pub peer : Peer S

module _ {S : Type 0} (ops : Ops S) (msg : Message) (heap : Mem) where
  abbrev pub after : Peer S → Option (Sent S) → Peer S
  after p none = p
  after p (some r) = record { data_page = r.data_page; target = r.target }

  abbrev pub succeeded : Option (Sent S) → Bool
  succeeded none = false
  succeeded (some r) = r.ret == 0

  -- The endpoint's handling of the message.
  unfoldable pub handled : Peer S → Option (Sent S)
  unfolding handle_mi_send
  handled p =
      handle_mi_send ops (id_of msg) (page (received (len_of msg) (build heap msg) p.data_page))
        p.data_page p.target

  -- `send_mi_send`
  unfoldable pub send_mi_send : Wire → Peer S → Tried S
  send_mi_send lost p = record { ok = false; peer = p }
  send_mi_send unanswered p = record { ok = false; peer = after p (handled p) }
  send_mi_send answered p = record { ok = succeeded (handled p); peer = after p (handled p) }

  abbrev pub connect_and_send : Bool → Wire → Peer S → Outcome S
  connect_and_send connects w p =
      if connects
      then (let t = send_mi_send w p in record { ok = t.ok; connected = true; peer = t.peer })
      else record { ok = false; connected = false; peer = p }

  -- `w` and `w'` are what becomes of the two sends, and `connects` is whether `connect_ctrl` succeeds.
  unfoldable pub send_set_config : Bool → Bool → Wire → Wire → Peer S → Outcome S
  unfolding send_mi_send
  send_set_config connected connects w w' p =
      if connected
      then (let t = send_mi_send w p in
          if t.ok
          then record { ok = true; connected = true; peer = t.peer }
          else connect_and_send connects w' t.peer)
      else connect_and_send connects w' p

  -- What a target is after the message's call.
  abbrev pub once : S → S
  once s = (ops.perform (meaning msg) s).1

  -- Whether the call of a message succeeds.
  abbrev pub accepted : S → Bool
  accepted s = status_of_call (meaning msg) (ops.perform (meaning msg) s).0 == 0

  -- An outcome for a target: success is a call that has been made with success, once or again.
  abbrev pub Carried : S → Outcome S → Type 0
  Carried s o =
      ((o.ok ≡ false)
        ⊎ (o.connected ≡ true)
          × ((o.peer.target ≡ once s) × (accepted s ≡ true)
              ⊎ (o.peer.target ≡ once (once s)) × (accepted (once s) ≡ true)))
      × ((o.peer.target ≡ s) ⊎ (o.peer.target ≡ once s) ⊎ (o.peer.target ≡ once (once s)))

  module _ (sendable : IsSendable msg) where
    pub handled_lem :
        (p : Peer S)
        → (succeeded (handled p) ≡ accepted p.target)
          × ((after p (handled p)).target ≡ once p.target)
    unfolding handled
    handled_lem p =
        rw (handle_mi_send-build ops msg heap p.data_page p.target sendable) (refl, refl)

    -- A send that succeeds has carried the message out once.
    send_mi_send_lem :
        (w : Wire) (p : Peer S)
        → (((send_mi_send w p).ok ≡ false)
            ⊎ ((send_mi_send w p).peer.target ≡ once p.target) × (accepted p.target ≡ true))
          × (((send_mi_send w p).peer.target ≡ p.target)
              ⊎ ((send_mi_send w p).peer.target ≡ once p.target))
    unfolding send_mi_send
    send_mi_send_lem lost p = (inl refl, inl refl)
    send_mi_send_lem unanswered p = (inl refl, inr (handled_lem p).1)
    send_mi_send_lem answered p = (
      elim (Bool-cases (succeeded (handled p))) [
        | inl e ↦ inr ((handled_lem p).1, ground (arith, (handled_lem p).0))
        | inr e ↦ inl e
      ],
      inr (handled_lem p).1,
    )

    -- Where `_send_set_config` returns 0, the connection is marked as such, and the endpoint has made
    -- the message's call once with success, or twice, the second time with success. In any case the
    -- endpoint's target is as it was, or has had the call once or twice.
    pub send_set_config_lem :
        (connected connects : Bool) (w w' : Wire) (p : Peer S)
        → Carried p.target (send_set_config connected connects w w' p)
    unfolding send_set_config
    send_set_config_lem connected connects w w' p = ground (
      arith,
      send_mi_send_lem w p,
      send_mi_send_lem w' p,
      send_mi_send_lem w' (send_mi_send w p).peer,
    )
