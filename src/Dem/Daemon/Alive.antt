-- ===== src/Dem/Daemon/Alive.antt =====
-- `keep_alive_work` of src/dem/daemon.c. Whether a peer answers a keep-alive, and whether the
-- in-band connection succeeds, are arguments.
use nvme_dem.Prelude.{
  Bool, true, false, not, ◌&&◌, ◌||◌, List, [], ◌∷◌, if◌then◌else◌, ℤ, pos, ltb_ℤ, pred_ℤ,
}
use nvme_dem.Dem.State.{CtrlQueue, MgmtMode, local_mgmt, in_band_mgmt, out_of_band_mgmt, Target}
use nvme_dem.Dem.LogPages.Refresh.{log_page_retry}

pub record Peer : Type 0 where
  pub alive : CtrlQueue → Bool
  pub inb_connects : Bool
  pub inb_alive : Bool

-- The loop over the queues: whether one failed, the queues, and those that were sent a keep-alive.
pub record Pinged : Type 0 where
  pub failed : Bool
  pub queues : List CtrlQueue
  pub sent : List CtrlQueue

abbrev pub pass_queue : CtrlQueue → Pinged → Pinged
pass_queue dq r = record r { queues = dq ∷ r.queues }

abbrev pub sent_queue : CtrlQueue → Pinged → Pinged
sent_queue dq r = record { failed = r.failed; queues = dq ∷ r.queues; sent = dq ∷ r.sent }

-- A failure disconnects the queue and ends the loop.
unfoldable pub ping_queues : Peer → List CtrlQueue → Pinged
ping_queues p [] = record { failed = false; queues = []; sent = [] }
ping_queues p (dq ∷ dqs) =
    let rest = ping_queues p dqs in
    if not dq.connected || dq.failed_kato
    then pass_queue dq rest
    else if p.alive dq
    then sent_queue dq rest
    else record { failed = true; queues = record dq { connected = false } ∷ dqs; sent = dq ∷ [] }

-- The in-band connection after its keep-alive or its new attempt.
abbrev pub inb_after : Peer → MgmtMode → Bool → Bool
inb_after p local_mgmt c = c
inb_after p in_band_mgmt c = if not c then p.inb_connects else p.inb_alive
inb_after p out_of_band_mgmt c = c

-- KEEP_ALIVE_TIMER / IDLE_TIMEOUT / 2
abbrev pub keep_alive_rounds : ℤ
keep_alive_rounds = pos 600

-- Whether it fails, the target, and the queues that were sent a keep-alive.
pub record Alive : Type 0 where
  pub failed : Bool
  pub target : Target
  pub sent : List CtrlQueue

abbrev pub after_pings : Peer → Target → Pinged → Alive
after_pings p t r =
    if r.failed
    then record {
      failed = true;
      target = record t { discovery_queue_list = r.queues; log_page_retry_count = log_page_retry };
      sent = r.sent;
    }
    else record {
      failed = false;
      target = record t {
        discovery_queue_list = r.queues;
        inb_connected = inb_after p t.mgmt_mode t.inb_connected;
        kato_countdown = keep_alive_rounds;
      };
      sent = r.sent;
    }

unfoldable pub keep_alive_work : Peer → Target → Alive
keep_alive_work p t =
    let t' = record t { kato_countdown = pred_ℤ t.kato_countdown } in
    if ltb_ℤ (pos 0) t'.kato_countdown
    then record { failed = false; target = t'; sent = [] }
    else after_pings p t' (ping_queues p t'.discovery_queue_list)

-- A queue that a keep-alive goes to.
abbrev pub is_due : CtrlQueue → Bool
is_due dq = dq.connected && not dq.failed_kato
