-- ===== src/Dem/Notify/Send.antt =====
-- `send_notifications` of src/dem/config.c.
use nvme_dem.Prelude.{
  ℕ, Bool, not, ◌&&◌, ◌||◌, ◌≡◌, refl, ◌∙◌, List, [], ◌∷◌, arith, ◌==◌, any, filter, if◌then◌else◌,
}
use nvme_dem.Dem.State.{EventRequest}
use nvme_dem.Dem.Notify.Lists.{Notification}

-- The endpoints: whether one still has its command buffer, and whether its state is CONNECTED.
pub record Peers : Type 0 where
  pub has_cmd : ℕ → Bool
  pub is_connected : ℕ → Bool

-- The endpoints that get a completion with NVME_AER_NOTICE_LOG_PAGE_CHANGE, in order.
unfoldable pub sent_to : Peers → List Notification → List ℕ
sent_to p [] = []
sent_to p (n ∷ ns) =
    let rest = sent_to p ns in if p.has_cmd n.ep && p.is_connected n.ep then n.ep ∷ rest else rest

-- `list_del(&entry->req->node)` at the label `cleanup`, whether or not anything was sent.
unfoldable pub drop_request : ℕ → List EventRequest → List EventRequest
drop_request id = filter (λ r. not (r.id == id))

unfoldable pub drop_requests : List Notification → List EventRequest → List EventRequest
unfolding drop_request
drop_requests [] rs = rs
drop_requests (n ∷ ns) rs = drop_requests ns (drop_request n.req rs)

pub record Sent : Type 0 where
  pub eps : List ℕ
  pub pending : List EventRequest

unfoldable pub send_notifications : Peers → List Notification → List EventRequest → Sent
unfolding sent_to drop_requests
send_notifications p ns rs = record { eps = sent_to p ns; pending = drop_requests ns rs }

abbrev answered : List Notification → EventRequest → Bool
answered ns r = any (λ n. r.id == n.req) ns

drop_once :
    (id : ℕ) (ns : List Notification) (rs : List EventRequest)
    → filter (λ r. not (answered ns r)) (filter (λ r. not (r.id == id)) rs)
      ≡ filter (λ r. not (r.id == id || answered ns r)) rs
drop_once id ns [] = refl
drop_once id ns (r ∷ rs) = ground (arith, drop_once id ns rs)

none_dropped : (rs : List EventRequest) → rs ≡ filter (λ r. not (answered [] r)) rs
none_dropped [] = refl
none_dropped (r ∷ rs) = ground (arith, none_dropped rs)

-- Sending leaves pending exactly the requests that no notification answers, in their order, also
-- where the endpoint is gone or not connected and nothing was sent.
pub pending-send_notifications :
    (p : Peers) (ns : List Notification) (rs : List EventRequest)
    → (send_notifications p ns rs).pending ≡ filter (λ r. not (answered ns r)) rs
unfolding send_notifications
pending-send_notifications p [] rs = none_dropped rs
pending-send_notifications p (n ∷ ns) rs =
    pending-send_notifications p ns (drop_request n.req rs) ∙ drop_once n.req ns rs
