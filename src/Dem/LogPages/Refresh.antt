-- ===== src/Dem/LogPages/Refresh.antt =====
-- `refresh_log_pages` of src/dem/logpages.c. What the fabric answers is an argument: for each queue,
-- whether `connect_ctrl` succeeds and what mark it leaves in `failed_kato`, and the two answers that
-- `get_logpages` reads. A connection that succeeds does not set `connected`.
use nvme_dem.Prelude.{
  ℕ, Bool, true, false, not, ◌||◌, List, [], ◌∷◌, Option, none, some, ◌==◌, if◌then◌else◌, ℤ, pos,
  eqb_ℤ, any, find,
}
use nvme_dem.Dem.State.{Subsystem, CtrlQueue, Target}
use nvme_dem.Dem.LogPages.Fetch.{LogHdr, Fetched, nodata, inval, overread, records, get_logpages}
use nvme_dem.Dem.LogPages.Save.{save_log_pages, invalidate_log_pages}

pub record Fabric : Type 0 where
  pub connects : CtrlQueue → Bool
  pub kato_refused : CtrlQueue → Bool
  pub header : CtrlQueue → Option LogHdr
  pub pages : CtrlQueue → ℕ → Option LogHdr

-- `is_restricted`: RESTRICTED is 0.
unfoldable pub is_restricted : Subsystem → Bool
is_restricted s = eqb_ℤ s.access (pos 0)

unfoldable pub target_with_allow_any_subsys : Target → Bool
unfolding is_restricted
target_with_allow_any_subsys t = any (λ s. not (is_restricted s)) t.subsys_list

abbrev pub is_empty {ℓ} : {A : Type ℓ} → List A → Bool
is_empty [] = true
is_empty (x ∷ xs) = false

abbrev has_hosts : Option Subsystem → Bool
has_hosts none = false
has_hosts (some s) = not (is_empty s.host_list)

-- A queue of no subsystem is shared by the subsystems that any host may use.
unfoldable pub avilable_dq : Target → CtrlQueue → Bool
unfolding target_with_allow_any_subsys
avilable_dq t dq = elim dq.subsys [
  | none ↦ target_with_allow_any_subsys t
  | some id ↦ has_hosts (find (λ s. s.id == id) t.subsys_list)
]

-- A failed fetch leaves the target as it is. (An over-read has no defined result.)
abbrev pub save_fetched : ℕ → Target → Fetched → Target
save_fetched port t (records es) = save_log_pages port t es
save_fetched port t nodata = t
save_fetched port t inval = t
save_fetched port t overread = t

unfoldable pub fetch_log_pages : Fabric → Target → CtrlQueue → Target
fetch_log_pages f t dq = save_fetched dq.portid t (get_logpages (f.header dq) (f.pages dq))

abbrev pub log_page_retry : ℤ
log_page_retry = pos 200

unfoldable pub connect_ctrl : Fabric → CtrlQueue → CtrlQueue
connect_ctrl f dq = record dq { failed_kato = dq.failed_kato || f.kato_refused dq }

-- `disconnect_ctrl` after the fetch, where the peer refused a keep-alive timeout.
abbrev pub release : CtrlQueue → CtrlQueue
release dq = if dq.failed_kato then record dq { connected = false } else dq

-- One round of the loop over the discovery queues.
unfoldable pub refresh_dq : Fabric → Target → CtrlQueue → Target × CtrlQueue
unfolding connect_ctrl
refresh_dq f t dq =
    if dq.connected
    then (fetch_log_pages f t dq, release dq)
    else if not (avilable_dq t dq)
    then (t, dq)
    else if not (f.connects dq)
    then (record t { log_page_retry_count = log_page_retry }, connect_ctrl f dq)
    else (fetch_log_pages f t dq, release (connect_ctrl f dq))

unfoldable pub refresh_dqs : Fabric → Target → List CtrlQueue → Target × List CtrlQueue
refresh_dqs f t [] = (t, [])
refresh_dqs f t (dq ∷ dqs) =
    let (t', dq') = refresh_dq f t dq in let (t'', dqs') = refresh_dqs f t' dqs in (t'', dq' ∷ dqs')

unfoldable pub refresh_log_pages : Fabric → Target → Target
unfolding refresh_dqs
refresh_log_pages f t =
    let (t', dqs) = refresh_dqs f (invalidate_log_pages t) t.discovery_queue_list in
    record t' { discovery_queue_list = dqs }
