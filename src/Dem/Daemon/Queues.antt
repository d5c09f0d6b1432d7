-- ===== src/Dem/Daemon/Queues.antt =====
-- `dq_exists`, `create_discovery_queue` and `init_discovery_queue` of src/dem/daemon.c.
use nvme_dem.Prelude.{
  ℕ, ◌≡◌, refl, ap, ◌∙◌, Bool, true, false, not, ◌&&◌, ◌||◌, List, [], ◌∷◌, ◌++◌, Option, none,
  some, ◌==◌, if◌then◌else◌, CStr, codes, streq, strncpy, any, inl, inr, Bool-cases,
}
use nvme_dem.Dem.State.{Entry, Subsystem, PortId, CtrlQueue, Target}
use nvme_dem.Dem.LogPages.Fetch.{Fetched, records, nodata, inval, overread, get_logpages}
use nvme_dem.Dem.LogPages.Save.{save_log_pages, save_entry, save_subsys, place_entry}
use nvme_dem.Dem.LogPages.Refresh.{
  save_fetched, Fabric, is_restricted, is_empty, fetch_log_pages, connect_ctrl, release,
}

abbrev pub max_nqn_size : ℕ
max_nqn_size = 256

-- The types that have operations (src/common/nvmeof.c).
unfoldable pub register_ops : CStr → Bool
register_ops type = streq type (codes "rdma") || streq type (codes "tcp")

abbrev pub has_subsys : CtrlQueue → Bool
has_subsys dq = elim dq.subsys [ none ↦ false | some id ↦ true ]

unfoldable pub dq_exists : Target → Subsystem → ℕ → Bool
dq_exists t s portid =
    any
      (λ dq.
        has_subsys dq && not (dq.portid == portid) && any (λ h. streq h.nqn dq.hostnqn) s.host_list)
      t.discovery_queue_list

-- The name of the first host, or the shared one for no subsystem.
abbrev pub host_name : CStr → Option Subsystem → CStr
host_name shared none = strncpy shared max_nqn_size
host_name shared (some s) = elim s.host_list [ [] ↦ [] | h ∷ hs ↦ strncpy h.nqn max_nqn_size ]

abbrev pub new_queue : CStr → Option Subsystem → PortId → CtrlQueue
new_queue shared o p = record {
  portid = p.id;
  subsys = elim o [ none ↦ none | some s ↦ some s.id ];
  hostnqn = host_name shared o;
  connected = false;
  failed_kato = false;
}

abbrev pub add_queue : CtrlQueue → Target → Target
add_queue dq t = record t { discovery_queue_list = t.discovery_queue_list ++ dq ∷ [] }

-- From the call of `connect_ctrl` on.
abbrev pub start_queue : Fabric → Target → CtrlQueue → Target
start_queue f t dq =
    if f.connects dq
    then add_queue (release (connect_ctrl f dq)) (fetch_log_pages f t dq)
    else add_queue (connect_ctrl f dq) t

-- The conditions under which the function returns at once.
abbrev pub needless : Target → Option Subsystem → PortId → Bool
needless t none p = false
needless t (some s) p = not (is_restricted s) || is_empty s.host_list || dq_exists t s p.id

unfoldable pub create_discovery_queue : Fabric → CStr → Target → Option Subsystem → PortId → Target
create_discovery_queue f shared t o p =
    if needless t o p
    then t
    else if not (register_ops p.type)
    then t
    else start_queue f t (new_queue shared o p)

unfoldable pub create_queues : Fabric → CStr → Target → PortId → List Subsystem → Target
create_queues f shared t p [] = t
create_queues f shared t p (s ∷ ss) =
    create_queues f shared (create_discovery_queue f shared t (some s) p) p ss

unfoldable pub init_discovery_queue : Fabric → CStr → Target → PortId → Target
init_discovery_queue f shared t p =
    create_queues f shared (create_discovery_queue f shared t none p) p t.subsys_list

-- Saving log pages leaves the queues alone.
pub queues-save :
    (port : ℕ) (t : Target) (es : List Entry)
    → (save_log_pages port t es).discovery_queue_list ≡ t.discovery_queue_list
unfolding save_log_pages save_entry
queues-save port t [] = refl
queues-save port t (e ∷ es) =
    queues-save port (save_entry port t e) es ∙ queues-place (save_subsys port e t.subsys_list)
  where
    queues-place :
        (o : Option (List Subsystem))
        → (place_entry port t e o).discovery_queue_list ≡ t.discovery_queue_list
    queues-place none = refl
    queues-place (some ss) = refl

queues-save_fetched :
    (port : ℕ) (t : Target) (r : Fetched)
    → (save_fetched port t r).discovery_queue_list ≡ t.discovery_queue_list
queues-save_fetched port t (records es) = queues-save port t es
queues-save_fetched port t nodata = refl
queues-save_fetched port t inval = refl
queues-save_fetched port t overread = refl

pub queues-fetch :
    (f : Fabric) (t : Target) (dq : CtrlQueue)
    → (fetch_log_pages f t dq).discovery_queue_list ≡ t.discovery_queue_list
unfolding fetch_log_pages
queues-fetch f t dq = queues-save_fetched dq.portid t (get_logpages (f.header dq) (f.pages dq))

-- The queue as the function leaves it.
abbrev pub started : Fabric → CtrlQueue → CtrlQueue
started f dq = if f.connects dq then release (connect_ctrl f dq) else connect_ctrl f dq

queues-start :
    (f : Fabric) (t : Target) (dq : CtrlQueue)
    → (start_queue f t dq).discovery_queue_list ≡ t.discovery_queue_list ++ started f dq ∷ []
queues-start f t dq = elim (Bool-cases (f.connects dq)) [
  | inl c ↦ rw c (ap (λ l. l ++ release (connect_ctrl f dq) ∷ []) (queues-fetch f t dq))
  | inr c ↦ rw c refl
]

-- A call adds one queue at the tail, or leaves the queues alone.
pub queues-create :
    (f : Fabric) (shared : CStr) (t : Target) (o : Option Subsystem) (p : PortId)
    → (create_discovery_queue f shared t o p).discovery_queue_list ≡ (
        if needless t o p || not (register_ops p.type)
        then t.discovery_queue_list
        else t.discovery_queue_list ++ started f (new_queue shared o p) ∷ [])
unfolding create_discovery_queue
queues-create f shared t o p = elim (Bool-cases (needless t o p)) [
  | inl n ↦ rw n refl
  | inr n ↦ rw n (elim (Bool-cases (register_ops p.type)) [
    | inl r ↦ rw r (queues-start f t (new_queue shared o p))
    | inr r ↦ rw r refl
  ])
]
