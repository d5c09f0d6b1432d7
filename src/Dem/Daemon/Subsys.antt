-- ===== src/Dem/Daemon/Subsys.antt =====
-- The discovery queue of one subsystem (src/dem/config.c): `_del_subsys_dq`, `_update_subsys_dq`
-- `_reset_subsys_dq_nqn` and `_reset_subsys_dq`. `target_refresh` looks the target up by its alias;
-- aliases are taken to be unique, so that it refreshes this target.
use nvme_dem.Prelude.{
  ℕ, ◌≡◌, refl, Bool, true, false, not, List, [], ◌∷◌, none, some, arith, ◌==◌, if◌then◌else◌, CStr,
  streq, strncpy, filter, length, ◌-◌,
}
use nvme_dem.Dem.State.{Subsystem, PortId, CtrlQueue, Target}
use nvme_dem.Dem.LogPages.Refresh.{Fabric, refresh_log_pages}
use nvme_dem.Dem.Daemon.Queues.{max_nqn_size, create_discovery_queue}

-- `dq->subsys == subsys`
abbrev pub serves : ℕ → CtrlQueue → Bool
serves id dq = elim dq.subsys [ none ↦ false | some s ↦ s == id ]

-- The queues, and whether the target is to be refreshed.
pub record Changed : Type 0 where
  pub queues : List CtrlQueue
  pub refresh : Bool

abbrev pub untouched : List CtrlQueue → Changed
untouched dqs = record { queues = dqs; refresh = false }

abbrev pub touched : List CtrlQueue → Changed
touched dqs = record { queues = dqs; refresh = true }

abbrev pub behind : CtrlQueue → Changed → Changed
behind dq c = record c { queues = dq ∷ c.queues }

-- What is done to the first queue of the subsystem and to the list behind it.
unfoldable pub at_first : (CtrlQueue → List CtrlQueue → Changed) → ℕ → List CtrlQueue → Changed
at_first act id [] = untouched []
at_first act id (dq ∷ dqs) =
    let rest = at_first act id dqs in if serves id dq then act dq dqs else behind dq rest

abbrev pub rename : CStr → CtrlQueue → CtrlQueue
rename nqn dq = record dq { hostnqn = strncpy nqn max_nqn_size }

-- `if (dq->connected) disconnect_ctrl(dq, 0);`
abbrev pub hung_up : CtrlQueue → CtrlQueue
hung_up dq = record dq { connected = false }

abbrev pub drop_queue : CtrlQueue → List CtrlQueue → Changed
drop_queue dq dqs = touched dqs

abbrev pub rename_queue : CStr → CtrlQueue → List CtrlQueue → Changed
rename_queue nqn dq dqs = touched (rename nqn dq ∷ dqs)

abbrev pub update_queue : Subsystem → CStr → CStr → CtrlQueue → List CtrlQueue → Changed
update_queue s old new dq dqs =
    if not (streq old dq.hostnqn) then untouched (dq ∷ dqs) else elim s.host_list [
      | [] ↦ touched (hung_up dq ∷ dqs)
      | h ∷ hs ↦ touched (rename new (hung_up dq) ∷ dqs)
    ]

abbrev pub reset_queue : Subsystem → CStr → CtrlQueue → List CtrlQueue → Changed
reset_queue s nqn dq dqs =
    if not (streq nqn dq.hostnqn)
    then untouched (dq ∷ dqs)
    else elim s.host_list [ [] ↦ touched dqs | h ∷ hs ↦ touched (rename h.nqn (hung_up dq) ∷ dqs) ]

unfoldable pub del_dq : ℕ → List CtrlQueue → Changed
unfolding at_first
del_dq id = at_first drop_queue id

unfoldable pub rename_dq : ℕ → CStr → List CtrlQueue → Changed
unfolding at_first
rename_dq id nqn = at_first (rename_queue nqn) id

unfoldable pub update_dq : Subsystem → CStr → CStr → List CtrlQueue → Changed
unfolding at_first
update_dq s old new = at_first (update_queue s old new) s.id

unfoldable pub reset_dq : Subsystem → CStr → List CtrlQueue → Changed
unfolding at_first
reset_dq s nqn = at_first (reset_queue s nqn) s.id

abbrev pub changed : Fabric → Target → Changed → Target
changed f t c =
    if c.refresh
    then refresh_log_pages f (record t { discovery_queue_list = c.queues })
    else record t { discovery_queue_list = c.queues }

unfoldable pub del_subsys_dq : Fabric → Target → Subsystem → Target
del_subsys_dq f t s = changed f t (del_dq s.id t.discovery_queue_list)

unfoldable pub update_subsys_dq : Fabric → Target → Subsystem → CStr → CStr → Target
update_subsys_dq f t s old new = changed f t (update_dq s old new t.discovery_queue_list)

unfoldable pub reset_subsys_dq_nqn : Fabric → Target → Subsystem → CStr → Target
reset_subsys_dq_nqn f t s nqn = changed f t (reset_dq s nqn t.discovery_queue_list)

unfoldable pub create_at_ports : Fabric → CStr → Target → Subsystem → List PortId → Target
create_at_ports f shared t s [] = t
create_at_ports f shared t s (p ∷ ps) =
    create_at_ports f shared (create_discovery_queue f shared t (some s) p) s ps

-- Where the subsystem has no queue, one is made for each port.
unfoldable pub reset_subsys_dq : Fabric → CStr → Target → Subsystem → CStr → Target
reset_subsys_dq f shared t s nqn =
    let c = rename_dq s.id nqn t.discovery_queue_list in
    if c.refresh then changed f t c else create_at_ports f shared t s t.portid_list

-- The queues of the other subsystems.
abbrev pub others : ℕ → List CtrlQueue → List CtrlQueue
others id = filter (λ dq. not (serves id dq))

-- The queues of the subsystem.
abbrev pub own : ℕ → List CtrlQueue → List CtrlQueue
own id = filter (serves id)

del-others : (id : ℕ) (dqs : List CtrlQueue) → others id (del_dq id dqs).queues ≡ others id dqs
unfolding del_dq
del-others id [] = refl
del-others id (dq ∷ dqs) = ground (arith, del-others id dqs)

rename-others :
    (id : ℕ) (nqn : CStr) (dqs : List CtrlQueue)
    → others id (rename_dq id nqn dqs).queues ≡ others id dqs
unfolding rename_dq
rename-others id nqn [] = refl
rename-others id nqn (dq ∷ dqs) = ground (arith, rename-others id nqn dqs)

update-others :
    (s : Subsystem) (old new : CStr) (dqs : List CtrlQueue)
    → others s.id (update_dq s old new dqs).queues ≡ others s.id dqs
unfolding update_dq
update-others s old new [] = refl
update-others s old new (dq ∷ dqs) = ground (arith, update-others s old new dqs)

reset-others :
    (s : Subsystem) (nqn : CStr) (dqs : List CtrlQueue)
    → others s.id (reset_dq s nqn dqs).queues ≡ others s.id dqs
unfolding reset_dq
reset-others s nqn [] = refl
reset-others s nqn (dq ∷ dqs) = ground (arith, reset-others s nqn dqs)

-- Deleting, renaming, updating and resetting the queue of a subsystem keep the queues of all other
-- subsystems as they are, in their order, up to the refresh that follows.
pub others_kept :
    (s : Subsystem) (old new : CStr) (dqs : List CtrlQueue)
    → (others s.id (del_dq s.id dqs).queues ≡ others s.id dqs)
      × (others s.id (rename_dq s.id new dqs).queues ≡ others s.id dqs)
      × (others s.id (update_dq s old new dqs).queues ≡ others s.id dqs)
      × (others s.id (reset_dq s old dqs).queues ≡ others s.id dqs)
others_kept s old new dqs = (
  del-others s.id dqs,
  rename-others s.id new dqs,
  update-others s old new dqs,
  reset-others s old dqs,
)

-- Deleting the queue of a subsystem makes its queues in the list one less, however many it has; if
-- it has none, it has none afterwards.
pub own-del_dq :
    (id : ℕ) (dqs : List CtrlQueue)
    → length (own id (del_dq id dqs).queues) ≡ length (own id dqs) - 1
unfolding del_dq
own-del_dq id [] = refl
own-del_dq id (dq ∷ dqs) = ground (arith, own-del_dq id dqs)
