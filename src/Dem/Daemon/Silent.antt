-- ===== src/Dem/Daemon/Silent.antt =====
-- What becomes of the discovery queues that src/dem/daemon.c makes.
use nvme_dem.Prelude.{
  ℕ, ◌≡◌, refl, ap, sym, ◌∙◌, true, false, not, ◌&&◌, ◌||◌, List, [], ◌∷◌, ◌++◌, Option, none, some,
  arith, ◌==◌, CStr, any, All, All-append, inl, inr, Bool-cases, subst, streq, append_assoc,
}
use nvme_dem.Dem.State.{Host, Subsystem, PortId, CtrlQueue, Target}
use nvme_dem.Dem.LogPages.Refresh.{Fabric, is_restricted, is_empty, connect_ctrl, refresh_log_pages}
use nvme_dem.Dem.LogPages.Sound.{IsIdle, refresh_log_pages-IsIdle}
use nvme_dem.Dem.Daemon.Queues.{
  register_ops, dq_exists, new_queue, needless, started, create_discovery_queue, create_queues,
  init_discovery_queue, queues-create, has_subsys,
}
use nvme_dem.Dem.Daemon.Alive.{Peer, ping_queues, keep_alive_work}

started-connected :
    (f : Fabric) (dq : CtrlQueue) → dq.connected ≡ false → (started f dq).connected ≡ false
unfolding connect_ctrl
started-connected f dq h = ground arith

create-IsIdle :
    (f : Fabric) (shared : CStr) (t : Target) (o : Option Subsystem) (p : PortId)
    → IsIdle t.discovery_queue_list
    → IsIdle (create_discovery_queue f shared t o p).discovery_queue_list
create-IsIdle f shared t o p h =
    let dq = started f (new_queue shared o p) in
    let more =
      All-append (λ q. q.connected ≡ false) t.discovery_queue_list (dq ∷ []) h
        (started-connected f (new_queue shared o p) refl, tt) in
    subst IsIdle (sym (queues-create f shared t o p))
      (elim (Bool-cases (needless t o p || not (register_ops p.type))) [
        | inl e ↦ rw e h
        | inr e ↦ rw e more
      ])

create_queues-IsIdle :
    (f : Fabric) (shared : CStr) (t : Target) (p : PortId) (ss : List Subsystem)
    → IsIdle t.discovery_queue_list
    → IsIdle (create_queues f shared t p ss).discovery_queue_list
unfolding create_queues
create_queues-IsIdle f shared t p [] h = h
create_queues-IsIdle f shared t p (s ∷ ss) h =
    create_queues-IsIdle f shared (create_discovery_queue f shared t (some s) p) p ss
      (create-IsIdle f shared t (some s) p h)

init-IsIdle :
    (f : Fabric) (shared : CStr) (t : Target) (p : PortId)
    → IsIdle t.discovery_queue_list
    → IsIdle (init_discovery_queue f shared t p).discovery_queue_list
unfolding init_discovery_queue
init-IsIdle f shared t p h =
    create_queues-IsIdle f shared (create_discovery_queue f shared t none p) p t.subsys_list
      (create-IsIdle f shared t none p h)

ping_none : (k : Peer) (dqs : List CtrlQueue) → IsIdle dqs → (ping_queues k dqs).sent ≡ []
unfolding ping_queues
ping_none k [] h = refl
ping_none k (dq ∷ dqs) h = ground (arith, ping_none k dqs h.1)

work_none :
    (k : Peer) (t : Target) → IsIdle t.discovery_queue_list → (keep_alive_work k t).sent ≡ []
unfolding keep_alive_work
work_none k t h = ground (arith, ping_none k t.discovery_queue_list h)

-- The discovery queues that are made for a port of a target without connected queues, and that a
-- refresh has used, are never sent a keep-alive, whatever connections were made and however the
-- countdown stands.
pub keep_alive_never_sent :
    (f g : Fabric) (shared : CStr) (t : Target) (p : PortId) (k : Peer)
    → IsIdle t.discovery_queue_list
    → (keep_alive_work k (refresh_log_pages g (init_discovery_queue f shared t p))).sent ≡ []
keep_alive_never_sent f g shared t p k h =
    let t' = init_discovery_queue f shared t p in
    work_none k (refresh_log_pages g t')
      (refresh_log_pages-IsIdle g t' (init-IsIdle f shared t p h))

-- The queues whose port is the given one.
abbrev pub AtPort : ℕ → List CtrlQueue → Type 0
AtPort port = All (λ dq. dq.portid ≡ port)

none_elsewhere :
    (port : ℕ) (hosts : List Host) (dqs : List CtrlQueue)
    → AtPort port dqs
    → any
        (λ dq. has_subsys dq && not (dq.portid == port) && any (λ h. streq h.nqn dq.hostnqn) hosts)
        dqs
      ≡ false
none_elsewhere port hosts [] h = refl
none_elsewhere port hosts (dq ∷ dqs) h = ground (arith, h.0, none_elsewhere port hosts dqs h.1)

needless_not :
    (t : Target) (s : Subsystem) (p : PortId)
    → is_restricted s ≡ true
    → is_empty s.host_list ≡ false
    → AtPort p.id t.discovery_queue_list
    → needless t (some s) p ≡ false
unfolding dq_exists
needless_not t s p r n a = rw (r, n, none_elsewhere p.id s.host_list t.discovery_queue_list a) refl

portid-started :
    (f : Fabric) (shared : CStr) (o : Option Subsystem) (p : PortId)
    → (started f (new_queue shared o p)).portid ≡ p.id
unfolding connect_ctrl
portid-started f shared o p = ground arith

-- A call for a restricted subsystem that has a host adds a queue, if all queues have the port of
-- the call and its type has operations.
queues_added :
    (f : Fabric) (shared : CStr) (t : Target) (s : Subsystem) (p : PortId)
    → is_restricted s ≡ true
    → is_empty s.host_list ≡ false
    → register_ops p.type ≡ true
    → AtPort p.id t.discovery_queue_list
    → (create_discovery_queue f shared t (some s) p).discovery_queue_list
      ≡ t.discovery_queue_list ++ started f (new_queue shared (some s) p) ∷ []
queues_added f shared t s p r n o a =
    queues-create f shared t (some s) p ∙ rw (needless_not t s p r n a, o) refl

-- For a restricted subsystem that has a host, on a target whose queues all have one port, two calls
-- of `create_discovery_queue` for that port add two equal queues: the queue that the first call made
-- does not stop the second.
pub create_discovery_queue_twice :
    (f : Fabric) (shared : CStr) (t : Target) (s : Subsystem) (p : PortId)
    → is_restricted s ≡ true
    → is_empty s.host_list ≡ false
    → register_ops p.type ≡ true
    → AtPort p.id t.discovery_queue_list
    → (create_discovery_queue f shared
        (create_discovery_queue f shared t (some s) p)
        (some s)
        p).discovery_queue_list
      ≡ t.discovery_queue_list
        ++ started f (new_queue shared (some s) p) ∷ started f (new_queue shared (some s) p) ∷ []
create_discovery_queue_twice f shared t s p r n o a =
    let dq = started f (new_queue shared (some s) p) in
    let t' = create_discovery_queue f shared t (some s) p in
    let once = queues_added f shared t s p r n o a in
    let a' = subst (AtPort p.id) (sym once) (
      All-append (λ q. q.portid ≡ p.id) t.discovery_queue_list (dq ∷ []) a
        (portid-started f shared (some s) p, tt)) in
    queues_added f shared t' s p r n o a'
    ∙ ap (λ l. l ++ dq ∷ []) once
    ∙ append_assoc t.discovery_queue_list (dq ∷ []) (dq ∷ [])
