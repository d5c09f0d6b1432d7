-- ===== src/Dem/Config/Ports/Gone.antt =====
-- What is left of a port after `del_portid` of src/dem/config.c.
use nvme_dem.Prelude.{
  eqb_ℤ_sound, ◌≡◌, refl, Bool, true, false, not, List, [], ◌∷◌, none, some, arith, any, filter,
  map, All, ◌==◌, if◌then◌else◌, CStr, ℤ, eqb_ℤ,
}
use nvme_dem.Dem.State.{Subsystem, PortId, Target, Dem}
use nvme_dem.Dem.Notify.Send.{Peers}
use nvme_dem.Dem.Groups.Ops.{find_target}
use nvme_dem.Dem.Config.Find.{
  has_alias, find_portid, find-put_first, find-passes, DistinctKeys, find-del_first_key,
}
use nvme_dem.Dem.Config.Remote.{Remote, del_portid_at}
use nvme_dem.Dem.Config.Result.{stored, announced}
use nvme_dem.Dem.Config.Ports.{drop_logpages, drop_port, del_portid}

abbrev pub HasNoPage : PortId → Subsystem → Type 0
HasNoPage p s = any (λ l. l.portid == p.id) s.logpage_list ≡ false

-- Nothing that a walk through the target's queues and subsystems reaches refers to the port; the
-- queues of the other ports are kept in their order, and so are the other ports.
pub record WithoutPort (p : PortId) (t t' : Target) : Type 0 where
  pub queues : any (λ dq. dq.portid == p.id) t'.discovery_queue_list ≡ false
  pub pages : All (HasNoPage p) t'.subsys_list
  pub kept : t'.discovery_queue_list ≡ filter (λ dq. not (dq.portid == p.id)) t.discovery_queue_list
  pub ports :
      (z : ℤ)
      → find_portid z t'.portid_list
        ≡ (if eqb_ℤ p.portid z then none else find_portid z t.portid_list)

none_left {ℓ} :
    {A : Type ℓ} (p : A → Bool) (xs : List A) → any p (filter (λ x. not (p x)) xs) ≡ false
none_left p [] = refl
none_left p (x ∷ xs) = ground (arith, none_left p xs)

pages_left : (p : PortId) (ss : List Subsystem) → All (HasNoPage p) (map (drop_logpages p.id) ss)
pages_left p [] = tt
pages_left p (s ∷ ss) = (none_left (λ l. l.portid == p.id) s.logpage_list, pages_left p ss)

drop_port-WithoutPort :
    (p : PortId) (t : Target)
    → DistinctKeys (λ q. q.portid) eqb_ℤ t.portid_list
    → WithoutPort p t (drop_port p t)
unfolding find_portid
drop_port-WithoutPort p t h = record {
  queues = none_left (λ dq. dq.portid == p.id) t.discovery_queue_list;
  pages = pages_left p t.subsys_list;
  kept = refl;
  ports = λ z. find-del_first_key (λ q. q.portid) eqb_ℤ eqb_ℤ_sound p.portid z t.portid_list h;
}

module _ {W : Type 0} (r : Remote W) (peers : Peers) (alias : CStr) (id : ℤ) (d : Dem) (w : W)
    (t : Target) (p : PortId) (found : find_target alias d ≡ some t)
    (listed : find_portid id t.portid_list ≡ some p)
    (distinct : DistinctKeys (λ q. q.portid) eqb_ℤ t.portid_list) where
  -- Deleting a port that is found leaves the target without it, whether or not the endpoint takes the
  -- order, and sends the order to delete it once and no other, if no id stands twice among the
  -- target's ports.
  pub del_portid_lem :
      (t' : Target) × (find_target alias (del_portid r peers alias id true d w).dem ≡ some t')
      × WithoutPort p t t'
      × ((del_portid r peers alias id true d w).world ≡ (del_portid_at r t.mgmt_mode p w).1)
  unfolding del_portid stored announced find_target
  del_portid_lem = (
    drop_port p t,
    rw (found, listed)
        (find-put_first (has_alias alias) (drop_port p t) t d.target_list found
          (find-passes (has_alias alias) t d.target_list found)),
    drop_port-WithoutPort p t distinct,
    rw (found, listed) refl,
  )
