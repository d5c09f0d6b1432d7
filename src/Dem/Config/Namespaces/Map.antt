-- ===== src/Dem/Config/Namespaces/Map.antt =====
-- `set_ns` and `del_ns` of src/dem/config.c as operations on the map of namespaces.
use nvme_dem.Prelude.{
  ◌≡◌, refl, sym, ◌∙◌, ap, Bool, true, false, ◌&&◌, ◌||◌, Option, none, some, arith, if◌then◌else◌,
  CStr, streq, streq_sound, subst, ℤ, eqb_ℤ,
}
use nvme_dem.Dem.State.{Ns, Subsystem, Target, Dem}
use nvme_dem.Dem.Groups.Ops.{find_target, del_first}
use nvme_dem.Dem.Config.Find.{has_nqn, has_nsid, find_subsys, find_ns, find-passes}
use nvme_dem.Dem.Config.Remote.{Remote}
use nvme_dem.Dem.Config.Namespaces.{
  store_ns, checked_ns, is_local, store_subsys, set_ns_in, set_ns, del_ns_in, del_ns,
}
use nvme_dem.Dem.Config.Namespaces.Lookup.{
  lookup_ns, ns_of_target, ns_of_subsys, lookup-store_ns, IsDistinct, lookup-del_first,
  checked-nsid, lookup-subsys,
}

and_if {ℓ} :
    {A : Type ℓ} (b c : Bool) (x y z : A)
    → (b ≡ true → c ≡ false → y ≡ z)
    → (if b then (if c then x else y) else z) ≡ (if b && c then x else z)
and_if true true x y z h = refl
and_if true false x y z h = h refl refl
and_if false c x y z h = refl

module _ {W : Type 0} (r : Remote W) (alias nqn : CStr) (d : Dem) (w : W) (t : Target)
    (s : Subsystem) (found : find_target alias d ≡ some t)
    (listed : find_subsys nqn t.subsys_list ≡ some s) where
  -- The map at the names of the operation.
  at_place :
      (alias' nqn' : CStr) (z : ℤ)
      → (streq alias alias' && streq nqn nqn') ≡ true
      → find_ns z s.ns_list ≡ lookup_ns alias' nqn' z d
  unfolding lookup_ns
  at_place alias' nqn' z h =
      let a =
        subst (λ l. find_target l d ≡ some t) (streq_sound alias alias' (ground arith)) found in
      let b =
        subst (λ l. find_subsys l t.subsys_list ≡ some s) (streq_sound nqn nqn' (ground arith))
          listed in
      sym (ap (ns_of_target nqn' z) a ∙ ap (ns_of_subsys z) b)

  acted_set :
      (devices : ℤ → ℤ → Bool) (n : Ns)
      → (is_local t.mgmt_mode
          || devices (checked_ns t.mgmt_mode n).devid (checked_ns t.mgmt_mode n).devns)
        ≡ true
      → (set_ns_in r devices nqn n t w).target
        ≡ store_subsys nqn t (record s { ns_list = store_ns (checked_ns t.mgmt_mode n) s.ns_list })
  acted_set devices n known = rw (known, listed) refl

  acted_del :
      (nsid : ℤ) (n : Ns)
      → find_ns nsid s.ns_list ≡ some n
      → (del_ns_in r nqn nsid t (find_subsys nqn t.subsys_list) w).target
        ≡ store_subsys nqn t (record s { ns_list = del_first (has_nsid nsid) s.ns_list })
  acted_del nsid n h = rw (listed, h) refl

  named : streq s.nqn nqn ≡ true
  unfolding find_subsys
  named = find-passes (has_nqn nqn) s t.subsys_list listed

  -- From the subsystem's map to that of all.
  at_end :
      (alias' nqn' : CStr) (z nsid : ℤ) (new here : Option Ns)
      → here ≡ (if eqb_ℤ nsid z then new else find_ns z s.ns_list)
      → (if streq alias alias' && streq nqn nqn' then here else lookup_ns alias' nqn' z d) ≡ (
          if (streq alias alias' && streq nqn nqn') && eqb_ℤ nsid z
          then new
          else lookup_ns alias' nqn' z d)
  at_end alias' nqn' z nsid new here h =
      ap (λ o. if streq alias alias' && streq nqn nqn' then o else lookup_ns alias' nqn' z d) h
      ∙ and_if (streq alias alias' && streq nqn nqn') (eqb_ℤ nsid z) new (find_ns z s.ns_list)
          (lookup_ns alias' nqn' z d) (λ b c. at_place alias' nqn' z b)

  -- Setting a namespace of a known device, or of a local target, stores it under the target's alias,
  -- the subsystem's NQN and its id, in place of what stood there, with the namespace 0 of the device if
  -- that is the null block device of a target that is not local. Every other namespace of every target
  -- stays, and all this also where the endpoint does not take the order.
  pub set_ns_lem :
      (devices : Target → ℤ → ℤ → Bool) (n : Ns) (alias' nqn' : CStr) (z : ℤ)
      → (is_local t.mgmt_mode
          || devices t (checked_ns t.mgmt_mode n).devid (checked_ns t.mgmt_mode n).devns)
        ≡ true
      → lookup_ns alias' nqn' z (set_ns r devices alias nqn (some n) d w).dem ≡ (
          if (streq alias alias' && streq nqn nqn') && eqb_ℤ n.nsid z
          then some (checked_ns t.mgmt_mode n)
          else lookup_ns alias' nqn' z d)
  unfolding set_ns
  set_ns_lem devices n alias' nqn' z known =
      let n' = checked_ns t.mgmt_mode n in
      let a = set_ns_in r (devices t) nqn n t w in
      rw found (
        lookup-subsys alias nqn d t s (record s { ns_list = store_ns n' s.ns_list }) a found listed
          named (acted_set (devices t) n known) alias' nqn' z
        ∙ at_end alias' nqn' z n.nsid (some n') (find_ns z (store_ns n' s.ns_list)) (
            lookup-store_ns n' s.ns_list z
            ∙ ap (λ k. if eqb_ℤ k z then some n' else find_ns z s.ns_list)
                (checked-nsid t.mgmt_mode n)))

  -- Deleting a namespace that is found removes the one under the target's alias, the subsystem's NQN and its id, if
  -- no id stands twice in that subsystem. Every other namespace of every target stays, and all this
  -- also where the endpoint does not take the order.
  pub del_ns_lem :
      (nsid : ℤ) (n : Ns) (alias' nqn' : CStr) (z : ℤ)
      → find_ns nsid s.ns_list ≡ some n
      → IsDistinct s.ns_list
      → lookup_ns alias' nqn' z (del_ns r alias nqn nsid true d w).dem ≡ (
          if (streq alias alias' && streq nqn nqn') && eqb_ℤ nsid z
          then none
          else lookup_ns alias' nqn' z d)
  unfolding del_ns
  del_ns_lem nsid n alias' nqn' z f h =
      let a = del_ns_in r nqn nsid t (find_subsys nqn t.subsys_list) w in
      let l = del_first (has_nsid nsid) s.ns_list in
      rw found (
        lookup-subsys alias nqn d t s (record s { ns_list = l }) a found listed named
          (acted_del nsid n f) alias' nqn' z
        ∙ at_end alias' nqn' z nsid none (find_ns z l) (lookup-del_first nsid z s.ns_list h))
