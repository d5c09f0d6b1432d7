-- ===== src/Dem/Config/Namespaces/Lookup.antt =====
-- The namespaces of all targets as a map, and what `set_ns` and `del_ns` of src/dem/config.c do to it.
use nvme_dem.Prelude.{
  ◌≡◌, inl, inr, refl, sym, subst, ◌∙◌, ap, Bool, true, false, ◌&&◌, List, [], ◌∷◌, Option, none,
  some, arith, find, if◌then◌else◌, CStr, streq, streq_sound, ℤ, eqb_ℤ, eqb_ℤ_sound, Bool-cases,
}
use nvme_dem.Dem.State.{
  Ns, Subsystem, Target, MgmtMode, local_mgmt, in_band_mgmt, out_of_band_mgmt, Dem,
}
use nvme_dem.Dem.Groups.Ops.{find_target, del_first}
use nvme_dem.Dem.Config.Find.{
  DistinctKeys, find-del_first_key, find-passes, has_alias, has_nqn, has_nsid, find_subsys, find_ns,
  find-put_first_key,
}
use nvme_dem.Dem.Config.Result.{Acted, stored}
use nvme_dem.Dem.Config.Namespaces.{store_ns, checked_ns, store_subsys}

abbrev pub ns_of_subsys : ℤ → Option Subsystem → Option Ns
ns_of_subsys z none = none
ns_of_subsys z (some s) = find_ns z s.ns_list

abbrev pub ns_of_target : CStr → ℤ → Option Target → Option Ns
ns_of_target nqn z none = none
ns_of_target nqn z (some t) = ns_of_subsys z (find_subsys nqn t.subsys_list)

-- The namespace under a target's alias, a subsystem's NQN and an id.
unfoldable pub lookup_ns : CStr → CStr → ℤ → Dem → Option Ns
lookup_ns alias nqn z d = ns_of_target nqn z (find_target alias d)

pub lookup-store_ns :
    (n : Ns) (ns : List Ns) (z : ℤ)
    → find_ns z (store_ns n ns) ≡ (if eqb_ℤ n.nsid z then some n else find_ns z ns)
unfolding find_ns store_ns
lookup-store_ns n [] z = refl
lookup-store_ns n (x ∷ ns) z = elim (Bool-cases (has_nsid n.nsid x)) [
  | inl e ↦ rw e (ground (arith, eqb_ℤ_sound x.nsid n.nsid e))
  | inr e ↦ rw e (ground (arith, lookup-store_ns n ns z))
]

-- No id stands twice.
abbrev pub IsDistinct : List Ns → Type 0
IsDistinct = DistinctKeys (λ n. n.nsid) eqb_ℤ

pub lookup-del_first :
    (nsid z : ℤ) (ns : List Ns)
    → IsDistinct ns
    → find_ns z (del_first (has_nsid nsid) ns) ≡ (if eqb_ℤ nsid z then none else find_ns z ns)
unfolding find_ns
lookup-del_first nsid z ns h = find-del_first_key (λ n. n.nsid) eqb_ℤ eqb_ℤ_sound nsid z ns h

-- What replacing a target does to the map, and replacing a subsystem of a target.
lookup-stored :
    {W : Type 0} (alias alias' nqn' : CStr) (z : ℤ) (d : Dem) (t : Target) (a : Acted W)
    → find_target alias d ≡ some t
    → streq a.target.alias alias ≡ true
    → lookup_ns alias' nqn' z (stored alias d a).dem ≡ (
        if streq alias alias'
        then ns_of_target nqn' z (some a.target)
        else lookup_ns alias' nqn' z d)
unfolding lookup_ns stored find_target
lookup-stored alias alias' nqn' z d t a f e =
    ap (ns_of_target nqn' z)
      (find-put_first_key (λ x. x.alias) alias alias' t a.target d.target_list f e)
    ∙ if_out (streq alias alias')
  where
    if_out :
        (b : Bool)
        → ns_of_target nqn' z (if b then some a.target else find (has_alias alias') d.target_list)
          ≡ (if b
              then ns_of_target nqn' z (some a.target)
              else ns_of_target nqn' z (find (has_alias alias') d.target_list))
    if_out true = refl
    if_out false = refl

subsys-stored :
    (nqn nqn' : CStr) (z : ℤ) (t : Target) (s s' : Subsystem)
    → find_subsys nqn t.subsys_list ≡ some s
    → streq s'.nqn nqn ≡ true
    → ns_of_target nqn' z (some (store_subsys nqn t s'))
      ≡ (if streq nqn nqn' then find_ns z s'.ns_list else ns_of_target nqn' z (some t))
unfolding find_subsys
subsys-stored nqn nqn' z t s s' f e =
    ap (ns_of_subsys z) (find-put_first_key (λ x. x.nqn) nqn nqn' s s' t.subsys_list f e)
    ∙ if_out (streq nqn nqn')
  where
    if_out :
        (b : Bool)
        → ns_of_subsys z (if b then some s' else find (has_nqn nqn') t.subsys_list)
          ≡ (if b then find_ns z s'.ns_list else ns_of_subsys z (find (has_nqn nqn') t.subsys_list))
    if_out true = refl
    if_out false = refl

pub checked-nsid : (mode : MgmtMode) (n : Ns) → (checked_ns mode n).nsid ≡ n.nsid
checked-nsid local_mgmt n = refl
checked-nsid in_band_mgmt n = ground arith
checked-nsid out_of_band_mgmt n = ground arith

-- What an operation on one subsystem's namespaces does to the map: `f` is the subsystem's part.
module _ {W : Type 0} (alias nqn : CStr) (d : Dem) (t : Target) (s s' : Subsystem) (a : Acted W)
    (found : find_target alias d ≡ some t) (listed : find_subsys nqn t.subsys_list ≡ some s)
    (same : streq s'.nqn nqn ≡ true) (acted : a.target ≡ store_subsys nqn t s') where
  pub lookup-subsys :
      (alias' nqn' : CStr) (z : ℤ)
      → lookup_ns alias' nqn' z (stored alias d a).dem ≡ (
          if streq alias alias' && streq nqn nqn'
          then find_ns z s'.ns_list
          else lookup_ns alias' nqn' z d)
  unfolding lookup_ns find_target
  lookup-subsys alias' nqn' z =
      let n : streq a.target.alias alias ≡ true =
        ap (λ x. streq x.alias alias) acted ∙ find-passes (has_alias alias) t d.target_list found in
      lookup-stored alias alias' nqn' z d t a found n ∙ elim (Bool-cases (streq alias alias')) [
        | inl e ↦
            let k =
              ap (ns_of_target nqn' z)
                (subst (λ l. find_target l d ≡ some t) (streq_sound alias alias' e) found) in
            rw e (
              ap (λ x. ns_of_target nqn' z (some x)) acted
              ∙ subsys-stored nqn nqn' z t s s' listed same
              ∙ ap (λ o. if streq nqn nqn' then find_ns z s'.ns_list else o) (sym k))
        | inr e ↦ rw e refl
      ]
