-- ===== src/Dem/Config/Namespaces/Distinct.antt =====
-- The ids of namespaces under `set_ns` and `del_ns` of src/dem/config.c.
use nvme_dem.Prelude.{
  ◌≡◌, inl, inr, refl, subst, Bool, true, false, ◌||◌, List, [], ◌∷◌, Option, none, some, arith,
  find, any, All, CStr, ℤ, eqb_ℤ, Bool-cases, Option-cases,
}
use nvme_dem.Dem.State.{Ns, Subsystem, Target, Dem}
use nvme_dem.Dem.Groups.Ops.{find_target, del_first}
use nvme_dem.Dem.Config.Find.{has_alias, has_nqn, has_nsid, find_subsys, find_ns, put_first}
use nvme_dem.Dem.Config.Result.{stored}
use nvme_dem.Dem.Config.Remote.{Remote}
use nvme_dem.Dem.Config.Namespaces.{
  store_ns, checked_ns, is_local, store_subsys, set_ns_in, set_ns, del_ns_in, del_ns,
}
use nvme_dem.Dem.Config.Namespaces.Lookup.{IsDistinct}

-- No target has a subsystem in which an id stands twice.
abbrev pub HasDistinctIds : Target → Type 0
HasDistinctIds t = All (λ s. IsDistinct s.ns_list) t.subsys_list

abbrev pub AllDistinct : Dem → Type 0
AllDistinct d = All HasDistinctIds d.target_list

module _ {A : Type 0} (P : A → Type 0) where
  All-find : (p : A → Bool) (x : A) (xs : List A) → All P xs → find p xs ≡ some x → P x
  All-find p x [] h f = cc
  All-find p x (y ∷ ys) h f = elim (Bool-cases (p y)) [
    | inl e ↦ subst P (ground (arith, e, f)) h.0
    | inr e ↦ All-find p x ys h.1 (ground (arith, e, f))
  ]

  All-put_first : (p : A → Bool) (y : A) (xs : List A) → All P xs → P y → All P (put_first p y xs)
  unfolding put_first
  All-put_first p y [] h q = tt
  All-put_first p y (x ∷ xs) h q = elim (Bool-cases (p x)) [
    | inl e ↦ rw e (q, h.1)
    | inr e ↦ rw e (h.0, All-put_first p y xs h.1 q)
  ]

absent-store_ns :
    (n : Ns) (k : ℤ) (ns : List Ns)
    → any (λ a. eqb_ℤ a.nsid k) ns ≡ false
    → eqb_ℤ n.nsid k ≡ false
    → any (λ a. eqb_ℤ a.nsid k) (store_ns n ns) ≡ false
unfolding store_ns
absent-store_ns n k [] h e = ground (arith, e)
absent-store_ns n k (x ∷ xs) h e = ground (arith, absent-store_ns n k xs)

other_id : (a b : ℤ) → eqb_ℤ a b ≡ false → eqb_ℤ b a ≡ false
other_id a b h = ground (arith, h)

store_ns-IsDistinct : (n : Ns) (ns : List Ns) → IsDistinct ns → IsDistinct (store_ns n ns)
unfolding store_ns
store_ns-IsDistinct n [] h = (refl, tt)
store_ns-IsDistinct n (x ∷ xs) h = elim (Bool-cases (has_nsid n.nsid x)) [
  | inl e ↦ rw e h
  | inr e ↦
      rw e
        (absent-store_ns n x.nsid xs h.0 (other_id x.nsid n.nsid e), store_ns-IsDistinct n xs h.1)
]

absent-del_first :
    (p : Ns → Bool) (k : ℤ) (ns : List Ns)
    → any (λ a. eqb_ℤ a.nsid k) ns ≡ false
    → any (λ a. eqb_ℤ a.nsid k) (del_first p ns) ≡ false
unfolding del_first
absent-del_first p k [] h = refl
absent-del_first p k (x ∷ xs) h = ground (arith, absent-del_first p k xs)

del_first-IsDistinct : (p : Ns → Bool) (ns : List Ns) → IsDistinct ns → IsDistinct (del_first p ns)
unfolding del_first
del_first-IsDistinct p [] h = tt
del_first-IsDistinct p (x ∷ xs) h = elim (Bool-cases (p x)) [
  | inl e ↦ rw e h.1
  | inr e ↦ rw e (absent-del_first p x.nsid xs h.0, del_first-IsDistinct p xs h.1)
]

module _ {W : Type 0} (r : Remote W) (devices : Target → ℤ → ℤ → Bool) where
  store_subsys-HasDistinctIds :
      (nqn : CStr) (t : Target) (s : Subsystem)
      → HasDistinctIds t
      → IsDistinct s.ns_list
      → HasDistinctIds (store_subsys nqn t s)
  store_subsys-HasDistinctIds nqn t s h q =
      All-put_first (λ x. IsDistinct x.ns_list) (has_nqn nqn) s t.subsys_list h q

  found-IsDistinct :
      (nqn : CStr) (t : Target) (s : Subsystem)
      → HasDistinctIds t
      → find_subsys nqn t.subsys_list ≡ some s
      → IsDistinct s.ns_list
  unfolding find_subsys
  found-IsDistinct nqn t s h f =
      All-find (λ x. IsDistinct x.ns_list) (has_nqn nqn) s t.subsys_list h f

  set_ns_in-HasDistinctIds :
      (nqn : CStr) (n : Ns) (t : Target) (w : W)
      → HasDistinctIds t
      → HasDistinctIds (set_ns_in r (devices t) nqn n t w).target
  set_ns_in-HasDistinctIds nqn n t w h =
      let n' = checked_ns t.mgmt_mode n in
      elim (Bool-cases (is_local t.mgmt_mode || devices t n'.devid n'.devns)) [
        | inl e ↦ elim (Option-cases (find_subsys nqn t.subsys_list)) [
          | inl z ↦ rw (e, z) h
          | inr sz ↦
              rw (e, sz.1)
                (store_subsys-HasDistinctIds nqn t
                  (record sz.0 { ns_list = store_ns n' sz.0.ns_list }) h
                  (store_ns-IsDistinct n' sz.0.ns_list (found-IsDistinct nqn t sz.0 h sz.1)))
        ]
        | inr e ↦ rw e h
      ]

  del_ns_in-HasDistinctIds :
      (nqn : CStr) (nsid : ℤ) (t : Target) (w : W)
      → HasDistinctIds t
      → HasDistinctIds (del_ns_in r nqn nsid t (find_subsys nqn t.subsys_list) w).target
  del_ns_in-HasDistinctIds nqn nsid t w h = elim (Option-cases (find_subsys nqn t.subsys_list)) [
    | inl z ↦ rw z h
    | inr sz ↦ elim (Option-cases (find_ns nsid sz.0.ns_list)) [
      | inl y ↦ rw (sz.1, y) h
      | inr ny ↦
          rw (sz.1, ny.1)
            (store_subsys-HasDistinctIds nqn t
              (record sz.0 { ns_list = del_first (has_nsid nsid) sz.0.ns_list }) h
              (del_first-IsDistinct (has_nsid nsid) sz.0.ns_list
                (found-IsDistinct nqn t sz.0 h sz.1)))
    ]
  ]

  set_ns-AllDistinct :
      (alias nqn : CStr) (new : Option Ns) (d : Dem) (w : W)
      → AllDistinct d
      → AllDistinct (set_ns r devices alias nqn new d w).dem
  unfolding set_ns find_target stored
  set_ns-AllDistinct alias nqn none d w h = h
  set_ns-AllDistinct alias nqn (some n) d w h = elim (Option-cases (find_target alias d)) [
    | inl z ↦ rw z h
    | inr tz ↦ rw tz.1 (
        All-put_first HasDistinctIds (has_alias alias)
          (set_ns_in r (devices tz.0) nqn n tz.0 w).target d.target_list h
          (set_ns_in-HasDistinctIds nqn n tz.0 w
            (All-find HasDistinctIds (has_alias alias) tz.0 d.target_list h tz.1)))
  ]

  del_ns-AllDistinct :
      (alias nqn : CStr) (nsid : ℤ) (json : Bool) (d : Dem) (w : W)
      → AllDistinct d
      → AllDistinct (del_ns r alias nqn nsid json d w).dem
  unfolding del_ns find_target stored
  del_ns-AllDistinct alias nqn nsid false d w h = h
  del_ns-AllDistinct alias nqn nsid true d w h = elim (Option-cases (find_target alias d)) [
    | inl z ↦ rw z h
    | inr tz ↦ rw tz.1 (
        All-put_first HasDistinctIds (has_alias alias)
          (del_ns_in r nqn nsid tz.0 (find_subsys nqn tz.0.subsys_list) w).target d.target_list h
          (del_ns_in-HasDistinctIds nqn nsid tz.0 w
            (All-find HasDistinctIds (has_alias alias) tz.0 d.target_list h tz.1)))
  ]

  -- Setting and deleting a namespace, whatever they are called with and however they end, keep that no
  -- id stands twice in a subsystem.
  pub namespaces_distinct :
      (alias nqn : CStr) (new : Option Ns) (nsid : ℤ) (json : Bool) (d : Dem) (w : W)
      → AllDistinct d
      → AllDistinct (set_ns r devices alias nqn new d w).dem
        × AllDistinct (del_ns r alias nqn nsid json d w).dem
  namespaces_distinct alias nqn new nsid json d w h =
      (set_ns-AllDistinct alias nqn new d w h, del_ns-AllDistinct alias nqn nsid json d w h)
