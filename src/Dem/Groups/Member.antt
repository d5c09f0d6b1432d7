-- ===== src/Dem/Groups/Member.antt =====
-- The mark `group_member` of a target against the links of the groups (src/dem/config.c).
use nvme_dem.Prelude.{
  ℕ, Bool, true, false, ◌&&◌, ◌||◌, ◌≡◌, refl, sym, subst, ==_iff, ◌∙◌, List, [], ◌∷◌, Option, none,
  some, map, arith, ◌==◌, All, any, any-append, CStr, inl, inr, Bool-cases,
}
use nvme_dem.Dem.State.{Target, Group, Dem}
use nvme_dem.Dem.Notify.Send.{Peers}
use nvme_dem.Dem.Groups.Ops.{
  links, is_linked, find_target, set_member, link_target, join_target, add_target_to_group,
  del_first, unlink_target, unlinked, leave_target, del_target_from_group,
}

-- A target is marked exactly when some group has a link to it.
abbrev pub IsConsistent : Dem → Type 0
IsConsistent d = All (λ t. t.group_member ≡ is_linked t.id d.group_list) d.target_list

abbrev is_group : ℕ → List Group → Bool
is_group gid gs = any (λ g. g.id == gid) gs

linked-join :
    (x gid tid : ℕ) (gs : List Group)
    → is_linked x (map (link_target gid tid) gs) ≡ (is_linked x gs || (tid == x && is_group gid gs))
linked-join x gid tid [] = ground arith
linked-join x gid tid (g ∷ gs) =
    ground (arith, linked-join x gid tid gs, any-append (λ l. l == x) g.target_list (tid ∷ []))

joined-Consistent :
    (gid tid : ℕ) (gs : List Group) (ts : List Target)
    → is_group gid gs ≡ true
    → All (λ t. t.group_member ≡ is_linked t.id gs) ts
    → All
        (λ t. t.group_member ≡ is_linked t.id (map (link_target gid tid) gs))
        (map (set_member true tid) ts)
joined-Consistent gid tid gs [] k h = tt
joined-Consistent gid tid gs (t ∷ ts) k h =
    (ground (arith, linked-join t.id gid tid gs, h.0), joined-Consistent gid tid gs ts k h.1)

join-Consistent :
    (p : Peers) (gid : ℕ) (d : Dem) (o : Option Target)
    → is_group gid d.group_list ≡ true
    → IsConsistent d
    → IsConsistent (join_target p gid d o).dem
join-Consistent p gid d none k h = h
join-Consistent p gid d (some t) k h = joined-Consistent gid t.id d.group_list d.target_list k h

first_other :
    (x tid : ℕ) (ls : List ℕ)
    → (tid == x) ≡ false
    → any (λ l. l == x) (del_first (λ l. l == tid) ls) ≡ any (λ l. l == x) ls
unfolding del_first
first_other x tid [] h = refl
first_other x tid (l ∷ ls) h = ground (arith, first_other x tid ls h)

linked-leave :
    (x gid tid : ℕ) (gs : List Group)
    → (tid == x) ≡ false
    → is_linked x (map (unlink_target gid tid) gs) ≡ is_linked x gs
linked-leave x gid tid [] h = refl
linked-leave x gid tid (g ∷ gs) h =
    ground (arith, linked-leave x gid tid gs h, first_other x tid g.target_list h)

-- A link in one group is a link.
linked_of_group :
    (gid tid : ℕ) (gs : List Group)
    → any (λ g. g.id == gid && links tid g) gs ≡ true
    → is_linked tid gs ≡ true
linked_of_group gid tid [] h = cc
linked_of_group gid tid (g ∷ gs) h = ground (arith, linked_of_group gid tid gs)

cleared :
    (tid : ℕ) (t : Target) (gs : List Group)
    → (tid == t.id) ≡ true
    → is_linked tid gs ≡ false
    → (set_member false tid t).group_member ≡ is_linked (set_member false tid t).id gs
cleared tid t gs e a =
    let q = subst (λ x. is_linked x gs ≡ false) ((==_iff tid t.id).0 e) a in ground arith

-- The mark that the last step gives to the target that leaves.
still_linked :
    (gid tid : ℕ) (gs : List Group) (ts : List Target)
    → is_linked tid gs ≡ true
    → is_linked tid (map (unlink_target gid tid) gs) ≡ true
    → All (λ t. t.group_member ≡ is_linked t.id gs) ts
    → All (λ t. t.group_member ≡ is_linked t.id (map (unlink_target gid tid) gs)) ts
still_linked gid tid gs [] b a h = tt
still_linked gid tid gs (t ∷ ts) b a h = (
  elim (Bool-cases (tid == t.id)) [
    | inl e ↦
        h.0
        ∙ subst (λ x. is_linked x gs ≡ is_linked x (map (unlink_target gid tid) gs))
            ((==_iff tid t.id).0 e) (b ∙ sym a)
    | inr e ↦ h.0 ∙ sym (linked-leave t.id gid tid gs e)
  ],
  still_linked gid tid gs ts b a h.1,
)

last_link :
    (gid tid : ℕ) (gs : List Group) (ts : List Target)
    → is_linked tid (map (unlink_target gid tid) gs) ≡ false
    → All (λ t. t.group_member ≡ is_linked t.id gs) ts
    → All
        (λ t. t.group_member ≡ is_linked t.id (map (unlink_target gid tid) gs))
        (map (set_member false tid) ts)
last_link gid tid gs [] a h = tt
last_link gid tid gs (t ∷ ts) a h = (
  elim (Bool-cases (tid == t.id)) [
    | inl e ↦ cleared tid t (map (unlink_target gid tid) gs) e a
    | inr e ↦ ground (arith, h.0, linked-leave t.id gid tid gs e)
  ],
  last_link gid tid gs ts a h.1,
)

leave-Consistent :
    (p : Peers) (gid : ℕ) (d : Dem) (o : Option Target)
    → IsConsistent d
    → IsConsistent (leave_target p gid d o).dem
leave-Consistent p gid d none h = h
leave-Consistent p gid d (some t) h =
    elim (Bool-cases (any (λ g. g.id == gid && links t.id g) d.group_list)) [
      | inr absent ↦ rw absent h
      | inl present ↦
          let gs' = (unlinked gid t.id d).group_list in
          let b = linked_of_group gid t.id d.group_list present in
          elim (Bool-cases (is_linked t.id gs')) [
            | inl more ↦
                rw (present, more) (still_linked gid t.id d.group_list d.target_list b more h)
            | inr last ↦ rw (present, last) (last_link gid t.id d.group_list d.target_list last h)
          ]
    ]

-- Adding a target to a group that exists, and removing a target from a group, keep the marks exact:
-- a target is marked as a group member if and only if some group has a link to it.
pub member_exact :
    (p : Peers) (gid : ℕ) (alias : CStr) (d : Dem)
    → any (λ g. g.id == gid) d.group_list ≡ true
    → IsConsistent d
    → IsConsistent (add_target_to_group p gid alias d).dem
      × IsConsistent (del_target_from_group p gid alias d).dem
unfolding add_target_to_group del_target_from_group
member_exact p gid alias d k h = (
  join-Consistent p gid d (find_target alias d) k h,
  leave-Consistent p gid d (find_target alias d) h,
)
