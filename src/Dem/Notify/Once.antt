-- ===== src/Dem/Notify/Once.antt =====
-- Each host with a pending request is listed once (src/dem/config.c, `create_notification_list`).
use nvme_dem.Prelude.{
  ◌≤◌, true, false, ◌≡◌, subst, List, [], ◌∷◌, ◌++◌, arith, All, any-append, if◌then◌else◌, CStr,
  streq, streq_refl, streq_sound, strncpy_fits, length, inl, inr, Bool-cases,
}
use nvme_dem.Dem.State.{EventRequest}
use nvme_dem.Dem.Notify.Lists.{
  Notification, max_nqn_size, in_notification_list, create_notification_entry, create_from,
  create_notification_list,
}

-- The name fits the array `nqn` of the request.
abbrev pub Fits : EventRequest → Type 0
Fits r = length r.nqn ≤ max_nqn_size

-- No name is that of a later notification.
abbrev pub Once : List Notification → Type 0
Once [] = Unit
Once (n ∷ ns) = (in_notification_list ns n.nqn ≡ false) × Once ns

nqn-create : (r : EventRequest) → Fits r → (create_notification_entry r).nqn ≡ r.nqn
unfolding create_notification_entry
nqn-create r h = strncpy_fits r.nqn max_nqn_size h

streq_sym : (a b : CStr) → streq a b ≡ false → streq b a ≡ false
streq_sym a b h = elim (Bool-cases (streq b a)) [
  | inr e ↦ e
  | inl e ↦ cc (h, streq_refl b, streq_sound b a e)
]

Once-snoc :
    (l : List Notification) (n : Notification)
    → Once l
    → in_notification_list l n.nqn ≡ false
    → Once (l ++ n ∷ [])
unfolding in_notification_list
Once-snoc [] n o h = ground arith
Once-snoc (m ∷ l) n o h = ground (
  arith,
  any-append (λ k. streq m.nqn k.nqn) l (n ∷ []),
  streq_sym n.nqn m.nqn,
  Once-snoc l n o.1,
)

in-append :
    (l k : List Notification) (nqn : CStr)
    → in_notification_list l nqn ≡ true
    → in_notification_list (l ++ k) nqn ≡ true
unfolding in_notification_list
in-append l k nqn h = ground (arith, any-append (λ n. streq nqn n.nqn) l k)

in-snoc :
    (l : List Notification) (n : Notification) → in_notification_list (l ++ n ∷ []) n.nqn ≡ true
unfolding in_notification_list
in-snoc l n = ground (arith, any-append (λ k. streq n.nqn k.nqn) l (n ∷ []), streq_refl n.nqn)

abbrev next_list : List Notification → EventRequest → List Notification
next_list l r = if in_notification_list l r.nqn then l else l ++ create_notification_entry r ∷ []

next-Once : (l : List Notification) (r : EventRequest) → Fits r → Once l → Once (next_list l r)
next-Once l r f o = elim (Bool-cases (in_notification_list l r.nqn)) [
  | inl h ↦ rw h o
  | inr h ↦ rw h (Once-snoc l (create_notification_entry r) o (rw (nqn-create r f) h))
]

next-in :
    (l : List Notification) (r : EventRequest)
    → Fits r
    → in_notification_list (next_list l r) r.nqn ≡ true
next-in l r f = elim (Bool-cases (in_notification_list l r.nqn)) [
  | inl h ↦ rw h h
  | inr h ↦ rw h (
      subst (λ x. in_notification_list (l ++ create_notification_entry r ∷ []) x ≡ true)
        (nqn-create r f) (in-snoc l (create_notification_entry r)))
]

next-keeps :
    (l : List Notification) (r : EventRequest) (nqn : CStr)
    → in_notification_list l nqn ≡ true
    → in_notification_list (next_list l r) nqn ≡ true
next-keeps l r nqn i = elim (Bool-cases (in_notification_list l r.nqn)) [
  | inl h ↦ rw h i
  | inr h ↦ rw h (in-append l (create_notification_entry r ∷ []) nqn i)
]

create_from-keeps :
    (l : List Notification) (rs : List EventRequest) (nqn : CStr)
    → in_notification_list l nqn ≡ true
    → in_notification_list (create_from l rs) nqn ≡ true
unfolding create_from
create_from-keeps l [] nqn h = h
create_from-keeps l (r ∷ rs) nqn h = create_from-keeps (next_list l r) rs nqn (next-keeps l r nqn h)

create_from-Once :
    (l : List Notification) (rs : List EventRequest)
    → All Fits rs
    → Once l
    → Once (create_from l rs) × All (λ r. in_notification_list (create_from l rs) r.nqn ≡ true) rs
unfolding create_from
create_from-Once l [] f o = (o, tt)
create_from-Once l (r ∷ rs) f o =
    let ih = create_from-Once (next_list l r) rs f.1 (next-Once l r f.0 o) in
    (ih.0, (create_from-keeps (next_list l r) rs r.nqn (next-in l r f.0), ih.1))

-- Where every pending request has a name that fits its array, the list of notifications has an
-- entry for the host of every request, and no two entries of one host.
pub create_notification_list-Once :
    (aen : List EventRequest)
    → All Fits aen
    → Once (create_notification_list aen)
      × All (λ r. in_notification_list (create_notification_list aen) r.nqn ≡ true) aen
unfolding create_notification_list
create_notification_list-Once aen f = create_from-Once [] aen f tt
