-- ===== src/Dem/Notify/Access.antt =====
-- Whom the access lists let through (src/dem/config.c, `flag_by_access_list`,
-- `flag_by_group_hosts` and the lists made with them).
use nvme_dem.Prelude.{
  ℕ, Bool, true, false, not, ◌&&◌, ◌≡◌, refl, ap, ◌∙◌, List, [], ◌∷◌, Option, map, arith, All,
  if◌then◌else◌, CStr, streq, streq_refl, streq_sound, ◌++◌, All-append, inl, inr, Bool-cases,
}
use nvme_dem.Dem.State.{EventRequest, Host, GroupHostLink, Subsystem, Target}
use nvme_dem.Dem.LogPages.Refresh.{is_restricted, is_empty}
use nvme_dem.Dem.Notify.Lists.{
  Notification, in_notification_list, create_notification_entry, create_from,
  create_notification_list, flag_if, differs_host, flag_by_group_hosts, flag_by_access_list,
  prune_notification_list, enable_entire_list, any_subsys_unrestricted, flag_by_subsystems,
  create_event_host_list_for_subsys, create_event_host_list_for_group,
}

abbrev AllValid : List Notification → Type 0
AllValid = All (λ n. n.valid ≡ true)

prune-AllValid : (l : List Notification) → AllValid (prune_notification_list l)
unfolding prune_notification_list
prune-AllValid [] = tt
prune-AllValid (n ∷ l) = ground (arith, prune-AllValid l)

prune_valid : (l : List Notification) → AllValid l → prune_notification_list l ≡ l
unfolding prune_notification_list
prune_valid [] h = refl
prune_valid (n ∷ l) h = ground (arith, prune_valid l h.1)

flag_valid : (p : Notification → Bool) (l : List Notification) → AllValid l → map (flag_if p) l ≡ l
flag_valid p [] h = refl
flag_valid p (n ∷ l) h = ground (arith, flag_valid p l h.1)

enable_valid : (l : List Notification) → AllValid l → enable_entire_list l ≡ l
unfolding enable_entire_list
enable_valid [] h = refl
enable_valid (n ∷ l) h = ground (arith, enable_valid l h.1)

subsystems_valid :
    (ss : List Subsystem) (l : List Notification) → AllValid l → flag_by_subsystems ss l ≡ l
unfolding flag_by_subsystems flag_by_access_list
subsystems_valid [] l h = refl
subsystems_valid (s ∷ ss) l h =
    ap (flag_by_subsystems ss) (flag_valid (differs_host s.host_list) l h) ∙ subsystems_valid ss l h

group_case :
    (g : Option ℕ) (hosts : List GroupHostLink) (t : Target) (l : List Notification)
    → let grouped = prune_notification_list (flag_by_group_hosts g hosts l) in
      (if is_empty l
        then l
        else if is_empty grouped
        then grouped
        else if any_subsys_unrestricted t
        then enable_entire_list grouped
        else prune_notification_list (flag_by_subsystems t.subsys_list grouped))
      ≡ grouped
unfolding prune_notification_list flag_by_group_hosts
group_case g hosts t [] = refl
group_case g hosts t (n ∷ l) =
    let grouped = prune_notification_list (flag_by_group_hosts g hosts (n ∷ l)) in
    let v = prune-AllValid (flag_by_group_hosts g hosts (n ∷ l)) in
    ground (
      arith,
      enable_valid grouped v,
      prune_valid grouped v,
      subsystems_valid t.subsys_list grouped v,
    )

-- The flags that the group's hosts set are never cleared, so that the access lists of the target's
-- subsystems have no say: the list is the one that the group alone gives, for every target.
pub group_list_ignores_access :
    (aen : List EventRequest) (g : Option ℕ) (hosts : List GroupHostLink) (t : Target)
    → create_event_host_list_for_group aen g hosts t
      ≡ prune_notification_list (flag_by_group_hosts g hosts (create_notification_list aen))
unfolding create_event_host_list_for_group
group_list_ignores_access aen g hosts t = group_case g hosts t (create_notification_list aen)

abbrev pub AllInvalid : List Notification → Type 0
AllInvalid = All (λ n. n.valid ≡ false)

pub create_from-AllInvalid :
    (l : List Notification) (rs : List EventRequest) → AllInvalid l → AllInvalid (create_from l rs)
unfolding create_from create_notification_entry
create_from-AllInvalid l [] h = h
create_from-AllInvalid l (r ∷ rs) h = elim (Bool-cases (in_notification_list l r.nqn)) [
  | inl i ↦ rw i (create_from-AllInvalid l rs h)
  | inr i ↦ rw i (
      create_from-AllInvalid (l ++ create_notification_entry r ∷ []) rs
        (All-append (λ n. n.valid ≡ false) l (create_notification_entry r ∷ []) h (refl, tt)))
]

single_case :
    (h : Host) (nqn : CStr) (l : List Notification)
    → AllInvalid l
    → in_notification_list (prune_notification_list (map (flag_if (differs_host (h ∷ []))) l)) nqn
      ≡ (in_notification_list l nqn && not (streq h.nqn nqn))
unfolding in_notification_list prune_notification_list
single_case h nqn [] v = refl
single_case h nqn (n ∷ l) v = ground (
  arith,
  single_case h nqn l v.1,
  streq_sound nqn n.nqn,
  streq_sound h.nqn nqn,
  streq_sound h.nqn n.nqn,
  streq_refl h.nqn,
  streq_refl nqn,
)

subsys_case :
    (h : Host) (nqn : CStr) (l : List Notification)
    → AllInvalid l
    → in_notification_list
        (if is_empty l
          then l
          else prune_notification_list (map (flag_if (differs_host (h ∷ []))) l))
        nqn
      ≡ (in_notification_list l nqn && not (streq h.nqn nqn))
unfolding in_notification_list
subsys_case h nqn [] v = refl
subsys_case h nqn (n ∷ l) v = single_case h nqn (n ∷ l) v

-- A change of a restricted subsystem that one host may use is announced to every host that asked,
-- but for that one: the list has the hosts with a request whose name is not the allowed one's.
pub subsys_list_single :
    (aen : List EventRequest) (s : Subsystem) (h : Host) (nqn : CStr)
    → is_restricted s ≡ true
    → s.host_list ≡ h ∷ []
    → in_notification_list (create_event_host_list_for_subsys aen s) nqn
      ≡ (in_notification_list (create_notification_list aen) nqn && not (streq h.nqn nqn))
unfolding create_event_host_list_for_subsys flag_by_access_list
subsys_list_single aen s h nqn r one =
    rw (r, one)
      (subsys_case h nqn (create_notification_list aen)
        (unfold create_notification_list in create_from-AllInvalid [] aen tt))
