-- ===== src/Dem/Notify/Lists.antt =====
-- The lists of notifications that src/dem/config.c builds from the pending requests.
use nvme_dem.Prelude.{
  ℕ, Bool, true, false, not, ◌&&◌, List, [], ◌∷◌, ◌++◌, Option, none, some, map, ◌==◌,
  if◌then◌else◌, CStr, streq, strncpy, any, filter,
}
use nvme_dem.Dem.State.{EventRequest, Host, GroupHostLink, Subsystem, Target}
use nvme_dem.Dem.LogPages.Refresh.{is_restricted, is_empty}

-- `struct event_notification` in a local list; `req` is the id of the request that it answers.
pub record Notification : Type 0 where
  pub req : ℕ
  pub ep : ℕ
  pub nqn : CStr
  pub valid : Bool

abbrev pub max_nqn_size : ℕ
max_nqn_size = 256

unfoldable pub in_notification_list : List Notification → CStr → Bool
in_notification_list l nqn = any (λ n. streq nqn n.nqn) l

unfoldable pub create_notification_entry : EventRequest → Notification
create_notification_entry r = record {
  req = r.id;
  ep = r.ep;
  nqn = strncpy r.nqn max_nqn_size;
  valid = false;
}

-- The loop over the requests: the first request of each host.
unfoldable pub create_from : List Notification → List EventRequest → List Notification
create_from l [] = l
create_from l (r ∷ rs) =
    create_from (if in_notification_list l r.nqn then l else l ++ create_notification_entry r ∷ [])
      rs

unfoldable pub create_notification_list : List EventRequest → List Notification
create_notification_list aen = create_from [] aen

unfoldable pub any_subsys_unrestricted : Target → Bool
any_subsys_unrestricted t = any (λ s. not (is_restricted s)) t.subsys_list

abbrev pub flag_if : (Notification → Bool) → Notification → Notification
flag_if p n = if p n then record n { valid = true } else n

-- The source's test is `strcmp(host->nqn, entry->nqn)`, which holds where the names differ.
abbrev pub differs_group : Option ℕ → List GroupHostLink → Notification → Bool
differs_group none hosts n = false
differs_group (some g) hosts n = any (λ h. h.group == g && not (streq h.nqn n.nqn)) hosts

abbrev pub differs_host : List Host → Notification → Bool
differs_host hosts n = any (λ h. not (streq h.nqn n.nqn)) hosts

-- `group` is a pointer that is only compared; `none` is one that is no group's.
unfoldable pub flag_by_group_hosts :
    Option ℕ → List GroupHostLink → List Notification → List Notification
flag_by_group_hosts g hosts = map (flag_if (differs_group g hosts))

unfoldable pub flag_by_access_list : Subsystem → List Notification → List Notification
flag_by_access_list s = map (flag_if (differs_host s.host_list))

unfoldable pub prune_notification_list : List Notification → List Notification
prune_notification_list = filter (λ n. n.valid)

abbrev pub enable : Notification → Notification
enable n = record n { valid = true }

unfoldable pub enable_entire_list : List Notification → List Notification
enable_entire_list = map enable

unfoldable pub flag_by_subsystems : List Subsystem → List Notification → List Notification
flag_by_subsystems [] l = l
flag_by_subsystems (s ∷ ss) l = flag_by_subsystems ss (flag_by_access_list s l)

module _ (aen : List EventRequest) where
  unfoldable pub create_event_host_list_for_subsys : Subsystem → List Notification
  create_event_host_list_for_subsys s =
      let l = create_notification_list aen in
      if is_empty l
      then l
      else if not (is_restricted s)
      then enable_entire_list l
      else prune_notification_list (flag_by_access_list s l)

  unfoldable pub create_event_host_list_for_target : Target → List Notification
  create_event_host_list_for_target t =
      let l = create_notification_list aen in
      if is_empty l
      then l
      else if any_subsys_unrestricted t
      then enable_entire_list l
      else prune_notification_list (flag_by_subsystems t.subsys_list l)

  unfoldable pub create_event_host_list_for_group :
      Option ℕ → List GroupHostLink → Target → List Notification
  create_event_host_list_for_group g hosts t =
      let l = create_notification_list aen in
      let grouped = prune_notification_list (flag_by_group_hosts g hosts l) in
      if is_empty l
      then l
      else if is_empty grouped
      then grouped
      else if any_subsys_unrestricted t
      then enable_entire_list grouped
      else prune_notification_list (flag_by_subsystems t.subsys_list grouped)

-- The first request of the host.
unfoldable pub create_event_host_list_for_host : CStr → List EventRequest → List Notification
create_event_host_list_for_host nqn [] = []
create_event_host_list_for_host nqn (r ∷ rs) =
    let rest = create_event_host_list_for_host nqn rs in
    if streq nqn r.nqn then create_notification_entry r ∷ [] else rest
