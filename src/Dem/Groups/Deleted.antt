-- ===== src/Dem/Groups/Deleted.antt =====
-- What deleting a group leaves behind, and whom removals tell (src/dem/config.c).
use nvme_dem.Prelude.{
  ℕ, true, false, not, ◌&&◌, ◌||◌, ◌≡◌, refl, ap, ◌∙◌, List, [], ◌∷◌, Option, none, some, arith,
  ◌==◌, All, any, filter, CStr, streq,
}
use nvme_dem.Dem.State.{Target, Group, GroupHostLink, Dem}
use nvme_dem.Dem.Notify.Lists.{
  Notification, create_notification_list, prune_notification_list, flag_by_group_hosts,
  create_event_host_list_for_group,
}
use nvme_dem.Dem.Notify.Send.{Peers, send_notifications}
use nvme_dem.Dem.Notify.Access.{AllInvalid, create_from-AllInvalid, group_list_ignores_access}
use nvme_dem.Dem.Groups.Ops.{
  links, find_target, find_group, leave_target, del_target_from_group, drop_group, del_group,
  shared_group, group_links,
}

-- All links to the target are in the group.
abbrev pub OnlyIn : ℕ → ℕ → List Group → Type 0
OnlyIn gid tid = All (λ g. (g.id == gid || not (links tid g)) ≡ true)

no_links :
    (gid tid k : ℕ) (gs : List Group)
    → OnlyIn gid tid gs
    → group_links tid k (filter (λ g. not (g.id == gid)) gs) ≡ false
no_links gid tid k [] h = refl
no_links gid tid k (g ∷ gs) h = ground (arith, no_links gid tid k gs h.1, h.0)

no_shared :
    (tid : ℕ) (nqn : CStr) (gs : List Group) (hs : List GroupHostLink)
    → ((k : ℕ) → group_links tid k gs ≡ false)
    → any (λ h. streq h.nqn nqn && group_links tid h.group gs) hs ≡ false
no_shared tid nqn gs [] n = refl
no_shared tid nqn gs (h ∷ hs) n = ground (arith, n h.group, no_shared tid nqn gs hs n)

-- A target whose only links are in a group keeps its mark as a group member when the group is
-- deleted, and then shares a group with no host: no host sees it any more.
pub del_group-hides :
    (d : Dem) (name nqn : CStr) (g : Group) (tid : ℕ)
    → find_group name d ≡ some g
    → OnlyIn g.id tid d.group_list
    → ((del_group name d).target_list ≡ d.target_list)
      × (shared_group tid nqn (del_group name d) ≡ false)
unfolding del_group shared_group
del_group-hides d name nqn g tid e o = rw (ap (drop_group d) e) (
  refl,
  no_shared tid nqn (filter (λ k. not (k.id == g.id)) d.group_list)
      (filter (λ h. not (h.group == g.id)) d.host_list) (λ k. no_links g.id tid k d.group_list o),
)

none_flagged :
    (hosts : List GroupHostLink) (l : List Notification)
    → AllInvalid l
    → prune_notification_list (flag_by_group_hosts none hosts l) ≡ []
unfolding prune_notification_list flag_by_group_hosts
none_flagged hosts [] h = refl
none_flagged hosts (n ∷ l) h = ground (arith, none_flagged hosts l h.1)

no_group_list :
    (d : Dem) (t : Target) → create_event_host_list_for_group d.aen_req_list none d.host_list t ≡ []
unfolding create_notification_list
no_group_list d t =
    group_list_ignores_access d.aen_req_list none d.host_list t
    ∙ none_flagged d.host_list (create_notification_list d.aen_req_list)
        (create_from-AllInvalid [] d.aen_req_list tt)

leave_silent :
    (p : Peers) (gid : ℕ) (d : Dem) (o : Option Target)
    → ((leave_target p gid d o).told ≡ [])
      × ((leave_target p gid d o).dem.aen_req_list ≡ d.aen_req_list)
unfolding send_notifications
leave_silent p gid d none = (refl, refl)
leave_silent p gid d (some t) = ground (arith, no_group_list d t)

-- Removing a target from a group tells no host of the change, and leaves every request pending: by
-- then the variable that is passed on as the group is no group, and no host belongs to it.
pub del_target_from_group-silent :
    (p : Peers) (gid : ℕ) (alias : CStr) (d : Dem)
    → ((del_target_from_group p gid alias d).told ≡ [])
      × ((del_target_from_group p gid alias d).dem.aen_req_list ≡ d.aen_req_list)
unfolding del_target_from_group
del_target_from_group-silent p gid alias d = leave_silent p gid d (find_target alias d)
