-- ===== src/Dem/Config/Hosts.antt =====
-- `link_host`, `unlink_host`, `update_host` and `del_host` of src/dem/config.c.
pub mod Orders
pub mod Sweep
use nvme_dem.Prelude.{
  ℕ, Bool, true, false, not, List, [], ◌∷◌, ◌++◌, Option, none, some, any, find, map, ◌==◌,
  if◌then◌else◌, CStr, streq,
}
use nvme_dem.Dem.State.{Host, Subsystem, PortId, Target, Dem}
use nvme_dem.Dem.LogPages.Refresh.{Fabric, is_restricted, is_empty}
use nvme_dem.Dem.Notify.Lists.{create_event_host_list_for_host}
use nvme_dem.Dem.Notify.Send.{Peers}
use nvme_dem.Dem.Groups.Ops.{find_target, del_first}
use nvme_dem.Dem.Daemon.Subsys.{reset_subsys_dq, reset_subsys_dq_nqn, update_subsys_dq}
use nvme_dem.Dem.Config.Find.{find_subsys, modify_subsys}
use nvme_dem.Dem.Config.Remote.{
  Remote, link_host_to, unlink_host_from, del_host_at, link_portid_to, send_each,
}
use nvme_dem.Dem.Config.Result.{
  Ret, success, refused, Note, no_note, config_alert, Acted, Done, stopped, stored, announced,
  ret_of, note_of,
}

abbrev pub has_host_alias : CStr → Host → Bool
has_host_alias alias h = streq h.alias alias

unfoldable pub find_host : CStr → List Host → Option Host
find_host alias hs = find (has_host_alias alias) hs

-- The list up to the first entry of the alias, which is replaced: what a walk through the list sees
-- after `list_add_tail` of an entry that has others behind it (Linked.Readd).
unfoldable pub cut_at : CStr → Host → List Host → List Host
cut_at alias h [] = []
cut_at alias h (x ∷ xs) =
    let rest = cut_at alias h xs in if has_host_alias alias x then h ∷ [] else x ∷ rest

-- Whether the first entry of the alias is the last one.
unfoldable pub ends_with : CStr → List Host → Bool
ends_with alias [] = false
ends_with alias (x ∷ xs) =
    let rest = ends_with alias xs in if has_host_alias alias x then is_empty xs else rest

-- `ends` is whether the subsystem's list of hosts still ends: it does not once its last entry was
-- added again, and then holds that entry for ever.
pub record Linking (W : Type 0) : Type 0 where
  pub done : Done W
  pub ends : Bool

abbrev pub set_hosts : ℕ → List Host → Target → Target
set_hosts id hs = modify_subsys id (λ s. record s { host_list = hs })

abbrev pub drop_host : CStr → Subsystem → Subsystem
drop_host alias s = record s { host_list = del_first (has_host_alias alias) s.host_list }

abbrev pub is_used : CStr → Target → Bool
is_used alias t = any (λ s. any (has_host_alias alias) s.host_list) t.subsys_list

module _ {W : Type 0} (r : Remote W) (peers : Peers) (f : Fabric) (shared : CStr) where
  -- A host that is in the list is unlinked under its former NQN first.
  abbrev pub relink_host : Subsystem → Host → Host → Target → W → Acted W
  relink_host s old h t w =
      let (ok, v) = unlink_host_from r t.mgmt_mode s old w in
      let t' = reset_subsys_dq_nqn f t s old.nqn in
      let (ok', v') = link_host_to r t.mgmt_mode s h v in
      record {
        ret = ret_of ok';
        note = if ok then note_of ok' else config_alert;
        target = set_hosts s.id (cut_at h.alias h s.host_list) t';
        world = v';
      }

  -- The first host of a subsystem: the ports are linked before it is in the list.
  abbrev pub first_host : Subsystem → Host → Target → W → Target × W
  first_host s h t w =
      let v = send_each r (λ p. link_portid_to r t.mgmt_mode s p) t.portid_list w in
      let s' = record s { host_list = h ∷ [] } in
      (reset_subsys_dq f shared (set_hosts s.id (h ∷ []) t) s' h.nqn, v)

  abbrev pub add_host_to : Subsystem → Host → Target → W → Acted W
  add_host_to s h t w =
      let (ok, v) = link_host_to r t.mgmt_mode s h w in
      if is_empty s.host_list
      then (let (t', v') = first_host s h t v in
          record { ret = ret_of ok; note = note_of ok; target = t'; world = v' })
      else record {
        ret = ret_of ok;
        note = note_of ok;
        target = set_hosts s.id (s.host_list ++ h ∷ []) t;
        world = v;
      }

  abbrev pub link_in : Subsystem → Host → Target → W → Option Host → Acted W
  link_in s h t w none = add_host_to s h t w
  link_in s h t w (some old) = relink_host s old h t w

  abbrev pub told_host : CStr → Done W → Done W
  told_host nqn o = announced peers (create_event_host_list_for_host nqn o.dem.aen_req_list) o

  abbrev pub unlinked : Ret → Dem → W → Linking W
  unlinked ret d w = record { done = stopped ret no_note d w; ends = true }

  abbrev pub link_found : CStr → Host → Dem → W → Target → Option Subsystem → Linking W
  link_found tgt h d w t none = unlinked success d w
  link_found tgt h d w t (some s) = record {
    done = told_host h.nqn (stored tgt d (link_in s h t w (find_host h.alias s.host_list)));
    ends = not (ends_with h.alias s.host_list);
  }

  abbrev pub link_host_of : CStr → CStr → Host → Dem → W → Option Target → Linking W
  link_host_of tgt subnqn h d w none = unlinked success d w
  link_host_of tgt subnqn h d w (some t) = link_found tgt h d w t (find_subsys subnqn t.subsys_list)

  -- `json` is the alias and the NQN that `set_json_acl` returns, the alias being the caller's if it
  -- has one.
  unfoldable pub link_host_op : CStr → CStr → Option Host → Dem → W → Linking W
  unfolding find_target find_subsys find_host cut_at ends_with modify_subsys
  link_host_op tgt subnqn none d w = unlinked refused d w
  link_host_op tgt subnqn (some h) d w = link_host_of tgt subnqn h d w (find_target tgt d)

  -- The host's order, and the list and the queue without it.
  abbrev pub take_out : CStr → Subsystem → Host → Target → W → Target × W
  take_out alias s h t w =
      let (ok, v) = unlink_host_from r t.mgmt_mode s h w in
      let s' = drop_host alias s in
      (reset_subsys_dq_nqn f (set_hosts s.id s'.host_list t) s' h.nqn, v)

  -- The endpoint is told to delete the host by its alias, if no other subsystem has it.
  abbrev pub unlink_in : CStr → Subsystem → Host → Target → W → Acted W
  unlink_in alias s h t w =
      let (t', v) = take_out alias s h t w in
      if is_used alias t'
      then record { ret = success; note = no_note; target = t'; world = v }
      else (let (ok, v') = del_host_at r t.mgmt_mode alias v in
          record { ret = success; note = note_of ok; target = t'; world = v' })

  abbrev pub unlink_at : CStr → CStr → Dem → W → Target → Subsystem → Option Host → Done W
  unlink_at tgt alias d w t s none = stopped success no_note d w
  unlink_at tgt alias d w t s (some h) = told_host h.nqn (stored tgt d (unlink_in alias s h t w))

  abbrev pub unlink_found : CStr → CStr → Dem → W → Target → Option Subsystem → Done W
  unlink_found tgt alias d w t none = stopped success no_note d w
  unlink_found tgt alias d w t (some s) = unlink_at tgt alias d w t s (find_host alias s.host_list)

  abbrev pub unlink_host_of : CStr → CStr → CStr → Dem → W → Option Target → Done W
  unlink_host_of tgt subnqn alias d w none = stopped success no_note d w
  unlink_host_of tgt subnqn alias d w (some t) =
      unlink_found tgt alias d w t (find_subsys subnqn t.subsys_list)

  unfoldable pub unlink_host_op : CStr → CStr → CStr → Bool → Dem → W → Done W
  unfolding find_target find_subsys find_host del_first modify_subsys
  unlink_host_op tgt subnqn alias json d w =
      if json
      then unlink_host_of tgt subnqn alias d w (find_target tgt d)
      else stopped refused no_note d w
