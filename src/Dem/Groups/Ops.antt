-- ===== src/Dem/Groups/Ops.antt =====
-- The operations on groups of src/dem/config.c, after the stored configuration has accepted the
-- change: `add_json_group` and its like (src/dem/json.c) come first (Requests).
use nvme_dem.Prelude.{
  ℕ, Bool, true, false, not, ◌&&◌, List, [], ◌∷◌, ◌++◌, Option, none, some, map, ◌==◌,
  if◌then◌else◌, CStr, streq, strncpy, any, filter, find,
}
use nvme_dem.Dem.State.{Target, Group, GroupHostLink, Dem}
use nvme_dem.Dem.Notify.Lists.{create_event_host_list_for_group}
use nvme_dem.Dem.Notify.Send.{Peers, send_notifications}

abbrev pub max_alias_size : ℕ
max_alias_size = 64

-- The new lists, and the endpoints that were told of the change.
pub record Outcome : Type 0 where
  pub dem : Dem
  pub told : List ℕ

abbrev pub quiet : Dem → Outcome
quiet d = record { dem = d; told = [] }

unfoldable pub find_target : CStr → Dem → Option Target
find_target alias d = find (λ t. streq t.alias alias) d.target_list

unfoldable pub find_group : CStr → Dem → Option Group
find_group name d = find (λ g. streq g.name name) d.group_list

abbrev pub links : ℕ → Group → Bool
links tid g = any (λ l. l == tid) g.target_list

-- Some group has a link to the target.
abbrev pub is_linked : ℕ → List Group → Bool
is_linked tid gs = any (links tid) gs

-- `id` is the address that `malloc` returns.
unfoldable pub init_group : ℕ → CStr → Dem → Dem
init_group id name d = record d {
  group_list =
      d.group_list ++ record { id = id; name = strncpy name max_alias_size; target_list = [] } ∷ [];
}

-- `add_host_to_group`; `nqn` is what `get_json_host_nqn` returns for the alias.
unfoldable pub add_host_to_group : ℕ → CStr → CStr → Dem → Dem
add_host_to_group gid alias nqn d = record d {
  host_list = d.host_list ++ record { group = gid; alias = alias; nqn = nqn } ∷ [];
}

abbrev pub set_member : Bool → ℕ → Target → Target
set_member b tid t = if t.id == tid then record t { group_member = b } else t

abbrev pub link_target : ℕ → ℕ → Group → Group
link_target gid tid g =
    if g.id == gid then record g { target_list = g.target_list ++ tid ∷ [] } else g

abbrev pub notify : Peers → Option ℕ → Target → Dem → Outcome
notify p g t d =
    let s =
      send_notifications p (create_event_host_list_for_group d.aen_req_list g d.host_list t)
        d.aen_req_list in
    record { dem = record d { aen_req_list = s.pending }; told = s.eps }

abbrev pub joined : ℕ → ℕ → Dem → Dem
joined gid tid d = record d {
  target_list = map (set_member true tid) d.target_list;
  group_list = map (link_target gid tid) d.group_list;
}

abbrev pub join_target : Peers → ℕ → Dem → Option Target → Outcome
join_target p gid d none = quiet d
join_target p gid d (some t) = notify p (some gid) t (joined gid t.id d)

unfoldable pub add_target_to_group : Peers → ℕ → CStr → Dem → Outcome
unfolding find_target
add_target_to_group p gid alias d = join_target p gid d (find_target alias d)

-- `find_group_host`: the test compares the link's NQN, and the caller passes an alias.
abbrev pub is_group_host : ℕ → CStr → GroupHostLink → Bool
is_group_host gid alias h = h.group == gid && streq h.nqn alias

-- `list_del` of the first entry that passes the test.
unfoldable pub del_first {ℓ} : {A : Type ℓ} → (A → Bool) → List A → List A
del_first p [] = []
del_first p (x ∷ xs) = let rest = del_first p xs in if p x then xs else x ∷ rest

unfoldable pub del_host_from_group : ℕ → CStr → Dem → Dem
unfolding del_first
del_host_from_group gid alias d = record d {
  host_list = del_first (is_group_host gid alias) d.host_list;
}

abbrev pub unlink_target : ℕ → ℕ → Group → Group
unlink_target gid tid g =
    if g.id == gid then record g { target_list = del_first (λ l. l == tid) g.target_list } else g

abbrev pub unlinked : ℕ → ℕ → Dem → Dem
unlinked gid tid d = record d { group_list = map (unlink_target gid tid) d.group_list }

abbrev pub left : ℕ → Dem → Dem
left tid d = record d { target_list = map (set_member false tid) d.target_list }

-- The search for a remaining link reuses the variable `group`, so that what is passed on for the
-- notifications is no group.
abbrev pub leave_target : Peers → ℕ → Dem → Option Target → Outcome
leave_target p gid d none = quiet d
leave_target p gid d (some t) =
    let d' = unlinked gid t.id d in
    if not (any (λ g. g.id == gid && links t.id g) d.group_list)
    then quiet d
    else if is_linked t.id d'.group_list
    then quiet d'
    else notify p none t (left t.id d')

unfoldable pub del_target_from_group : Peers → ℕ → CStr → Dem → Outcome
unfolding find_target del_first
del_target_from_group p gid alias d = leave_target p gid d (find_target alias d)

-- The links of the group's hosts go, and the group; the links of its targets are not looked at.
abbrev pub drop_group : Dem → Option Group → Dem
drop_group d none = d
drop_group d (some g) = record d {
  host_list = filter (λ h. not (h.group == g.id)) d.host_list;
  group_list = filter (λ k. not (k.id == g.id)) d.group_list;
}

-- `del_group`, for a name that has a group (the source follows the pointer in any case).
unfoldable pub del_group : CStr → Dem → Dem
unfolding find_group
del_group name d = drop_group d (find_group name d)

-- `host->group->target_list`
abbrev pub group_links : ℕ → ℕ → List Group → Bool
group_links tid gid gs = any (λ g. g.id == gid && links tid g) gs

unfoldable pub shared_group : ℕ → CStr → Dem → Bool
shared_group tid nqn d =
    any (λ h. streq h.nqn nqn && group_links tid h.group d.group_list) d.host_list

unfoldable pub indirect_shared_group : ℕ → CStr → Dem → Bool
indirect_shared_group tid alias d =
    any (λ h. streq h.alias alias && group_links tid h.group d.group_list) d.host_list
