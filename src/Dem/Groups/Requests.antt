-- ===== src/Dem/Groups/Requests.antt =====
-- `add_group`, `update_group`, `set_group_member` and `del_group_member` of src/dem/config.c: the
-- answer of the stored configuration, which is an argument, and then the operation on the lists.
use nvme_dem.Prelude.{ℕ, Bool, ◌==◌, map, Option, none, some, if◌then◌else◌, CStr, strncpy}
use nvme_dem.Dem.State.{Group, Dem}
use nvme_dem.Dem.Notify.Send.{Peers}
use nvme_dem.Dem.Groups.Ops.{
  Outcome, quiet, max_alias_size, find_target, find_group, init_group, add_host_to_group,
  add_target_to_group, del_host_from_group, del_target_from_group,
}

-- The tag of a request is that of targets, or another.
pub data Tag : Type 0 where
  of_target of_host : Tag

-- An error of the stored configuration, a use of the null pointer that the search for the group
-- returned, or the new lists.
pub data Answer : Type 0 where
  denied crashed : Answer
  did : Outcome → Answer

unfoldable pub add_group : ℕ → CStr → Bool → Dem → Answer
unfolding init_group
add_group id name json d = if json then did (quiet (init_group id name d)) else denied

abbrev pub renamed : ℕ → CStr → Group → Group
renamed gid name g = if g.id == gid then record g { name = strncpy name max_alias_size } else g

-- The group is the one that has the new name already, if any.
abbrev pub update_found : ℕ → CStr → Dem → Option Group → Dem
update_found id name d none = init_group id name d
update_found id name d (some g) = record d { group_list = map (renamed g.id name) d.group_list }

-- `json` is the new name that `update_json_group` returns; the old one is not used.
unfoldable pub update_group : ℕ → Option CStr → Dem → Answer
unfolding find_group init_group
update_group id none d = denied
update_group id (some name) d = did (quiet (update_found id name d (find_group name d)))

-- A link of a host is made for the null pointer as well; no group is at the address 0.
abbrev pub address_of : Option Group → ℕ
address_of none = 0
address_of (some g) = g.id

abbrev pub join_found : Peers → CStr → CStr → Dem → Tag → Option Group → Answer
join_found p alias nqn d of_host g = did (quiet (add_host_to_group (address_of g) alias nqn d))
join_found p alias nqn d of_target (some g) = did (add_target_to_group p g.id alias d)
join_found p alias nqn d of_target none = elim (find_target alias d) [
  | none ↦ did (quiet d)
  | some t ↦ crashed
]

-- `json` is the alias that `set_json_group_member` returns; `nqn` is the NQN of that host.
unfoldable pub set_group_member : Peers → CStr → Tag → (CStr → CStr) → Option CStr → Dem → Answer
unfolding find_group find_target add_host_to_group add_target_to_group
set_group_member p name tag nqn none d = denied
set_group_member p name tag nqn (some alias) d =
    join_found p alias (nqn alias) d tag (find_group name d)

abbrev pub leave_found : Peers → CStr → Dem → Tag → Option Group → Answer
leave_found p alias d of_host g = did (quiet (del_host_from_group (address_of g) alias d))
leave_found p alias d of_target (some g) = did (del_target_from_group p g.id alias d)
leave_found p alias d of_target none = elim (find_target alias d) [
  | none ↦ did (quiet d)
  | some t ↦ crashed
]

unfoldable pub del_group_member : Peers → CStr → CStr → Tag → Bool → Dem → Answer
unfolding find_group find_target del_host_from_group del_target_from_group
del_group_member p name alias tag json d =
    if json then leave_found p alias d tag (find_group name d) else denied
