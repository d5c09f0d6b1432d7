-- ===== src/Dem/Config/Targets/Deleted.antt =====
-- What `del_target` of src/dem/config.c leaves.
use nvme_dem.Prelude.{◌≡◌, refl, true, none, some, if◌then◌else◌, CStr, streq, streq_sound}
use nvme_dem.Dem.State.{Target, Dem}
use nvme_dem.Dem.Notify.Send.{Peers}
use nvme_dem.Dem.Groups.Ops.{find_target}
use nvme_dem.Dem.Config.Find.{DistinctKeys, find-del_first_key}
use nvme_dem.Dem.Config.Remote.{Remote}
use nvme_dem.Dem.Config.Result.{announced}
use nvme_dem.Dem.Config.Targets.{del_target}

module _ {W : Type 0} (r : Remote W) (peers : Peers) (alias : CStr) (d : Dem) (w : W) (t : Target)
    (found : find_target alias d ≡ some t)
    (distinct : DistinctKeys (λ x. x.alias) streq d.target_list) where
  -- Deleting a target that is found takes it out of the targets, under its alias, and leaves what is
  -- found under every other alias, if no alias stands twice. The groups keep their links to it.
  pub del_target_lem :
      (alias' : CStr)
      → (find_target alias' (del_target r peers alias true d w).dem
          ≡ (if streq alias alias' then none else find_target alias' d))
        × ((del_target r peers alias true d w).dem.group_list ≡ d.group_list)
  unfolding del_target announced find_target
  del_target_lem alias' = rw found (
    find-del_first_key (λ x. x.alias) streq streq_sound alias alias' d.target_list distinct,
    refl,
  )
