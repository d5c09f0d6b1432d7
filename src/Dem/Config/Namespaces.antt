-- ===== src/Dem/Config/Namespaces.antt =====
-- `set_ns` and `del_ns` of src/dem/config.c.
pub mod Lookup
pub mod Map
pub mod Distinct
use nvme_dem.Prelude.{
  ℕ, ◌≡◌, ◌⊎◌, inl, inr, refl, ◌∙◌, ap, Bool, true, false, ◌||◌, List, [], ◌∷◌, Option, none, some,
  arith, find, if◌then◌else◌, CStr, ℤ, pos, eqb_ℤ,
}
use nvme_dem.Dem.State.{
  Ns, Subsystem, Target, MgmtMode, local_mgmt, in_band_mgmt, out_of_band_mgmt, Dem,
}
use nvme_dem.Dem.Groups.Ops.{find_target, del_first}
use nvme_dem.Inb.Build.{nullb_devid}
use nvme_dem.Dem.Config.Find.{
  has_alias, has_nqn, has_nsid, find_subsys, find_ns, put_first, find-put_first,
  find-put_first_other,
}
use nvme_dem.Dem.Config.Result.{
  Ret, success, refused, no_entry, Note, no_note, nsdev_err, Acted, Done, stopped, stored,
  for_target, ret_of, note_of,
}
use nvme_dem.Dem.Config.Remote.{Remote, set_ns_at, del_ns_at}

-- The namespace with the id gets the device, or a new one is added at the tail.
unfoldable pub store_ns : Ns → List Ns → List Ns
store_ns n [] = n ∷ []
store_ns n (x ∷ xs) =
    let rest = store_ns n xs in
    if has_nsid n.nsid x then record x { devid = n.devid; devns = n.devns } ∷ xs else x ∷ rest

-- A local target is not checked. Elsewhere the null block device has the namespace 0.
abbrev pub checked_ns : MgmtMode → Ns → Ns
checked_ns local_mgmt n = n
checked_ns mode n = if eqb_ℤ n.devid nullb_devid then record n { devns = pos 0 } else n

abbrev pub is_local : MgmtMode → Bool
is_local local_mgmt = true
is_local mode = false

abbrev pub store_subsys : CStr → Target → Subsystem → Target
store_subsys nqn t s = record t { subsys_list = put_first (has_nqn nqn) s t.subsys_list }

module _ {W : Type 0} (r : Remote W) where
  abbrev pub ns_found : CStr → Ns → Target → Option Subsystem → W → Acted W
  ns_found nqn n t none w = record { ret = success; note = no_note; target = t; world = w }
  ns_found nqn n t (some s) w =
      let s' = record s { ns_list = store_ns n s.ns_list } in
      let (ok, v) = set_ns_at r t.mgmt_mode s' n w in
      record { ret = ret_of ok; note = note_of ok; target = store_subsys nqn t s'; world = v }

  -- `devices` is the device list of the target.
  abbrev pub set_ns_in : (ℤ → ℤ → Bool) → CStr → Ns → Target → W → Acted W
  set_ns_in devices nqn n t w =
      let n' = checked_ns t.mgmt_mode n in
      if is_local t.mgmt_mode || devices n'.devid n'.devns
      then ns_found nqn n' t (find_subsys nqn t.subsys_list) w
      else record { ret = no_entry; note = nsdev_err; target = t; world = w }

  -- `json` is what `set_json_ns` returns: an error, or the namespace. A target that is not found is
  -- no error.
  unfoldable pub set_ns : (Target → ℤ → ℤ → Bool) → CStr → CStr → Option Ns → Dem → W → Done W
  unfolding find_target store_ns find_subsys stored
  set_ns devices alias nqn none d w = stopped refused no_note d w
  set_ns devices alias nqn (some n) d w =
      for_target alias d w (λ t. set_ns_in (devices t) nqn n t w) (find_target alias d)

  abbrev pub drop_ns : CStr → ℤ → Target → Subsystem → Option Ns → W → Acted W
  drop_ns nqn nsid t s none w = record { ret = success; note = no_note; target = t; world = w }
  drop_ns nqn nsid t s (some n) w =
      let (ok, v) = del_ns_at r t.mgmt_mode s n w in
      record {
        ret = ret_of ok;
        note = note_of ok;
        target = store_subsys nqn t (record s { ns_list = del_first (has_nsid nsid) s.ns_list });
        world = v;
      }

  abbrev pub del_ns_in : CStr → ℤ → Target → Option Subsystem → W → Acted W
  del_ns_in nqn nsid t none w = record { ret = success; note = no_note; target = t; world = w }
  del_ns_in nqn nsid t (some s) w = drop_ns nqn nsid t s (find_ns nsid s.ns_list) w

  -- The namespace leaves the list, also where the order fails.
  unfoldable pub del_ns : CStr → CStr → ℤ → Bool → Dem → W → Done W
  unfolding find_target find_ns del_first find_subsys stored
  del_ns alias nqn nsid json d w =
      if json
      then for_target alias d w (λ t. del_ns_in nqn nsid t (find_subsys nqn t.subsys_list) w)
          (find_target alias d)
      else stopped refused no_note d w
