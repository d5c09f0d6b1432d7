-- ===== src/Endpoint/Configfs/Spec.antt =====
-- What the operations of src/endpoint/configfs.c do to the tree, on paths from the root. No process is
-- in a directory here: where a change of directory fails, the path that the code goes on with is named.
use nvme_dem.Prelude.{
  Bool, true, false, List, [], ◌∷◌, ◌++◌, Option, none, some, take, if◌then◌else◌, CStr, codes,
  streq, ◌&&◌, ℤ,
}
use nvme_dem.Parse.Addr.{atoi}
use nvme_dem.Parse.Decimal.{print_int}
use nvme_dem.Endpoint.Ops.{
  Call, create_host, create_subsys, create_ns, create_portid, link_host_to_subsys,
  link_port_to_subsys, delete_host, delete_ns, delete_portid, unlink_host_from_subsys,
  unlink_port_from_subsys, delete_subsys, reset_config,
}
use nvme_dem.Endpoint.Configfs.Tree.{Made, new, existing, unmade, Kernel, without_newline}
use nvme_dem.Endpoint.Configfs.Calls.{
  cfs_path, subsystems, ports, hosts, is_made, is_removed, ns_path, device_path, any_host, short,
  attributes,
}

module _ {T : Type 0} (kernel : Kernel T) where
  -- Where the directory is not there, nothing is done.
  unfoldable pub under : List CStr → Bool → (T → Bool × T) → T → Bool × T
  under p failed body t = if kernel.is_dir p t then body t else (failed, t)

  -- The directory that a change to `p` from `d` leads to.
  unfoldable pub entered : List CStr → List CStr → T → List CStr
  entered p d t = if kernel.is_dir p t then p else d

  abbrev pub after : (T → T) → Made × T → Bool × T
  after f (m, t) = if is_made m then (true, f t) else (false, t)

  abbrev pub written : List CStr → List (CStr × CStr) → T → T
  written p [] t = t
  written p (a ∷ as_) t = written p as_ (kernel.write (p ++ a.0 ∷ []) a.1 t)

  abbrev pub holds : List CStr → List (CStr × CStr) → T → Bool
  holds p [] t = true
  holds p (a ∷ as_) t =
      streq (without_newline (take 62 (kernel.read (p ++ a.0 ∷ []) t))) a.1 && holds p as_ t

  unfoldable pub port_made : List CStr → List (CStr × CStr) → Made × T → Bool × T
  unfolding entered
  port_made p as_ (unmade, t) = (false, t)
  port_made p as_ (new, t) = (true, written (entered p ports t) as_ t)
  port_made p as_ (existing, t) =
      let q = entered p ports t in let t' = written q as_ t in (holds q as_ t', t')

  abbrev pub removed : List CStr → List CStr → T → T
  removed p [] t = t
  removed p (e ∷ es) t = removed p es (kernel.remove (p ++ e ∷ []) t).1

  abbrev pub port_dropped : List CStr → Option (List CStr) → T → T
  port_dropped p none t = t
  port_dropped p (some es) t = kernel.rmdir p (removed (p ++ codes "subsystems" ∷ []) es t)

  abbrev pub linked_at : List CStr → List CStr → T → Bool × T
  linked_at p link t = let (m, t') = kernel.symlink p link t in (is_made m, t')

  abbrev pub removed_at : List CStr → T → Bool × T
  removed_at p t = let (r, t') = kernel.remove p t in (is_removed r, t')

  abbrev pub ns_dropped : CStr → ℤ → T → T
  ns_dropped subsys nsid t =
      let p = subsystems ++ ns_path subsys nsid in
      let t' = kernel.write (p ++ codes "enable" ∷ []) (codes "0") t in
      if kernel.is_dir p t
      then kernel.rmdir (entered subsystems p t' ++ ns_path subsys nsid) t'
      else t

  abbrev pub host_dropped : CStr → T → Bool × T
  host_dropped host = under hosts true (λ t. (true, kernel.rmdir (hosts ++ host ∷ []) t))

  abbrev pub port_deleted : ℤ → T → Bool × T
  port_deleted portid =
      let p = ports ++ print_int portid ∷ [] in
      under ports true
        (λ t. (true, port_dropped p (kernel.list (p ++ codes "subsystems" ∷ []) t) t))

  abbrev pub one_by_one : (CStr → T → T) → List CStr → T → T
  one_by_one f [] t = t
  one_by_one f (e ∷ es) t = one_by_one f es (f e t)

  abbrev pub each_of_dir : (CStr → T → T) → Option (List CStr) → T → T
  each_of_dir f none t = t
  each_of_dir f (some es) t = one_by_one f es t

  -- Each entry that a directory has at first.
  abbrev pub all_dropped : List CStr → (CStr → T → T) → T → T
  all_dropped p f t = each_of_dir f (kernel.list p t) t

  abbrev pub ns_disabled : List CStr → CStr → T → T
  ns_disabled p e t =
      kernel.rmdir (p ++ e ∷ []) (kernel.write (p ++ e ∷ codes "enable" ∷ []) (codes "0") t)

  abbrev pub link_dropped : List CStr → CStr → CStr → CStr → T → T
  link_dropped d subsys port e t =
      if streq e subsys
      then (kernel.remove (d ++ codes "ports" ∷ port ∷ codes "subsystems" ∷ subsys ∷ []) t).1
      else t

  abbrev pub links_dropped : List CStr → CStr → CStr → T → T
  links_dropped d subsys port =
      all_dropped (d ++ codes "ports" ∷ port ∷ codes "subsystems" ∷ []) (link_dropped d subsys port)

  -- The hosts of a subsystem and its namespaces.
  abbrev pub members_dropped : CStr → T → T
  members_dropped subsys t =
      let p = subsystems ++ subsys ∷ [] in
      let q = p ++ codes "namespaces" ∷ [] in
      all_dropped q (ns_disabled q) (
        all_dropped (p ++ codes "allowed_hosts" ∷ [])
          (λ e t. (kernel.remove (p ++ codes "allowed_hosts" ∷ e ∷ []) t).1) t)

  -- Its hosts, its namespaces, its links, and the subsystem.
  abbrev pub subsys_dropped : CStr → T → Bool × T
  subsys_dropped subsys =
      let p = subsystems ++ subsys ∷ [] in
      under p true (λ t.
        let t1 = members_dropped subsys t in
        let d = entered cfs_path p t1 in
        let t2 = all_dropped (d ++ codes "ports" ∷ []) (links_dropped d subsys) t1 in
        (true, kernel.rmdir (entered subsystems d t2 ++ subsys ∷ []) t2))

  abbrev pub config_dropped : T → Bool × T
  config_dropped t =
      if kernel.is_dir cfs_path t
      then (
        true,
        all_dropped hosts (λ e t. (host_dropped e t).1)
            (all_dropped ports (λ e t. (port_deleted (atoi e) t).1)
              (all_dropped subsystems (λ e t. (subsys_dropped e t).1) t)),
      )
      else (true, t)

  unfoldable pub carry_out : Call → T → Bool × T
  unfolding streq entered
  carry_out (create_subsys subsys allowany) =
      let p = subsystems ++ subsys ∷ [] in
      under subsystems false (λ t.
        after
          (λ t.
            written (entered p subsystems t) ((codes "attr_allow_any_host", any_host allowany) ∷ [])
              t)
          (kernel.mkdir p t))
  carry_out (create_ns subsys nsid devid devnsid) =
      let p = subsystems ++ ns_path subsys nsid in
      under subsystems false (λ t.
        after
          (λ t.
            written (entered p subsystems t)
              ((codes "device_path", device_path devid devnsid) ∷ (codes "enable", codes "1") ∷ [])
              t)
          (kernel.mkdir p t))
  carry_out (delete_ns subsys nsid) = under subsystems true (λ t. (true, ns_dropped subsys nsid t))
  carry_out (create_host host) =
      under hosts false (λ t. after (λ t. t) (kernel.mkdir (hosts ++ host ∷ []) t))
  carry_out (delete_host host) = under hosts true (λ t. (true, kernel.rmdir (hosts ++ host ∷ []) t))
  carry_out (create_portid portid fam typ req addr svcid) =
      let p = ports ++ short portid ∷ [] in
      under ports false (λ t. port_made p (attributes fam typ req addr svcid) (kernel.mkdir p t))
  carry_out (delete_portid portid) = port_deleted portid
  carry_out (link_host_to_subsys subsys host) =
      under subsystems false
        (linked_at (hosts ++ host ∷ []) (subsystems ++ subsys ∷ codes "allowed_hosts" ∷ host ∷ []))
  carry_out (unlink_host_from_subsys subsys host) =
      under subsystems false (removed_at (subsystems ++ subsys ∷ codes "allowed_hosts" ∷ host ∷ []))
  carry_out (link_port_to_subsys subsys portid) = under ports false (
      linked_at (subsystems ++ subsys ∷ [])
        (ports ++ print_int portid ∷ codes "subsystems" ∷ subsys ∷ []))
  carry_out (unlink_port_from_subsys subsys portid) =
      under ports false (removed_at (ports ++ print_int portid ∷ codes "subsystems" ∷ subsys ∷ []))
  carry_out (delete_subsys subsys) = subsys_dropped subsys
  carry_out reset_config = config_dropped
