-- ===== src/Endpoint/Configfs/Reset.antt =====
-- The operations of src/endpoint/configfs.c that walk directories, and its table of operations.
use nvme_dem.Prelude.{
  Bool, true, List, [], ◌∷◌, ◌++◌, Option, none, some, if◌then◌else◌, CStr, codes, streq,
}
use nvme_dem.Parse.Addr.{atoi}
use nvme_dem.Endpoint.Ops.{
  Call, create_host, create_subsys, create_ns, create_portid, link_host_to_subsys,
  link_port_to_subsys, delete_subsys, delete_host, delete_ns, delete_portid,
  unlink_host_from_subsys, unlink_port_from_subsys, reset_config, Ops,
}
use nvme_dem.Endpoint.Configfs.Tree.{
  Kernel, root, at, up, Process, chdir, go, rmdir, write_str, remove, from_root, printing,
}
use nvme_dem.Endpoint.Configfs.Calls.{
  cfs_path, subsystems, ports, hosts, inside, opendir, cfgfs_create_subsys, cfgfs_create_ns,
  cfgfs_delete_ns, cfgfs_create_host, cfgfs_delete_host, cfgfs_create_portid, cfgfs_delete_portid,
  cfgfs_link_host_to_subsys, cfgfs_unlink_host_from_subsys, cfgfs_link_port_to_subsys,
  cfgfs_unlink_port_from_subsys,
}

module _ {T : Type 0} (kernel : Kernel T) where
  -- `for_each_dir` over a directory that was opened, or nothing.
  abbrev pub each_entry : (CStr → Process T → Process T) → List CStr → Process T → Process T
  each_entry f [] s = s
  each_entry f (e ∷ es) s = each_entry f es (f e s)

  abbrev pub for_each_dir :
      (CStr → Process T → Process T) → Option (List CStr) → Process T → Process T
  for_each_dir f none s = s
  for_each_dir f (some es) s = each_entry f es s

  unfoldable pub delete_all_allowed_hosts : Process T → Process T
  delete_all_allowed_hosts s =
      for_each_dir (λ e s. (remove kernel (codes "allowed_hosts" ∷ e ∷ []) s).1)
        (opendir kernel (codes "allowed_hosts" ∷ []) s) s

  abbrev pub disable_ns : CStr → Process T → Process T
  disable_ns e s =
      let path = codes "namespaces" ∷ e ∷ [] in
      rmdir kernel path
        (go kernel (up 2) (write_str kernel (codes "enable") (codes "0") (go kernel (at path) s)))

  unfoldable pub delete_all_ns : Process T → Process T
  delete_all_ns s = for_each_dir disable_ns (opendir kernel (codes "namespaces" ∷ []) s) s

  -- The link of one port, if it has the subsystem's name.
  abbrev pub unlink_port : CStr → CStr → CStr → Process T → Process T
  unlink_port subsys port e s =
      let s' = (remove kernel (codes "ports" ∷ port ∷ codes "subsystems" ∷ subsys ∷ []) s).1 in
      if streq e subsys then s' else s

  abbrev pub unlink_ports_of : CStr → CStr → Process T → Process T
  unlink_ports_of subsys port s =
      for_each_dir (unlink_port subsys port)
        (opendir kernel (codes "ports" ∷ port ∷ codes "subsystems" ∷ []) s) s

  abbrev pub unlink_ports : CStr → Process T → Process T
  unlink_ports subsys s =
      for_each_dir (unlink_ports_of subsys) (opendir kernel (codes "ports" ∷ []) s) s

  unfoldable pub unlink_all_ports : CStr → Process T → Process T
  unfolding streq
  unlink_all_ports subsys s = unlink_ports subsys (go kernel (root cfs_path) s)

  unfoldable pub cfgfs_delete_subsys : CStr → Process T → Bool × Process T
  unfolding delete_all_allowed_hosts delete_all_ns unlink_all_ports
  cfgfs_delete_subsys subsys s =
      printing kernel (from_root (subsystems ++ subsys ∷ []) ∷ [])
        (inside kernel (subsystems ++ subsys ∷ []) true (λ s. (
          true,
          rmdir kernel (subsys ∷ []) (
              go kernel (root subsystems)
                (unlink_all_ports subsys (delete_all_ns (delete_all_allowed_hosts s)))),
        )))
        s

  abbrev pub each_in : List CStr → (CStr → Process T → Process T) → Process T → Process T
  each_in p f s = for_each_dir f (kernel.list p s.tree) s

  unfoldable pub cfgfs_reset_config : Process T → Process T
  unfolding cfgfs_delete_subsys cfgfs_delete_portid cfgfs_delete_host
  cfgfs_reset_config s =
      let (entered, s') = chdir kernel (root cfs_path) s in
      let s'' =
        each_in hosts (λ e s. (cfgfs_delete_host kernel e s).1)
          (each_in ports (λ e s. (cfgfs_delete_portid kernel (atoi e) s).1)
            (each_in subsystems (λ e s. (cfgfs_delete_subsys e s).1) s')) in
      go kernel (root s.dir) (if entered then s'' else s')

  -- `cfgfs_ops`
  unfoldable pub cfgfs_perform : Call → Process T → Bool × Process T
  unfolding cfgfs_delete_subsys cfgfs_delete_host cfgfs_create_host cfgfs_create_subsys
      cfgfs_create_ns cfgfs_delete_ns cfgfs_create_portid cfgfs_delete_portid
      cfgfs_link_host_to_subsys cfgfs_unlink_host_from_subsys cfgfs_link_port_to_subsys
      cfgfs_unlink_port_from_subsys cfgfs_reset_config
  cfgfs_perform (delete_subsys subsys) s = cfgfs_delete_subsys subsys s
  cfgfs_perform (delete_host host) s = cfgfs_delete_host kernel host s
  cfgfs_perform (create_host host) s = cfgfs_create_host kernel host s
  cfgfs_perform (create_subsys subsys allowany) s = cfgfs_create_subsys kernel subsys allowany s
  cfgfs_perform (create_ns subsys nsid devid devnsid) s =
      cfgfs_create_ns kernel subsys nsid devid devnsid s
  cfgfs_perform (delete_ns subsys nsid) s = cfgfs_delete_ns kernel subsys nsid s
  cfgfs_perform (create_portid portid fam typ req addr svcid) s =
      cfgfs_create_portid kernel portid fam typ req addr svcid s
  cfgfs_perform (delete_portid portid) s = cfgfs_delete_portid kernel portid s
  cfgfs_perform (link_host_to_subsys subsys host) s = cfgfs_link_host_to_subsys kernel subsys host s
  cfgfs_perform (unlink_host_from_subsys subsys host) s =
      cfgfs_unlink_host_from_subsys kernel subsys host s
  cfgfs_perform (link_port_to_subsys subsys portid) s =
      cfgfs_link_port_to_subsys kernel subsys portid s
  cfgfs_perform (unlink_port_from_subsys subsys portid) s =
      cfgfs_unlink_port_from_subsys kernel subsys portid s
  cfgfs_perform reset_config s = (true, cfgfs_reset_config s)

  abbrev pub cfgfs_ops : Ops (Process T)
  cfgfs_ops = record { perform = cfgfs_perform }
