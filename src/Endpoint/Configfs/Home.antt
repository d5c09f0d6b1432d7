-- ===== src/Endpoint/Configfs/Home.antt =====
-- The directory in which the operations of src/endpoint/configfs.c end.
use nvme_dem.Prelude.{arith, ◌≡◌, inl, inr, refl, Bool, true, false, List, CStr, Bool-cases}
use nvme_dem.Endpoint.Ops.{
  Call, create_host, create_subsys, create_ns, create_portid, link_host_to_subsys,
  link_port_to_subsys, delete_host, delete_ns, delete_portid, unlink_host_from_subsys,
  unlink_port_from_subsys, delete_subsys, reset_config,
}
use nvme_dem.Endpoint.Configfs.Tree.{Kernel, Process, go, chdir, root}
use nvme_dem.Endpoint.Configfs.Calls.{
  inside, cfgfs_create_subsys, cfgfs_create_ns, cfgfs_delete_ns, cfgfs_create_host,
  cfgfs_delete_host, cfgfs_create_portid, cfgfs_delete_portid, cfgfs_link_host_to_subsys,
  cfgfs_unlink_host_from_subsys, cfgfs_link_port_to_subsys, cfgfs_unlink_port_from_subsys,
}
use nvme_dem.Endpoint.Configfs.Reset.{cfgfs_delete_subsys, cfgfs_reset_config, cfgfs_perform}

module _ {T : Type 0} (kernel : Kernel T) where
  -- A process is in this directory if it can be entered.
  abbrev IsHome : List CStr → Process T → Type 0
  IsHome d s = kernel.is_dir d s.tree ≡ true → s.dir ≡ d

  go-IsHome : (d : List CStr) (s : Process T) → IsHome d (go kernel (root d) s)
  go-IsHome d s = elim (Bool-cases (kernel.is_dir d s.tree)) [
    | inl e ↦ rw (go, chdir, e) (λ k. refl)
    | inr e ↦ rw (go, chdir, e) (λ k. absurd (ground arith))
  ]

  inside-IsHome :
      (p : List CStr) (failed : Bool) (body : Process T → Bool × Process T) (s : Process T)
      → IsHome s.dir (inside kernel p failed body s).1
  unfolding inside
  inside-IsHome p failed body s = elim (Bool-cases (kernel.is_dir p s.tree)) [
    | inl e ↦ rw (chdir, e) (go-IsHome s.dir (body (record s { dir = p })).1)
    | inr e ↦ rw (chdir, e) (λ k. refl)
  ]

  pub perform-IsHome : (c : Call) (s : Process T) → IsHome s.dir (cfgfs_perform kernel c s).1
  unfolding cfgfs_perform cfgfs_delete_subsys cfgfs_delete_host cfgfs_create_host
      cfgfs_create_subsys cfgfs_create_ns cfgfs_delete_ns cfgfs_create_portid cfgfs_delete_portid
      cfgfs_link_host_to_subsys cfgfs_unlink_host_from_subsys cfgfs_link_port_to_subsys
      cfgfs_unlink_port_from_subsys cfgfs_reset_config
  perform-IsHome (delete_subsys subsys) s = inside-IsHome _ true _ s
  perform-IsHome (delete_host host) s = inside-IsHome _ true _ s
  perform-IsHome (create_host host) s = inside-IsHome _ false _ s
  perform-IsHome (create_subsys subsys allowany) s = inside-IsHome _ false _ s
  perform-IsHome (create_ns subsys nsid devid devnsid) s = inside-IsHome _ false _ s
  perform-IsHome (delete_ns subsys nsid) s = inside-IsHome _ true _ s
  perform-IsHome (create_portid portid fam typ req addr svcid) s = inside-IsHome _ false _ s
  perform-IsHome (delete_portid portid) s = inside-IsHome _ true _ s
  perform-IsHome (link_host_to_subsys subsys host) s = inside-IsHome _ false _ s
  perform-IsHome (unlink_host_from_subsys subsys host) s = inside-IsHome _ false _ s
  perform-IsHome (link_port_to_subsys subsys portid) s = inside-IsHome _ false _ s
  perform-IsHome (unlink_port_from_subsys subsys portid) s = inside-IsHome _ false _ s
  perform-IsHome reset_config s = go-IsHome s.dir _
