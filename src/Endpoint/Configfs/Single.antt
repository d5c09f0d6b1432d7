-- ===== src/Endpoint/Configfs/Single.antt =====
-- The operations of src/endpoint/configfs.c on one object: they change the tree as Spec says.
use nvme_dem.Prelude.{
  ◌≡◌, inl, inr, refl, ap, ◌∙◌, Bool, true, false, List, [], ◌∷◌, ◌++◌, CStr, codes, ℤ, Bool-cases,
}
use nvme_dem.Endpoint.Ops.{
  create_host, create_subsys, create_ns, link_host_to_subsys, link_port_to_subsys, delete_host,
  delete_ns, unlink_host_from_subsys, unlink_port_from_subsys,
}
use nvme_dem.Endpoint.Configfs.Tree.{Kernel, Process, go, chdir, root}
use nvme_dem.Endpoint.Configfs.Calls.{
  subsystems, ports, hosts, is_made, ns_path, inside, cfgfs_create_subsys, cfgfs_create_ns,
  cfgfs_delete_ns, cfgfs_create_host, cfgfs_delete_host, cfgfs_link_host_to_subsys,
  cfgfs_unlink_host_from_subsys, cfgfs_link_port_to_subsys, cfgfs_unlink_port_from_subsys,
}
use nvme_dem.Endpoint.Configfs.Spec.{under, entered, carry_out}

module _ {T : Type 0} (kernel : Kernel T) where
  abbrev pub in_dir : List CStr → Bool → T → Process T
  in_dir d o t = record { dir = d; tree = t; overran = o }

  abbrev pub seen : Bool × Process T → Bool × T
  seen (r, s) = (r, s.tree)

  pub go_lem :
      (p : List CStr) (s : Process T)
      → go kernel (root p) s ≡ in_dir (entered kernel p s.dir s.tree) s.overran s.tree
  unfolding entered
  go_lem p s = elim (Bool-cases (kernel.is_dir p s.tree)) [
    | inl e ↦ rw (go, chdir, e) refl
    | inr e ↦ rw (go, chdir, e) refl
  ]

  pub go_tree : (p : List CStr) (s : Process T) → (go kernel (root p) s).tree ≡ s.tree
  go_tree p s = ap (λ z. z.tree) (go_lem p s)

  pub inside_lem :
      (p : List CStr) (failed : Bool) (body : Process T → Bool × Process T) (f : T → Bool × T)
      (s : Process T)
      → (kernel.is_dir p s.tree ≡ true → seen (body (record s { dir = p })) ≡ f s.tree)
      → seen (inside kernel p failed body s) ≡ under kernel p failed f s.tree
  unfolding inside under
  inside_lem p failed body f s k = elim (Bool-cases (kernel.is_dir p s.tree)) [
    | inl e ↦ rw e (
        ap (λ z. ((body (record s { dir = p })).0, z))
          (go_tree s.dir (body (record s { dir = p })).1)
        ∙ k e)
    | inr e ↦ rw e refl
  ]

  pub create_subsys-seen :
      (subsys : CStr) (allowany : ℤ) (s : Process T)
      → seen (cfgfs_create_subsys kernel subsys allowany s)
        ≡ carry_out kernel (create_subsys subsys allowany) s.tree
  unfolding cfgfs_create_subsys carry_out entered
  create_subsys-seen subsys allowany s = inside_lem subsystems false _ _ s (λ e.
      let p = subsystems ++ subsys ∷ [] in
      elim (Bool-cases (is_made (kernel.mkdir p s.tree).0)) [
        | inl k ↦ elim (Bool-cases (kernel.is_dir p (kernel.mkdir p s.tree).1)) [
          | inl m ↦ rw (k, go, chdir, m) refl
          | inr m ↦ rw (k, go, chdir, m) refl
        ]
        | inr k ↦ rw k refl
      ])

  pub create_ns-seen :
      (subsys : CStr) (nsid devid devnsid : ℤ) (s : Process T)
      → seen (cfgfs_create_ns kernel subsys nsid devid devnsid s)
        ≡ carry_out kernel (create_ns subsys nsid devid devnsid) s.tree
  unfolding cfgfs_create_ns carry_out entered
  create_ns-seen subsys nsid devid devnsid s = inside_lem subsystems false _ _ s (λ e.
      let p = subsystems ++ ns_path subsys nsid in
      elim (Bool-cases (is_made (kernel.mkdir p s.tree).0)) [
        | inl k ↦ elim (Bool-cases (kernel.is_dir p (kernel.mkdir p s.tree).1)) [
          | inl m ↦ rw (k, go, chdir, m) refl
          | inr m ↦ rw (k, go, chdir, m) refl
        ]
        | inr k ↦ rw k refl
      ])

  pub delete_ns-seen :
      (subsys : CStr) (nsid : ℤ) (s : Process T)
      → seen (cfgfs_delete_ns kernel subsys nsid s)
        ≡ carry_out kernel (delete_ns subsys nsid) s.tree
  unfolding cfgfs_delete_ns carry_out entered
  delete_ns-seen subsys nsid s = inside_lem subsystems true _ _ s (λ e.
      let p = subsystems ++ ns_path subsys nsid in
      let t = kernel.write (p ++ codes "enable" ∷ []) (codes "0") s.tree in
      elim (Bool-cases (kernel.is_dir p s.tree)) [
        | inl k ↦ elim (Bool-cases (kernel.is_dir subsystems t)) [
          | inl m ↦ rw (chdir, k, go, m) refl
          | inr m ↦ rw (chdir, k, go, m) refl
        ]
        | inr k ↦ rw (chdir, k) refl
      ])

  pub create_host-seen :
      (host : CStr) (s : Process T)
      → seen (cfgfs_create_host kernel host s) ≡ carry_out kernel (create_host host) s.tree
  unfolding cfgfs_create_host carry_out
  create_host-seen host s = inside_lem hosts false _ _ s (λ e.
      elim (Bool-cases (is_made (kernel.mkdir (hosts ++ host ∷ []) s.tree).0)) [
        | inl k ↦ rw k refl
        | inr k ↦ rw k refl
      ])

  pub delete_host-seen :
      (host : CStr) (s : Process T)
      → seen (cfgfs_delete_host kernel host s) ≡ carry_out kernel (delete_host host) s.tree
  unfolding cfgfs_delete_host carry_out
  delete_host-seen host s = inside_lem hosts true _ _ s (λ e. refl)

  pub link_host-seen :
      (subsys host : CStr) (s : Process T)
      → seen (cfgfs_link_host_to_subsys kernel subsys host s)
        ≡ carry_out kernel (link_host_to_subsys subsys host) s.tree
  unfolding cfgfs_link_host_to_subsys carry_out
  link_host-seen subsys host s = inside_lem subsystems false _ _ s (λ e. refl)

  pub unlink_host-seen :
      (subsys host : CStr) (s : Process T)
      → seen (cfgfs_unlink_host_from_subsys kernel subsys host s)
        ≡ carry_out kernel (unlink_host_from_subsys subsys host) s.tree
  unfolding cfgfs_unlink_host_from_subsys carry_out
  unlink_host-seen subsys host s = inside_lem subsystems false _ _ s (λ e. refl)

  pub link_port-seen :
      (subsys : CStr) (portid : ℤ) (s : Process T)
      → seen (cfgfs_link_port_to_subsys kernel subsys portid s)
        ≡ carry_out kernel (link_port_to_subsys subsys portid) s.tree
  unfolding cfgfs_link_port_to_subsys carry_out
  link_port-seen subsys portid s = inside_lem ports false _ _ s (λ e. refl)

  pub unlink_port-seen :
      (subsys : CStr) (portid : ℤ) (s : Process T)
      → seen (cfgfs_unlink_port_from_subsys kernel subsys portid s)
        ≡ carry_out kernel (unlink_port_from_subsys subsys portid) s.tree
  unfolding cfgfs_unlink_port_from_subsys carry_out
  unlink_port-seen subsys portid s = inside_lem ports false _ _ s (λ e. refl)
