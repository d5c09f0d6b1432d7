-- ===== src/Endpoint/Configfs/Calls.antt =====
-- The operations of src/endpoint/configfs.c. The result says whether 0 is returned.
use nvme_dem.Prelude.{
  Bool, true, false, List, [], ◌∷◌, ◌++◌, Option, none, some, take, if◌then◌else◌, CStr, codes,
  streq, ◌&&◌, ℤ, pos, eqb_ℤ,
}
use nvme_dem.Dem.Config.Oob.{path}
use nvme_dem.Parse.Decimal.{print_int}
use nvme_dem.Inb.Build.{nullb_devid}
use nvme_dem.Endpoint.Configfs.Tree.{
  Made, new, existing, unmade, Removed, stuck, Kernel, root, at, up, Process, chdir, go, rmdir,
  write_str, read_str, mkdir, remove, symlink, from_root, printing,
}

-- CFS_PATH and the three directories in it
abbrev pub cfs_path : List CStr
cfs_path = codes "sys" ∷ codes "kernel" ∷ codes "config" ∷ codes "nvmet" ∷ []

abbrev pub subsystems : List CStr
subsystems = cfs_path ++ codes "subsystems" ∷ []

abbrev pub ports : List CStr
ports = cfs_path ++ codes "ports" ∷ []

abbrev pub hosts : List CStr
hosts = cfs_path ++ codes "hosts" ∷ []

-- EEXIST is no failure.
abbrev pub is_made : Made → Bool
is_made unmade = false
is_made m = true

-- ENOENT is no failure.
abbrev pub is_removed : Removed → Bool
is_removed stuck = false
is_removed r = true

abbrev pub ns_path : CStr → ℤ → List CStr
ns_path subsys nsid = subsys ∷ codes "namespaces" ∷ print_int nsid ∷ []

-- NULL_BLK_DEVICE or NVME_DEVICE
abbrev pub device_path : ℤ → ℤ → CStr
device_path devid devnsid =
    if eqb_ℤ devid nullb_devid
    then codes "/dev/nullb0"
    else codes "/dev/nvme" ++ (print_int devid ++ (codes "n" ++ print_int devnsid))

abbrev pub any_host : ℤ → CStr
any_host allowany = if eqb_ℤ allowany (pos 0) then codes "0" else codes "1"

abbrev pub treq_text : ℤ → CStr
treq_text req =
    if eqb_ℤ req (pos 1)
    then codes "required"
    else if eqb_ℤ req (pos 2)
    then codes "not required"
    else codes "not specified"

-- A number printed into `str`, of which six digits are kept.
abbrev pub short : ℤ → CStr
short z = take 6 (print_int z)

-- The files of a port and what is written to them.
abbrev pub attributes : CStr → CStr → ℤ → CStr → ℤ → List (CStr × CStr)
attributes fam typ req addr svcid =
    (codes "addr_adrfam", fam)
    ∷ (codes "addr_trtype", typ)
    ∷ (codes "addr_traddr", addr)
    ∷ (codes "addr_treq", treq_text req)
    ∷ (codes "addr_trsvcid", short svcid)
    ∷ []

module _ {T : Type 0} (kernel : Kernel T) where
  -- An operation changes to a directory, fails or gives up where it cannot, and changes back.
  unfoldable pub inside :
      List CStr → Bool → (Process T → Bool × Process T) → Process T → Bool × Process T
  inside p failed body s =
      let (entered, s') = chdir kernel (root p) s in
      let (done, s'') = body s' in
      if entered then (done, go kernel (root s.dir) s'') else (failed, s)

  abbrev pub opendir : List CStr → Process T → Option (List CStr)
  opendir p s = kernel.list (s.dir ++ p) s.tree

  unfoldable pub cfgfs_create_subsys : CStr → ℤ → Process T → Bool × Process T
  cfgfs_create_subsys subsys allowany s =
      inside subsystems false
        (λ s.
          let (m, s') = mkdir kernel (subsys ∷ []) s in
          if is_made m
          then (
            true,
            write_str kernel (codes "attr_allow_any_host") (any_host allowany)
                (go kernel (at (subsys ∷ [])) s'),
          )
          else (false, s'))
        s

  unfoldable pub cfgfs_create_ns : CStr → ℤ → ℤ → ℤ → Process T → Bool × Process T
  cfgfs_create_ns subsys nsid devid devnsid s =
      let p = ns_path subsys nsid in
      inside subsystems false
        (printing kernel (path p ∷ []) (λ s.
          let (m, s') = mkdir kernel p s in
          if is_made m
          then (
            true,
            write_str kernel (codes "enable") (codes "1") (
                write_str kernel (codes "device_path") (device_path devid devnsid)
                  (go kernel (at p) s')),
          )
          else (false, s')))
        s

  unfoldable pub cfgfs_delete_ns : CStr → ℤ → Process T → Bool × Process T
  cfgfs_delete_ns subsys nsid s =
      let p = ns_path subsys nsid in
      inside subsystems true
        (printing kernel (path p ∷ []) (λ s.
          let (entered, s') = chdir kernel (at p) s in
          if entered
          then (
            true,
            rmdir kernel p (go kernel (up 3) (write_str kernel (codes "enable") (codes "0") s')),
          )
          else (true, s')))
        s

  unfoldable pub cfgfs_create_host : CStr → Process T → Bool × Process T
  cfgfs_create_host host s =
      inside hosts false (λ s. let (m, s') = mkdir kernel (host ∷ []) s in (is_made m, s')) s

  unfoldable pub cfgfs_delete_host : CStr → Process T → Bool × Process T
  cfgfs_delete_host host s = inside hosts true (λ s. (true, rmdir kernel (host ∷ []) s)) s

  abbrev pub write_all : List (CStr × CStr) → Process T → Process T
  write_all [] s = s
  write_all (a ∷ as_) s = write_all as_ (write_str kernel a.0 a.1 s)

  abbrev pub read_back : List (CStr × CStr) → Process T → Bool
  read_back [] s = true
  read_back (a ∷ as_) s = streq (read_str kernel a.0 s) a.1 && read_back as_ s

  -- A port that was there is taken if every attribute reads as it was written; else it is busy.
  abbrev pub set_port : Made → CStr → List (CStr × CStr) → Process T → Bool × Process T
  set_port unmade str as_ s = (false, s)
  set_port new str as_ s = (true, write_all as_ (go kernel (at (str ∷ [])) s))
  set_port existing str as_ s =
      let s' = write_all as_ (go kernel (at (str ∷ [])) s) in (read_back as_ s', s')

  unfoldable pub cfgfs_create_portid : ℤ → CStr → CStr → ℤ → CStr → ℤ → Process T → Bool × Process T
  unfolding streq
  cfgfs_create_portid portid fam typ req addr svcid s =
      inside ports false
        (λ s.
          let (m, s') = mkdir kernel (short portid ∷ []) s in
          set_port m (short portid) (attributes fam typ req addr svcid) s')
        s

  abbrev pub remove_all : List CStr → List CStr → Process T → Process T
  remove_all p [] s = s
  remove_all p (e ∷ es) s = remove_all p es (remove kernel (p ++ e ∷ []) s).1

  abbrev pub drop_port : ℤ → Option (List CStr) → Process T → Process T
  drop_port portid none s = s
  drop_port portid (some es) s =
      rmdir kernel (print_int portid ∷ [])
        (remove_all (print_int portid ∷ codes "subsystems" ∷ []) es s)

  unfoldable pub cfgfs_delete_portid : ℤ → Process T → Bool × Process T
  cfgfs_delete_portid portid s =
      inside ports true
        (λ s. (true, drop_port portid (opendir (print_int portid ∷ codes "subsystems" ∷ []) s) s)) s

  abbrev pub linked : List CStr → List CStr → Process T → Bool × Process T
  linked p link s = let (m, s') = symlink kernel p link s in (is_made m, s')

  abbrev pub unlinked : List CStr → Process T → Bool × Process T
  unlinked p s = let (r, s') = remove kernel p s in (is_removed r, s')

  unfoldable pub cfgfs_link_host_to_subsys : CStr → CStr → Process T → Bool × Process T
  cfgfs_link_host_to_subsys subsys host s =
      inside subsystems false
        (printing kernel
          (from_root (hosts ++ host ∷ []) ∷ path (subsys ∷ codes "allowed_hosts" ∷ host ∷ []) ∷ [])
          (linked (hosts ++ host ∷ []) (subsys ∷ codes "allowed_hosts" ∷ host ∷ [])))
        s

  unfoldable pub cfgfs_unlink_host_from_subsys : CStr → CStr → Process T → Bool × Process T
  cfgfs_unlink_host_from_subsys subsys host s =
      inside subsystems false
        (printing kernel (path (subsys ∷ codes "allowed_hosts" ∷ host ∷ []) ∷ [])
          (unlinked (subsys ∷ codes "allowed_hosts" ∷ host ∷ [])))
        s

  unfoldable pub cfgfs_link_port_to_subsys : CStr → ℤ → Process T → Bool × Process T
  cfgfs_link_port_to_subsys subsys portid s =
      inside ports false
        (printing kernel
          (from_root (subsystems ++ subsys ∷ [])
            ∷ path (print_int portid ∷ codes "subsystems" ∷ subsys ∷ [])
            ∷ [])
          (linked (subsystems ++ subsys ∷ [])
            (print_int portid ∷ codes "subsystems" ∷ subsys ∷ [])))
        s

  unfoldable pub cfgfs_unlink_port_from_subsys : CStr → ℤ → Process T → Bool × Process T
  cfgfs_unlink_port_from_subsys subsys portid s =
      inside ports false
        (printing kernel (path (print_int portid ∷ codes "subsystems" ∷ subsys ∷ []) ∷ [])
          (unlinked (print_int portid ∷ codes "subsystems" ∷ subsys ∷ [])))
        s
