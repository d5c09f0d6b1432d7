-- ===== src/Endpoint/Configfs/Walk.antt =====
-- What src/endpoint/configfs.c does where it walks the directories of a subsystem.
use nvme_dem.Prelude.{
  Bool, ◌≡◌, inl, inr, refl, ap, ◌∙◌, true, List, [], ◌∷◌, ◌++◌, Option, none, some, CStr, codes,
  streq, Bool-cases,
}
use nvme_dem.Endpoint.Configfs.Tree.{Kernel, Process, go, chdir}
use nvme_dem.Endpoint.Configfs.Calls.{cfs_path, subsystems}
use nvme_dem.Endpoint.Configfs.Reset.{
  disable_ns, unlink_ports, unlink_ports_of, each_entry, for_each_dir, delete_all_allowed_hosts,
  delete_all_ns, unlink_port, unlink_all_ports,
}
use nvme_dem.Endpoint.Configfs.Spec.{
  entered, one_by_one, links_dropped, each_of_dir, all_dropped, ns_disabled, link_dropped,
}
use nvme_dem.Endpoint.Configfs.Single.{in_dir, go_lem}

module _ {T : Type 0} (kernel : Kernel T) where
  -- Each of these namespaces can be entered when its turn comes, and its subsystem after it was disabled.
  abbrev pub Enters : List CStr → List CStr → T → Type 0
  Enters p [] t = Unit
  Enters p (e ∷ es) t =
      let q = p ++ codes "namespaces" ∷ [] in
      (kernel.is_dir (q ++ e ∷ []) t ≡ true)
      × (kernel.is_dir p (kernel.write (q ++ e ∷ codes "enable" ∷ []) (codes "0") t) ≡ true)
      × Enters p es (ns_disabled kernel q e t)

  -- A subsystem's directory of namespaces holds directories, which stay while others are removed.
  abbrev pub KeepsDirs : Type 0
  KeepsDirs =
      (subsys : CStr) (es : List CStr) (t : T)
      → kernel.list (subsystems ++ subsys ∷ codes "namespaces" ∷ []) t ≡ some es
      → Enters (subsystems ++ subsys ∷ []) es t

  each_lem :
      (d : List CStr) (o : Bool) (f : CStr → Process T → Process T) (g : CStr → T → T)
      (found : Option (List CStr)) (t : T)
      → ((e : CStr) (t : T) → f e (in_dir kernel d o t) ≡ in_dir kernel d o (g e t))
      → for_each_dir kernel f found (in_dir kernel d o t)
        ≡ in_dir kernel d o (each_of_dir kernel g found t)
  each_lem d o f g none t h = refl
  each_lem d o f g (some []) t h = refl
  each_lem d o f g (some (e ∷ es)) t h =
      ap (each_entry kernel f es) (h e t) ∙ each_lem d o f g (some es) (g e t) h

  -- The tree alone, where an entry may be handled in another directory.
  pub each-tree :
      (f : CStr → Process T → Process T) (g : CStr → T → T) (found : Option (List CStr))
      (s : Process T)
      → ((e : CStr) (s : Process T) → (f e s).tree ≡ g e s.tree)
      → (for_each_dir kernel f found s).tree ≡ each_of_dir kernel g found s.tree
  each-tree f g none s h = refl
  each-tree f g (some []) s h = refl
  each-tree f g (some (e ∷ es)) s h =
      each-tree f g (some es) (f e s) h ∙ ap (one_by_one kernel g es) (h e s)

  pub allowed_hosts-seen :
      (subsys : CStr) (o : Bool) (t : T)
      → let p = subsystems ++ subsys ∷ [] in
        delete_all_allowed_hosts kernel (in_dir kernel p o t)
        ≡ in_dir kernel p o (
            all_dropped kernel
              (p ++ codes "allowed_hosts" ∷ [])
              (λ e t. (kernel.remove (p ++ codes "allowed_hosts" ∷ e ∷ []) t).1)
              t)
  unfolding delete_all_allowed_hosts
  allowed_hosts-seen subsys o t =
      let p = subsystems ++ subsys ∷ [] in
      each_lem p o _ (λ e t. (kernel.remove (p ++ codes "allowed_hosts" ∷ e ∷ []) t).1)
        (kernel.list (p ++ codes "allowed_hosts" ∷ []) t) t (λ e t. refl)

  unlink_entry-seen :
      (d : List CStr) (o : Bool) (subsys port e : CStr) (t : T)
      → unlink_port kernel subsys port e (in_dir kernel d o t)
        ≡ in_dir kernel d o (link_dropped kernel d subsys port e t)
  unlink_entry-seen d o subsys port e t = elim (Bool-cases (streq e subsys)) [
    | inl k ↦ rw k refl
    | inr k ↦ rw k refl
  ]

  pub unlink_all_ports-seen :
      (subsys : CStr) (s : Process T)
      → let d = entered kernel cfs_path s.dir s.tree in
        unlink_all_ports kernel subsys s
        ≡ in_dir kernel d s.overran
            (all_dropped kernel (d ++ codes "ports" ∷ []) (links_dropped kernel d subsys) s.tree)
  unfolding unlink_all_ports
  unlink_all_ports-seen subsys s =
      let d = entered kernel cfs_path s.dir s.tree in
      ap (unlink_ports kernel subsys) (go_lem kernel cfs_path s)
      ∙ each_lem d s.overran (unlink_ports_of kernel subsys) (links_dropped kernel d subsys)
          (kernel.list (d ++ codes "ports" ∷ []) s.tree) s.tree
          (λ port t.
            each_lem d s.overran (unlink_port kernel subsys port)
              (link_dropped kernel d subsys port)
              (kernel.list (d ++ codes "ports" ∷ port ∷ codes "subsystems" ∷ []) t) t
              (unlink_entry-seen d s.overran subsys port))

  disable_ns-seen :
      (subsys : CStr) (o : Bool) (es : List CStr) (t : T)
      → let p = subsystems ++ subsys ∷ [] in
        Enters p es t
        → each_entry kernel (disable_ns kernel) es (in_dir kernel p o t)
          ≡ in_dir kernel p o
              (one_by_one kernel (ns_disabled kernel (p ++ codes "namespaces" ∷ [])) es t)
  disable_ns-seen subsys o [] t h = refl
  disable_ns-seen subsys o (e ∷ es) t h =
      rw (go, chdir, h.0, h.1) (disable_ns-seen subsys o es _ h.2)

  opened-seen :
      (subsys : CStr) (o : Bool) (found : Option (List CStr)) (t : T)
      → let p = subsystems ++ subsys ∷ [] in
        ((es : List CStr) → found ≡ some es → Enters p es t)
        → for_each_dir kernel (disable_ns kernel) found (in_dir kernel p o t)
          ≡ in_dir kernel p o
              (each_of_dir kernel (ns_disabled kernel (p ++ codes "namespaces" ∷ [])) found t)
  opened-seen subsys o none t h = refl
  opened-seen subsys o (some es) t h = disable_ns-seen subsys o es t (h es refl)

  pub delete_all_ns-seen :
      (subsys : CStr) (o : Bool) (t : T)
      → KeepsDirs
      → let p = subsystems ++ subsys ∷ [] in
        let q = p ++ codes "namespaces" ∷ [] in
        delete_all_ns kernel (in_dir kernel p o t)
        ≡ in_dir kernel p o (all_dropped kernel q (ns_disabled kernel q) t)
  unfolding delete_all_ns
  delete_all_ns-seen subsys o t h =
      opened-seen subsys o (kernel.list (subsystems ++ subsys ∷ codes "namespaces" ∷ []) t) t
        (λ es e. h subsys es t e)
