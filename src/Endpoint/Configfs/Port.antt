-- ===== src/Endpoint/Configfs/Port.antt =====
-- The operations of src/endpoint/configfs.c on a port: they change the tree as Spec says.
use nvme_dem.Prelude.{
  ◌≡◌, refl, inl, inr, Bool, Bool-cases, ap, ◌∙◌, true, false, List, [], ◌∷◌, ◌++◌, Option, none,
  some, take, CStr, codes, streq, ◌&&◌, ℤ,
}
use nvme_dem.Parse.Decimal.{print_int}
use nvme_dem.Endpoint.Ops.{create_portid, delete_portid}
use nvme_dem.Endpoint.Configfs.Tree.{
  at, Process, Made, new, existing, unmade, Kernel, go, chdir, rmdir, without_newline,
}
use nvme_dem.Endpoint.Configfs.Calls.{
  ports, short, attributes, read_back, write_all, set_port, remove_all, drop_port,
  cfgfs_create_portid, cfgfs_delete_portid,
}
use nvme_dem.Endpoint.Configfs.Spec.{
  entered, written, holds, port_made, removed, port_dropped, carry_out,
}
use nvme_dem.Endpoint.Configfs.Single.{in_dir, seen, inside_lem}

module _ {T : Type 0} (kernel : Kernel T) where
  write_all_lem :
      (p : List CStr) (o : Bool) (as_ : List (CStr × CStr)) (t : T)
      → write_all kernel as_ (in_dir kernel p o t) ≡ in_dir kernel p o (written kernel p as_ t)
  write_all_lem p o [] t = refl
  write_all_lem p o (a ∷ as_) t = write_all_lem p o as_ (kernel.write (p ++ a.0 ∷ []) a.1 t)

  read_back_lem :
      (p : List CStr) (o : Bool) (as_ : List (CStr × CStr)) (t : T)
      → read_back kernel as_ (in_dir kernel p o t) ≡ holds kernel p as_ t
  read_back_lem p o [] t = refl
  read_back_lem p o (a ∷ as_) t =
      ap (λ b. streq (without_newline (take 62 (kernel.read (p ++ a.0 ∷ []) t))) a.1 && b)
        (read_back_lem p o as_ t)

  go_at_lem :
      (str : CStr) (o : Bool) (t : T)
      → go kernel (at (str ∷ [])) (in_dir kernel ports o t)
        ≡ in_dir kernel (entered kernel (ports ++ str ∷ []) ports t) o t
  unfolding entered
  go_at_lem str o t = elim (Bool-cases (kernel.is_dir (ports ++ str ∷ []) t)) [
    | inl e ↦ rw (go, chdir, e) refl
    | inr e ↦ rw (go, chdir, e) refl
  ]

  set_port-seen :
      (m : Made) (str : CStr) (o : Bool) (as_ : List (CStr × CStr)) (t : T)
      → seen kernel (set_port kernel m str as_ (in_dir kernel ports o t))
        ≡ port_made kernel (ports ++ str ∷ []) as_ (m, t)
  unfolding port_made
  set_port-seen unmade str o as_ t = refl
  set_port-seen new str o as_ t =
      let d = entered kernel (ports ++ str ∷ []) ports t in
      ap (λ s. (true, (write_all kernel as_ s).tree)) (go_at_lem str o t)
      ∙ ap (λ s. (true, s.tree)) (write_all_lem d o as_ t)
  set_port-seen existing str o as_ t =
      let d = entered kernel (ports ++ str ∷ []) ports t in
      ap (λ s. (read_back kernel as_ (write_all kernel as_ s), (write_all kernel as_ s).tree))
        (go_at_lem str o t)
      ∙ ap (λ s. (read_back kernel as_ s, s.tree)) (write_all_lem d o as_ t)
      ∙ ap (λ b. (b, written kernel d as_ t)) (read_back_lem d o as_ (written kernel d as_ t))

  pub create_portid-seen :
      (portid : ℤ) (fam typ : CStr) (req : ℤ) (addr : CStr) (svcid : ℤ) (s : Process T)
      → seen kernel (cfgfs_create_portid kernel portid fam typ req addr svcid s)
        ≡ carry_out kernel (create_portid portid fam typ req addr svcid) s.tree
  unfolding cfgfs_create_portid carry_out
  create_portid-seen portid fam typ req addr svcid s =
      let p = ports ++ short portid ∷ [] in
      inside_lem kernel ports false _ _ s (λ e.
        set_port-seen (kernel.mkdir p s.tree).0 (short portid) s.overran
          (attributes fam typ req addr svcid) (kernel.mkdir p s.tree).1)

  remove_all_lem :
      (str : CStr) (o : Bool) (es : List CStr) (t : T)
      → remove_all kernel (str ∷ codes "subsystems" ∷ []) es (in_dir kernel ports o t)
        ≡ in_dir kernel ports o (removed kernel (ports ++ str ∷ codes "subsystems" ∷ []) es t)
  remove_all_lem str o [] t = refl
  remove_all_lem str o (e ∷ es) t =
      remove_all_lem str o es (kernel.remove (ports ++ str ∷ codes "subsystems" ∷ e ∷ []) t).1

  drop_port-seen :
      (portid : ℤ) (found : Option (List CStr)) (o : Bool) (t : T)
      → (drop_port kernel portid found (in_dir kernel ports o t)).tree
        ≡ port_dropped kernel (ports ++ print_int portid ∷ []) found t
  drop_port-seen portid none o t = refl
  drop_port-seen portid (some es) o t =
      ap (λ s. (rmdir kernel (print_int portid ∷ []) s).tree)
        (remove_all_lem (print_int portid) o es t)

  pub delete_portid-seen :
      (portid : ℤ) (s : Process T)
      → seen kernel (cfgfs_delete_portid kernel portid s)
        ≡ carry_out kernel (delete_portid portid) s.tree
  unfolding cfgfs_delete_portid carry_out
  delete_portid-seen portid s = inside_lem kernel ports true _ _ s (λ e.
      ap (λ z. (true, z))
        (drop_port-seen portid
          (kernel.list (ports ++ print_int portid ∷ codes "subsystems" ∷ []) s.tree) s.overran
          s.tree))
