-- ===== src/Endpoint/Configfs/Served.antt =====
-- A request of src/endpoint/restful.c to a manager whose target is that of src/endpoint/configfs.c.
use nvme_dem.Prelude.{true, ◌≡◌, ◌⊎◌, ◌||◌}
use nvme_dem.Endpoint.Ops.{Call}
use nvme_dem.Endpoint.Rest.Answer.{Served}
use nvme_dem.Endpoint.Rest.Fair.{is_ok, is_void}
use nvme_dem.Endpoint.Configfs.Tree.{Kernel, Process}
use nvme_dem.Endpoint.Configfs.Spec.{carry_out}

module _ {T : Type 0} (kernel : Kernel T) where
  -- The process is as before, or one call was carried out on the tree alone; and it is in the directory
  -- in which it was, if that can be entered.
  abbrev pub IsServed : Process T → Served (Process T) → Type 0
  IsServed s a =
      ((a.target ≡ s)
        ⊎ ((c : Call) × (a.target.tree ≡ (carry_out kernel c s.tree).1)
            × (is_ok a.status ≡ ((carry_out kernel c s.tree).0 || is_void c))))
      × (kernel.is_dir s.dir a.target.tree ≡ true → a.target.dir ≡ s.dir)
