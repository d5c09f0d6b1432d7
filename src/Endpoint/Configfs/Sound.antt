-- ===== src/Endpoint/Configfs/Sound.antt =====
-- Every operation of src/endpoint/configfs.c, against Spec.
use nvme_dem.Prelude.{Bool, true, [], ◌∷◌, CStr}
use nvme_dem.Endpoint.Configfs.Tree.{Kernel, Process, go, root, rmdir}
use nvme_dem.Endpoint.Configfs.Calls.{subsystems}
use nvme_dem.Endpoint.Configfs.Walk.{KeepsDirs}

module _ {T : Type 0} (kernel : Kernel T) (keeps : KeepsDirs kernel) where
  -- What is returned and left of the tree when the subsystem itself is removed.
  abbrev subsys_left : CStr → Process T → Bool × T
  subsys_left subsys s = (true, (rmdir kernel (subsys ∷ []) (go kernel (root subsystems) s)).tree)
