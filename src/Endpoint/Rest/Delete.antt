-- ===== src/Endpoint/Rest/Delete.antt =====
-- The DELETE requests of src/endpoint/restful.c.
use nvme_dem.Prelude.{List, [], ◌∷◌, ◌++◌, some, if◌then◌else◌, CStr, codes, streq}
use nvme_dem.Parse.Addr.{atoi}
use nvme_dem.Endpoint.Ops.{
  delete_subsys, delete_host, delete_ns, delete_portid, unlink_host_from_subsys,
  unlink_port_from_subsys, reset_config, Ops,
}
use nvme_dem.Endpoint.Rest.Json.{Jansson}
use nvme_dem.Endpoint.Rest.Answer.{ok, answer, bad_request, Reply, deleted}

module _ {S J : Type 0} (ops : Ops S) (json : Jansson J) where
  unfoldable pub del_portid : CStr → S → Reply ops json
  del_portid port s =
      deleted ops json (delete_portid (atoi port)) (codes "Unable to delete portid " ++ port)
        (codes "Deleted portid " ++ port) s

  unfoldable pub del_subsys : CStr → S → Reply ops json
  del_subsys subsys s =
      deleted ops json (delete_subsys subsys) (codes "Unable to delete subsys " ++ subsys)
        (codes "Deleted subsys " ++ subsys) s

  unfoldable pub del_ns : CStr → CStr → S → Reply ops json
  del_ns subsys ns s =
      deleted ops json (delete_ns subsys (atoi ns))
        (codes "Unable to delete ns " ++ (ns ++ (codes " from subsys " ++ subsys)))
        (codes "Deleted ns " ++ (ns ++ (codes " from subsys " ++ subsys))) s

  unfoldable pub del_host : CStr → S → Reply ops json
  del_host host s =
      deleted ops json (delete_host host) (codes "Unable to delete host " ++ host)
        (codes "Delete host " ++ host) s

  unfoldable pub unlink_host : CStr → CStr → S → Reply ops json
  unlink_host subsys host s =
      deleted ops json (unlink_host_from_subsys subsys host)
        (codes "Unable to delete host " ++ (host ++ (codes " from subsys " ++ subsys)))
        (codes "Deleted host " ++ (host ++ (codes " from subsys " ++ subsys))) s

  unfoldable pub unlink_portid : CStr → CStr → S → Reply ops json
  unlink_portid subsys portid s =
      deleted ops json (unlink_port_from_subsys subsys (atoi portid))
        (codes "Unable to delete port " ++ (portid ++ (codes " from subsys " ++ subsys)))
        (codes "Deleted port " ++ (portid ++ (codes " from subsys " ++ subsys))) s

  abbrev pub refuse : S → Reply ops json
  refuse s = some (bad_request s)

  -- `reset_config` returns nothing.
  unfoldable pub delete_request : List CStr → S → Reply ops json
  unfolding streq del_portid del_subsys del_ns del_host unlink_host unlink_portid bad_request
  delete_request (a ∷ []) s =
      if streq a (codes "config")
      then some (answer ok (codes "Target configuration deleted") (ops.perform reset_config s).1)
      else refuse s
  delete_request (a ∷ (b ∷ [])) s =
      if streq a (codes "subsystem")
      then del_subsys b s
      else if streq a (codes "portid")
      then del_portid b s
      else if streq a (codes "host")
      then del_host b s
      else refuse s
  delete_request (a ∷ (b ∷ (c ∷ (e ∷ [])))) s =
      if streq a (codes "subsystem")
      then (if streq c (codes "namespace")
          then del_ns b e s
          else if streq c (codes "portid")
          then unlink_portid b e s
          else if streq c (codes "host")
          then unlink_host b e s
          else refuse s)
      else refuse s
  delete_request ps s = refuse s
