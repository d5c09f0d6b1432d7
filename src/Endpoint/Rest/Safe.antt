-- ===== src/Endpoint/Rest/Safe.antt =====
-- The other requests of src/endpoint/restful.c, and `handle_http_request`, make at most one call.
use nvme_dem.Prelude.{
  inl, inr, refl, List, [], ◌∷◌, some, ltb, length, if◌then◌else◌, CStr, codes, streq, Bool-cases,
}
use nvme_dem.Parse.Addr.{atoi}
use nvme_dem.Endpoint.Ops.{
  delete_subsys, delete_host, delete_ns, delete_portid, unlink_host_from_subsys,
  unlink_port_from_subsys, reset_config, Ops,
}
use nvme_dem.Endpoint.Report.{NsDev, Iface}
use nvme_dem.Endpoint.Rest.Uri.{parse_uri}
use nvme_dem.Endpoint.Rest.Json.{Jansson}
use nvme_dem.Endpoint.Rest.Answer.{ok, http, answer, bad_request}
use nvme_dem.Endpoint.Rest.Delete.{
  del_portid, del_subsys, del_ns, del_host, unlink_host, unlink_portid, delete_request,
}
use nvme_dem.Endpoint.Rest.Serve.{
  get_nsdev, get_interface, HttpMessage, max_depth, get_request, handle_target_requests,
  handle_parts, handle_http_request,
}
use nvme_dem.Endpoint.Rest.Fair.{IsFair, bad-IsFair, kept-IsFair, deleted-IsFair, if-IsFair}
use nvme_dem.Endpoint.Rest.Posted.{post_request-IsFair}

module _ {S J : Type 0} (ops : Ops S) (json : Jansson J) where
  reset-IsFair :
      (resp : CStr) (s : S)
      → IsFair ops json s (some (answer ok resp (ops.perform reset_config s).1))
  unfolding IsFair
  reset-IsFair resp s = elim (Bool-cases (ops.perform reset_config s).0) [
    | inl e ↦ inr (reset_config, refl, rw e refl)
    | inr e ↦ inr (reset_config, refl, rw e refl)
  ]

  del_portid-IsFair : (port : CStr) (s : S) → IsFair ops json s (del_portid ops json port s)
  unfolding del_portid
  del_portid-IsFair port s = deleted-IsFair ops json (delete_portid (atoi port)) _ _ s refl

  del_subsys-IsFair : (subsys : CStr) (s : S) → IsFair ops json s (del_subsys ops json subsys s)
  unfolding del_subsys
  del_subsys-IsFair subsys s = deleted-IsFair ops json (delete_subsys subsys) _ _ s refl

  del_ns-IsFair : (subsys ns : CStr) (s : S) → IsFair ops json s (del_ns ops json subsys ns s)
  unfolding del_ns
  del_ns-IsFair subsys ns s = deleted-IsFair ops json (delete_ns subsys (atoi ns)) _ _ s refl

  del_host-IsFair : (host : CStr) (s : S) → IsFair ops json s (del_host ops json host s)
  unfolding del_host
  del_host-IsFair host s = deleted-IsFair ops json (delete_host host) _ _ s refl

  unlink_host-IsFair :
      (subsys host : CStr) (s : S) → IsFair ops json s (unlink_host ops json subsys host s)
  unfolding unlink_host
  unlink_host-IsFair subsys host s =
      deleted-IsFair ops json (unlink_host_from_subsys subsys host) _ _ s refl

  unlink_portid-IsFair :
      (subsys portid : CStr) (s : S) → IsFair ops json s (unlink_portid ops json subsys portid s)
  unfolding unlink_portid
  unlink_portid-IsFair subsys portid s =
      deleted-IsFair ops json (unlink_port_from_subsys subsys (atoi portid)) _ _ s refl

  delete_request-IsFair :
      (ps : List CStr) (s : S) → IsFair ops json s (delete_request ops json ps s)
  unfolding delete_request
  delete_request-IsFair [] s = bad-IsFair ops json s
  delete_request-IsFair (a ∷ []) s =
      if-IsFair ops json (streq a (codes "config")) s
        (some (answer ok (codes "Target configuration deleted") (ops.perform reset_config s).1))
        (some (bad_request s)) (reset-IsFair _ s) (bad-IsFair ops json s)
  delete_request-IsFair (a ∷ (b ∷ [])) s = if-IsFair ops json _ s _ _ (del_subsys-IsFair b s) (
      if-IsFair ops json _ s _ _ (del_portid-IsFair b s)
        (if-IsFair ops json _ s _ _ (del_host-IsFair b s) (bad-IsFair ops json s)))
  delete_request-IsFair (a ∷ (b ∷ (c ∷ []))) s = bad-IsFair ops json s
  delete_request-IsFair (a ∷ (b ∷ (c ∷ (e ∷ [])))) s =
      if-IsFair ops json _ s _ _
        (if-IsFair ops json _ s _ _ (del_ns-IsFair b e s) (
          if-IsFair ops json _ s _ _ (unlink_portid-IsFair b e s)
            (if-IsFair ops json _ s _ _ (unlink_host-IsFair b e s) (bad-IsFair ops json s))))
        (bad-IsFair ops json s)
  delete_request-IsFair (a ∷ (b ∷ (c ∷ (e ∷ (f ∷ ps))))) s = bad-IsFair ops json s

module _ {S J : Type 0} (ops : Ops S) (json : Jansson J) (devices : List NsDev)
    (interfaces : List Iface) where
  get_request-IsFair :
      (ps : List CStr) (s : S) → IsFair ops json s (get_request ops json devices interfaces ps s)
  unfolding get_request
  get_request-IsFair [] s = bad-IsFair ops json s
  get_request-IsFair (a ∷ []) s =
      if-IsFair ops json (streq a (codes "nsdev")) s (some (answer ok (get_nsdev devices) s))
        (if streq a (codes "interface")
          then some (answer ok (get_interface interfaces) s)
          else some (bad_request s))
        (kept-IsFair ops json _ _ refl)
        (if-IsFair ops json (streq a (codes "interface")) s
          (some (answer ok (get_interface interfaces) s)) (some (bad_request s))
          (kept-IsFair ops json _ _ refl) (bad-IsFair ops json s))
  get_request-IsFair (a ∷ (b ∷ ps)) s = bad-IsFair ops json s

  handle_target_requests-IsFair :
      (ps : List CStr) (hm : HttpMessage) (s : S)
      → IsFair ops json s (handle_target_requests ops json devices interfaces ps hm s)
  unfolding handle_target_requests
  handle_target_requests-IsFair ps hm s = if-IsFair ops json _ s _ _ (get_request-IsFair ps s) (
      if-IsFair ops json _ s _ _ (post_request-IsFair ops json ps hm.body s)
        (if-IsFair ops json _ s _ _ (delete_request-IsFair ops json ps s) (bad-IsFair ops json s)))

  handle_parts-IsFair :
      (ps : List CStr) (hm : HttpMessage) (s : S)
      → IsFair ops json s (handle_parts ops json devices interfaces ps hm s)
  handle_parts-IsFair [] hm s = kept-IsFair ops json _ _ refl
  handle_parts-IsFair (p ∷ ps) hm s = handle_target_requests-IsFair (p ∷ ps) hm s

  -- A request of the manager that is answered left the target as it was, or changed it by one call of its
  -- operations and no more, and after such a call the status is 0 exactly if the call succeeded or was
  -- the reset, which cannot fail. (A request whose handler follows a null pointer is not answered.)
  pub handle_http_request_one_call :
      (hm : HttpMessage) (s : S)
      → IsFair ops json s (handle_http_request ops json devices interfaces hm s)
  unfolding handle_http_request
  handle_http_request_one_call hm s =
      if-IsFair ops json (ltb 0 (length hm.uri)) s
        (handle_parts ops json devices interfaces (parse_uri hm.uri max_depth) hm s)
        (some (answer (http 404) (codes "Internal Error") s))
        (handle_parts-IsFair (parse_uri hm.uri max_depth) hm s) (kept-IsFair ops json _ _ refl)
