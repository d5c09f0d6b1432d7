-- ===== src/Endpoint/Rest/Posted.antt =====
-- The POST requests of src/endpoint/restful.c make at most one call.
use nvme_dem.Prelude.{refl, true, List, [], ◌∷◌, Option, none, some, CStr, codes, streq, ℤ, eqb_ℤ}
use nvme_dem.Parse.Addr.{atoi}
use nvme_dem.Inb.Build.{nullb_devid}
use nvme_dem.Endpoint.Ops.{Ops}
use nvme_dem.Endpoint.Rest.Json.{Jansson, int_of}
use nvme_dem.Endpoint.Rest.Answer.{ok, http_error, bad_request}
use nvme_dem.Endpoint.Rest.Post.{
  is_portid, make_subsys, with_device, with_nsid, post_portid, post_subsys, post_ns, post_host,
  link_host, link_portid, post_parts, post_empty, post_request,
}
use nvme_dem.Endpoint.Rest.Fair.{
  bad-IsFair, IsFair, null-IsFair, kept-IsFair, carried-IsFair, parsed-IsFair, required-IsFair,
  bind-IsFair, if-IsFair,
}

module _ {S J : Type 0} (ops : Ops S) (json : Jansson J) where
  post_portid-IsFair :
      (port : Option CStr) (body : CStr) (s : S)
      → IsFair ops json s (post_portid ops json port body s)
  unfolding post_portid http_error
  post_portid-IsFair none body s = null-IsFair ops json s
  post_portid-IsFair (some port) body s =
      if-IsFair ops json (is_portid (atoi port)) s _ _
        (parsed-IsFair ops json (json.loads body) s _ (λ j.
          required-IsFair ops json (json.object_get j (codes "TRTYPE")) s _ (λ typ.
            required-IsFair ops json (json.object_get j (codes "ADRFAM")) s _ (λ fam.
              required-IsFair ops json (json.object_get j (codes "TRADDR")) s _ (λ addr.
                required-IsFair ops json (json.object_get j (codes "TRSVCID")) s _ (λ svc.
                  bind-IsFair ops json (json.string_value fam) s _ (λ f.
                    bind-IsFair ops json (json.string_value typ) s _ (λ t.
                      bind-IsFair ops json (json.string_value addr) s _
                        (λ a. carried-IsFair ops json _ _ s refl)))))))))
        (kept-IsFair ops json _ _ refl)

  make_subsys-IsFair :
      (name : Option CStr) (allowany : ℤ) (s : S)
      → IsFair ops json s (make_subsys ops json name allowany s)
  unfolding http_error
  make_subsys-IsFair none allowany s = kept-IsFair ops json _ _ refl
  make_subsys-IsFair (some nqn) allowany s = carried-IsFair ops json _ _ s refl

  post_subsys-IsFair :
      (name : Option CStr) (body : CStr) (s : S)
      → IsFair ops json s (post_subsys ops json name body s)
  unfolding post_subsys
  post_subsys-IsFair name body s =
      parsed-IsFair ops json (json.loads body) s _ (λ j. make_subsys-IsFair _ _ s)

  with_device-IsFair :
      (subsys : CStr) (nsid devid : ℤ) (o : Option J) (s : S)
      → IsFair ops json s (with_device ops json subsys nsid devid o s)
  unfolding http_error
  with_device-IsFair subsys nsid devid none s =
      if-IsFair ops json (eqb_ℤ devid nullb_devid) s _ _ (carried-IsFair ops json _ _ s refl)
        (kept-IsFair ops json _ _ refl)
  with_device-IsFair subsys nsid devid (some o) s = carried-IsFair ops json _ _ s refl

  with_nsid-IsFair :
      (subsys : CStr) (j : J) (s : S) (nsid : Option ℤ)
      → IsFair ops json s (with_nsid ops json subsys j s nsid)
  unfolding http_error
  with_nsid-IsFair subsys j s none = kept-IsFair ops json _ _ refl
  with_nsid-IsFair subsys j s (some nsid) =
      required-IsFair ops json (json.object_get j (codes "DeviceID")) s _ (λ dev.
        with_device-IsFair subsys nsid (int_of (json.integer_value dev))
          (json.object_get j (codes "DeviceNSID")) s)

  post_ns-IsFair :
      (subsys : CStr) (ns : Option CStr) (body : CStr) (s : S)
      → IsFair ops json s (post_ns ops json subsys ns body s)
  unfolding post_ns
  post_ns-IsFair subsys ns body s =
      parsed-IsFair ops json (json.loads body) s _ (λ j. with_nsid-IsFair _ j s _)

  post_host-IsFair :
      (host : Option CStr) (body : CStr) (s : S)
      → IsFair ops json s (post_host ops json host body s)
  unfolding post_host
  post_host-IsFair (some host) body s = carried-IsFair ops json _ _ s refl
  post_host-IsFair none body s = parsed-IsFair ops json (json.loads body) s _ (λ j.
      required-IsFair ops json (json.object_get j (codes "HOSTNQN")) s _ (λ o.
        bind-IsFair ops json (json.string_value o) s _ (λ h. carried-IsFair ops json _ _ s refl)))

  link_host-IsFair :
      (subsys body : CStr) (s : S) → IsFair ops json s (link_host ops json subsys body s)
  unfolding link_host
  link_host-IsFair subsys body s = parsed-IsFair ops json (json.loads body) s _ (λ j.
      required-IsFair ops json (json.object_get j (codes "HOSTNQN")) s _ (λ o.
        bind-IsFair ops json (json.string_value o) s _ (λ h. carried-IsFair ops json _ _ s refl)))

  link_portid-IsFair :
      (subsys body : CStr) (s : S) → IsFair ops json s (link_portid ops json subsys body s)
  unfolding link_portid
  link_portid-IsFair subsys body s = parsed-IsFair ops json (json.loads body) s _ (λ j.
      required-IsFair ops json (json.object_get j (codes "PORTID")) s _
        (λ o. carried-IsFair ops json _ _ s refl))

  post_parts-IsFair :
      (ps : List CStr) (body : CStr) (s : S) → IsFair ops json s (post_parts ops json ps body s)
  post_parts-IsFair [] body s = bad-IsFair ops json s
  post_parts-IsFair (a ∷ []) body s = if-IsFair ops json _ s _ _ (post_subsys-IsFair none body s) (
      if-IsFair ops json _ s _ _ (post_portid-IsFair none body s)
        (if-IsFair ops json _ s _ _ (post_host-IsFair none body s) (bad-IsFair ops json s)))
  post_parts-IsFair (a ∷ (b ∷ [])) body s =
      if-IsFair ops json _ s _ _ (post_subsys-IsFair (some b) body s)
        (if-IsFair ops json _ s _ _ (post_portid-IsFair (some b) body s) (bad-IsFair ops json s))
  post_parts-IsFair (a ∷ (b ∷ (c ∷ []))) body s =
      if-IsFair ops json _ s _ _ (bad-IsFair ops json s) (
        if-IsFair ops json _ s _ _ (post_ns-IsFair b none body s) (
          if-IsFair ops json _ s _ _ (link_host-IsFair b body s)
            (if-IsFair ops json _ s _ _ (link_portid-IsFair b body s) (bad-IsFair ops json s))))
  post_parts-IsFair (a ∷ (b ∷ (c ∷ (e ∷ [])))) body s =
      if-IsFair ops json _ s _ _ (bad-IsFair ops json s) (post_ns-IsFair b (some e) body s)
  post_parts-IsFair (a ∷ (b ∷ (c ∷ (e ∷ (f ∷ ps))))) body s = bad-IsFair ops json s

  post_empty-IsFair : (ps : List CStr) (s : S) → IsFair ops json s (post_empty ops json ps s)
  post_empty-IsFair [] s = bad-IsFair ops json s
  post_empty-IsFair (a ∷ []) s =
      if-IsFair ops json (streq a (codes "shutdown")) s
        (some (record {
          status = ok;
          resp = codes "DEM Endpoint Config shutting down";
          target = s;
          stop = true;
        }))
        (some (bad_request s)) (kept-IsFair ops json _ _ refl) (bad-IsFair ops json s)
  post_empty-IsFair (a ∷ (b ∷ ps)) s = bad-IsFair ops json s

  pub post_request-IsFair :
      (ps : List CStr) (body : CStr) (s : S) → IsFair ops json s (post_request ops json ps body s)
  unfolding post_request
  post_request-IsFair ps [] s = post_empty-IsFair ps s
  post_request-IsFair ps (c ∷ body) s = post_parts-IsFair ps (c ∷ body) s
