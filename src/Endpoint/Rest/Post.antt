-- ===== src/Endpoint/Rest/Post.antt =====
-- The POST requests of src/endpoint/restful.c.
use nvme_dem.Prelude.{
  Bool, true, not, ◌||◌, List, [], ◌∷◌, ◌++◌, Option, none, some, if◌then◌else◌, CStr, codes, streq,
  ℤ, pos, eqb_ℤ, ltb_ℤ,
}
use nvme_dem.Parse.Addr.{atoi}
use nvme_dem.Parse.Decimal.{print_int}
use nvme_dem.Inb.Build.{nullb_devid}
use nvme_dem.Endpoint.Config.{◌>>=◌}
use nvme_dem.Endpoint.Ops.{
  Call, create_host, create_subsys, create_ns, create_portid, link_host_to_subsys,
  link_port_to_subsys, Ops,
}
use nvme_dem.Endpoint.Rest.Json.{Jansson, int_of}
use nvme_dem.Endpoint.Rest.Answer.{
  http_error, ok, bad_request, invalid, Reply, parsed, required, carried,
}

-- MIN_PORTID and MAX_PORTID
abbrev pub is_portid : ℤ → Bool
is_portid z = not (ltb_ℤ z (pos 1) || ltb_ℤ (pos 65534) z)

module _ {S J : Type 0} (ops : Ops S) (json : Jansson J) where
  abbrev pub post : CStr → S → (J → Reply ops json) → Reply ops json
  post body s k = parsed ops json (json.loads body) s k

  abbrev pub needs : J → CStr → S → (J → Reply ops json) → Reply ops json
  needs j tag s k = required ops json (json.object_get j tag) s k

  abbrev pub makes : Call → CStr → S → Reply ops json
  makes c resp s = carried ops json c resp s

  -- `json_integer_value(obj) ? 1 : 0`, and 0 without the member.
  abbrev pub flag : Option J → ℤ
  flag none = pos 0
  flag (some o) = if eqb_ℤ (json.integer_value o) (pos 0) then pos 0 else pos 1

  -- `atoi` follows its argument.
  unfoldable pub post_portid : Option CStr → CStr → S → Reply ops json
  unfolding http_error
  post_portid none body s = none
  post_portid (some port) body s =
      let id = atoi port in
      let treq = λ (j : J). flag (json.object_get j (codes "TREQ")) in
      if is_portid id
      then post body s (λ j. needs j (codes "TRTYPE") s (λ typ. needs j (codes "ADRFAM") s (λ fam.
        needs j (codes "TRADDR") s (λ addr. needs j (codes "TRSVCID") s (λ svc. do
          f ← json.string_value fam
          t ← json.string_value typ
          a ← json.string_value addr
          makes (create_portid id f t (treq j) a (int_of (json.integer_value svc)))
              (codes "Configured portid " ++ print_int id) s)))))
      else invalid s

  abbrev pub text_of : Option J → Option CStr
  text_of none = none
  text_of (some o) = json.string_value o

  -- The name of the path, or that of the body.
  abbrev pub or_text : Option CStr → Option J → Option CStr
  or_text none o = text_of o
  or_text (some name) o = some name

  abbrev pub make_subsys : Option CStr → ℤ → S → Reply ops json
  make_subsys none allowany s = invalid s
  make_subsys (some nqn) allowany s =
      makes (create_subsys nqn allowany) (codes "Configured subsys " ++ nqn) s

  unfoldable pub post_subsys : Option CStr → CStr → S → Reply ops json
  unfolding http_error
  post_subsys subsys body s = post body s (λ j.
      make_subsys (or_text subsys (json.object_get j (codes "SUBNQN")))
        (flag (json.object_get j (codes "AllowAnyHost"))) s)

  -- The id of the path, or that of the body.
  abbrev pub id_from : Option CStr → Option J → Option ℤ
  id_from (some ns) o = some (atoi ns)
  id_from none (some o) = some (int_of (json.integer_value o))
  id_from none none = none

  abbrev pub make_ns : CStr → ℤ → ℤ → ℤ → S → Reply ops json
  make_ns subsys nsid devid devns s =
      makes (create_ns subsys nsid devid devns) (codes "Configured nsid " ++ print_int nsid) s

  -- Only the null block device needs no namespace of the device.
  abbrev pub with_device : CStr → ℤ → ℤ → Option J → S → Reply ops json
  with_device subsys nsid devid none s =
      if eqb_ℤ devid nullb_devid then make_ns subsys nsid devid (pos 0) s else invalid s
  with_device subsys nsid devid (some o) s =
      make_ns subsys nsid devid (int_of (json.integer_value o)) s

  abbrev pub with_nsid : CStr → J → S → Option ℤ → Reply ops json
  with_nsid subsys j s none = invalid s
  with_nsid subsys j s (some nsid) = needs j (codes "DeviceID") s (λ dev.
      with_device subsys nsid (int_of (json.integer_value dev))
        (json.object_get j (codes "DeviceNSID")) s)

  unfoldable pub post_ns : CStr → Option CStr → CStr → S → Reply ops json
  unfolding http_error
  post_ns subsys ns body s =
      post body s (λ j. with_nsid subsys j s (id_from ns (json.object_get j (codes "NSID"))))

  abbrev pub make_host : CStr → S → Reply ops json
  make_host host s = makes (create_host host) (codes "Configured host " ++ host) s

  unfoldable pub post_host : Option CStr → CStr → S → Reply ops json
  unfolding http_error
  post_host (some host) body s = make_host host s
  post_host none body s =
      post body s
        (λ j. needs j (codes "HOSTNQN") s (λ o. do host ← json.string_value o; make_host host s))

  unfoldable pub link_host : CStr → CStr → S → Reply ops json
  unfolding http_error
  link_host subsys body s = post body s (λ j. needs j (codes "HOSTNQN") s (λ o. do
    host ← json.string_value o
    makes (link_host_to_subsys subsys host)
        (codes "Configured host " ++ (host ++ (codes " for subsys " ++ subsys))) s))

  unfoldable pub link_portid : CStr → CStr → S → Reply ops json
  unfolding http_error
  link_portid subsys body s = post body s (λ j. needs j (codes "PORTID") s (λ o.
      let portid = int_of (json.integer_value o) in
      makes (link_port_to_subsys subsys portid)
        (codes "Enabled subsys " ++ (subsys ++ (codes " on portid " ++ print_int portid))) s))

  abbrev pub bad : S → Reply ops json
  bad s = some (bad_request s)

  -- With a body, by the number of parts.
  abbrev pub post_parts : List CStr → CStr → S → Reply ops json
  post_parts (a ∷ []) body s =
      if streq a (codes "subsystem")
      then post_subsys none body s
      else if streq a (codes "portid")
      then post_portid none body s
      else if streq a (codes "host")
      then post_host none body s
      else bad s
  post_parts (a ∷ (b ∷ [])) body s =
      if streq a (codes "subsystem")
      then post_subsys (some b) body s
      else if streq a (codes "portid")
      then post_portid (some b) body s
      else bad s
  post_parts (a ∷ (b ∷ (c ∷ []))) body s =
      if not (streq a (codes "subsystem"))
      then bad s
      else if streq c (codes "namespace")
      then post_ns b none body s
      else if streq c (codes "host")
      then link_host b body s
      else if streq c (codes "portid")
      then link_portid b body s
      else bad s
  post_parts (a ∷ (b ∷ (c ∷ (e ∷ [])))) body s =
      if not (streq a (codes "subsystem")) || not (streq c (codes "namespace"))
      then bad s
      else post_ns b (some e) body s
  post_parts ps body s = bad s

  -- Without a body, only the order to shut down.
  abbrev pub post_empty : List CStr → S → Reply ops json
  post_empty (a ∷ []) s =
      if streq a (codes "shutdown")
      then some (record {
        status = ok;
        resp = codes "DEM Endpoint Config shutting down";
        target = s;
        stop = true;
      })
      else bad s
  post_empty ps s = bad s

  unfoldable pub post_request : List CStr → CStr → S → Reply ops json
  unfolding streq post_subsys post_portid post_host post_ns link_host link_portid bad_request
  post_request ps [] s = post_empty ps s
  post_request ps (c ∷ body) s = post_parts ps (c ∷ body) s
