-- ===== src/Dem/Config/Managed/Delivery.antt =====
-- A request that src/dem/config.c sends is read by src/endpoint/restful.c: the manager makes the call
-- that the request means.
use nvme_dem.Prelude.{
  ℕ, ◌+◌, ◌≤◌, ◌<◌, ◌≡◌, refl, ◌∙◌, ap, Bool, true, false, ◌||◌, List, [], ◌∷◌, ◌++◌, some, arith,
  All, length, ltb, if◌then◌else◌, CStr, codes, streq, ℤ, pos, negsuc,
}
use nvme_dem.Parse.Decimal.{IsDigits, decimal, decimal-IsDigits, print_int}
use nvme_dem.Dem.State.{Ns, Subsystem, PortId, out_of_band_mgmt}
use nvme_dem.Dem.Config.Oob.{
  OobIface, get_uri, path, tag_path, build_set_port_oob, build_set_host_oob, build_set_subsys_oob,
  build_set_ns_oob, build_set_portid_oob,
}
use nvme_dem.Dem.Config.Remote.{
  Order, post, delete, post_to, delete_at, in_buffer, max_uri_size, Remote, uri, config_portid,
  set_ns_at,
}
use nvme_dem.Dem.Config.Managed.{is_url_char, IsPart, Fits, HttpClient, exec_curl, exec, manager}
use nvme_dem.Endpoint.Ops.{
  Call, create_host, create_subsys, create_ns, create_portid, link_host_to_subsys,
  link_port_to_subsys, Ops,
}
use nvme_dem.Endpoint.Report.{NsDev, Iface}
use nvme_dem.Endpoint.Rest.Uri.{HasNoSlash, parse_uri-path}
use nvme_dem.Endpoint.Rest.Json.{Jansson, Reads, IsInt}
use nvme_dem.Endpoint.Rest.Answer.{http_error, carried, deleted, answer, ok, raw_error, invalid}
use nvme_dem.Endpoint.Rest.Post.{is_portid, post_request}
use nvme_dem.Endpoint.Rest.Made.{
  port_fields, host_fields, subsys_fields, ns_fields, portid_fields, allow_any, port_made,
  host_made, link_host_made, subsys_made, ns_made, ns_added, portid_made,
}
use nvme_dem.Endpoint.Rest.Delete.{delete_request}
use nvme_dem.Endpoint.Rest.Serve.{max_depth, handle_target_requests, handle_http_request}

no_slash : (s : CStr) → All (λ c. is_url_char c ≡ true) s → HasNoSlash s
no_slash [] h = tt
no_slash (c ∷ s) h = (ground (arith, h.0), no_slash s h.1)

no_slashes : (ps : List CStr) → All IsPart ps → All HasNoSlash ps
no_slashes [] h = tt
no_slashes (p ∷ ps) h = (no_slash p h.0.0, no_slashes ps h.1)

-- What `print_int` writes is a part.
digits_plain : (s : CStr) → IsDigits s → All (λ c. is_url_char c ≡ true) s
digits_plain [] h = tt
digits_plain (c ∷ s) h = (ground (arith, h.0), digits_plain s h.1)

digits-IsPart : (s : CStr) → IsDigits s → IsPart s
digits-IsPart [] h = (tt, tt)
digits-IsPart (c ∷ s) h = (digits_plain (c ∷ s) h, ground (arith, h.0))

pub print_int-IsPart : (z : ℤ) → IsPart (print_int z)
unfolding print_int
print_int-IsPart (pos n) = digits-IsPart (decimal n) (decimal-IsDigits n)
print_int-IsPart (negsuc n) =
    ((refl, digits_plain (decimal (n + 1)) (decimal-IsDigits (n + 1))), refl)

pub subsystem-IsPart : IsPart (codes "subsystem")
subsystem-IsPart =
    ((refl, (refl, (refl, (refl, (refl, (refl, (refl, (refl, (refl, tt))))))))), refl)

pub portid-IsPart : IsPart (codes "portid")
portid-IsPart = ((refl, (refl, (refl, (refl, (refl, (refl, tt)))))), refl)

pub namespace-IsPart : IsPart (codes "namespace")
namespace-IsPart =
    ((refl, (refl, (refl, (refl, (refl, (refl, (refl, (refl, (refl, tt))))))))), refl)

pub host-IsPart : IsPart (codes "host")
host-IsPart = ((refl, (refl, (refl, (refl, tt)))), refl)

module _ {S J : Type 0} (ops : Ops S) (json : Jansson J) (devices : List NsDev)
    (interfaces : List Iface) (client : HttpClient) (o : OobIface)
    (asks : (ps : List CStr)
      → All IsPart ps
      → client.request_uri (get_uri o ++ path ps) ≡ b'/' ∷ path ps) where
  abbrev pub there : Remote S
  there = manager ops json devices interfaces client o

  -- The parts of the path that was printed reach the handlers.
  handle-path :
      (method body p : CStr) (ps : List CStr) (s : S)
      → All IsPart (p ∷ ps)
      → length (p ∷ ps) ≤ max_depth
      → handle_http_request ops json devices interfaces
          (record {
            method = method;
            uri = client.request_uri (uri there (path (p ∷ ps)));
            body = body;
          })
          s
        ≡ handle_target_requests ops json devices interfaces
            (p ∷ ps)
            (record { method = method; uri = b'/' ∷ path (p ∷ ps); body = body })
            s
  unfolding handle_http_request
  handle-path method body p ps s h k =
      let e = parse_uri-path max_depth p ps (no_slashes (p ∷ ps) h) k in
      let l : ltb 0 (length (b'/' ∷ path (p ∷ ps))) ≡ true = ground arith in
      rw (asks (p ∷ ps) h, e, l) refl

  in_room :
      (u : CStr)
      → length u < max_uri_size
      → (d : Order) (s : S)
      → exec ops json devices interfaces client o (in_buffer u d) s
        ≡ exec ops json devices interfaces client o d s
  in_room u h d s = let e : ltb (length u) max_uri_size ≡ true = ground arith in rw e refl

  posted :
      (c : ℕ) (body p : CStr) (ps : List CStr) (s : S)
      → All IsPart (p ∷ ps)
      → length (p ∷ ps) ≤ max_depth
      → Fits o (p ∷ ps)
      → exec ops json devices interfaces client o (post_to there (path (p ∷ ps)) (c ∷ body)) s
        ≡ exec_curl ops json devices interfaces client o
            (post_request ops json (p ∷ ps) (c ∷ body) s)
            s
  unfolding exec
  posted c body p ps s h k f =
      in_room (uri there (path (p ∷ ps))) f (post (uri there (path (p ∷ ps))) (c ∷ body)) s
      ∙ ap (λ a. exec_curl ops json devices interfaces client o a s)
          (handle-path (codes "POST") (c ∷ body) p ps s h k
            ∙ (unfold handle_target_requests streq in refl))

  removed :
      (p : CStr) (ps : List CStr) (s : S)
      → All IsPart (p ∷ ps)
      → length (p ∷ ps) ≤ max_depth
      → Fits o (p ∷ ps)
      → exec ops json devices interfaces client o (delete_at there (path (p ∷ ps))) s
        ≡ exec_curl ops json devices interfaces client o (delete_request ops json (p ∷ ps) s) s
  unfolding exec
  removed p ps s h k f =
      in_room (uri there (path (p ∷ ps))) f (delete (uri there (path (p ∷ ps)))) s
      ∙ ap (λ a. exec_curl ops json devices interfaces client o a s)
          (handle-path (codes "DELETE") [] p ps s h k
            ∙ (unfold handle_target_requests streq in refl))

  -- The operation's success is the request's.
  curl-carried :
      (c : Call) (resp : CStr) (s : S)
      → exec_curl ops json devices interfaces client o (carried ops json c resp s) s
        ≡ ops.perform c s
  unfolding http_error
  curl-carried c resp s = of_result (ops.perform c s)
    where
      of_result :
          (b : Bool × S)
          → exec_curl ops json devices interfaces client o
              (let (done, s') = b in if done then some (answer ok resp s') else invalid s')
              s
            ≡ b
      of_result (true, t) = refl
      of_result (false, t) = refl

  -- An error that a deletion returns is a status line without a code.
  abbrev pub deletion : Call → S → Bool × S
  deletion c s = let (done, s') = ops.perform c s in (done || client.takes_raw, s')

  curl-deleted :
      (c : Call) (failed resp : CStr) (s : S)
      → exec_curl ops json devices interfaces client o (deleted ops json c failed resp s) s
        ≡ deletion c s
  curl-deleted c failed resp s = of_result (ops.perform c s)
    where
      of_result :
          (b : Bool × S)
          → exec_curl ops json devices interfaces client o
              (let (done, s') = b in
                some (if done then answer ok resp s' else answer raw_error failed s'))
              s
            ≡ (let (done, s') = b in (done || client.takes_raw, s'))
      of_result (true, t) = refl
      of_result (false, t) = refl

  -- A request whose handler makes a call, which is its result.
  post-call :
      (c : ℕ) (body p : CStr) (ps : List CStr) (s : S) (call : Call) (resp : CStr)
      → All IsPart (p ∷ ps)
      → length (p ∷ ps) ≤ max_depth
      → Fits o (p ∷ ps)
      → post_request ops json (p ∷ ps) (c ∷ body) s ≡ carried ops json call resp s
      → exec ops json devices interfaces client o (post_to there (path (p ∷ ps)) (c ∷ body)) s
        ≡ ops.perform call s
  post-call c body p ps s call resp h k f e =
      posted c body p ps s h k f
      ∙ ap (λ a. exec_curl ops json devices interfaces client o a s) e
      ∙ curl-carried call resp s

  pub delete-call :
      (p : CStr) (ps : List CStr) (s : S) (call : Call) (failed resp : CStr)
      → All IsPart (p ∷ ps)
      → length (p ∷ ps) ≤ max_depth
      → Fits o (p ∷ ps)
      → delete_request ops json (p ∷ ps) s ≡ deleted ops json call failed resp s
      → exec ops json devices interfaces client o (delete_at there (path (p ∷ ps))) s
        ≡ deletion call s
  delete-call p ps s call failed resp h k f e =
      removed p ps s h k f
      ∙ ap (λ a. exec_curl ops json devices interfaces client o a s) e
      ∙ curl-deleted call failed resp s

  pub port-call :
      (p : PortId) (s : S)
      → Reads json (port_fields p)
      → is_portid p.portid ≡ true
      → IsInt p.port_num
      → Fits o (codes "portid" ∷ print_int p.portid ∷ [])
      → config_portid there out_of_band_mgmt p s
        ≡ ops.perform (create_portid p.portid p.family p.type (pos 0) p.address p.port_num) s
  unfolding config_portid build_set_port_oob post_request streq
  port-call p s r h i fits =
      post-call b'{' _ (codes "portid") (print_int p.portid ∷ []) s _ _
        (portid-IsPart, (print_int-IsPart p.portid, tt)) (omega arith) fits
        (port_made ops json p s r h i)

  pub subsys-call :
      (u : Subsystem) (s : S)
      → Reads json (subsys_fields u)
      → Fits o (codes "subsystem" ∷ [])
      → exec ops json devices interfaces client o
          (post_to there (codes "subsystem") (build_set_subsys_oob u))
          s
        ≡ ops.perform (create_subsys u.nqn (allow_any u.access)) s
  unfolding build_set_subsys_oob post_request streq
  subsys-call u s r fits =
      post-call b'{' _ (codes "subsystem") [] s _ _ (subsystem-IsPart, tt) (omega arith) fits
        (subsys_made ops json u s r)

  pub host-call :
      (nqn : CStr) (s : S)
      → Reads json (host_fields nqn)
      → Fits o (codes "host" ∷ [])
      → exec ops json devices interfaces client o
          (post_to there (codes "host") (build_set_host_oob nqn))
          s
        ≡ ops.perform (create_host nqn) s
  unfolding build_set_host_oob post_request streq
  host-call nqn s r fits =
      post-call b'{' _ (codes "host") [] s _ _ (host-IsPart, tt) (omega arith) fits
        (host_made ops json nqn s r)

  pub allow-call :
      (subsys nqn : CStr) (s : S)
      → IsPart subsys
      → Reads json (host_fields nqn)
      → Fits o (codes "subsystem" ∷ subsys ∷ codes "host" ∷ [])
      → exec ops json devices interfaces client o
          (post_to there (tag_path subsys (codes "host")) (build_set_host_oob nqn))
          s
        ≡ ops.perform (link_host_to_subsys subsys nqn) s
  unfolding build_set_host_oob post_request streq
  allow-call subsys nqn s h r fits =
      post-call b'{' _ (codes "subsystem") (subsys ∷ codes "host" ∷ []) s _ _
        (subsystem-IsPart, (h, (host-IsPart, tt))) (omega arith) fits
        (link_host_made ops json subsys nqn s r)

  pub add_ns-call :
      (subsys : CStr) (n : Ns) (s : S)
      → IsPart subsys
      → Reads json (ns_fields n)
      → IsInt n.nsid
      → IsInt n.devid
      → IsInt n.devns
      → Fits o (codes "subsystem" ∷ subsys ∷ codes "namespace" ∷ [])
      → exec ops json devices interfaces client o
          (post_to there (tag_path subsys (codes "namespace")) (build_set_ns_oob n))
          s
        ≡ ops.perform (create_ns subsys n.nsid n.devid n.devns) s
  unfolding build_set_ns_oob post_request streq
  add_ns-call subsys n s h r hi hd hn fits =
      post-call b'{' _ (codes "subsystem") (subsys ∷ codes "namespace" ∷ []) s _ _
        (subsystem-IsPart, (h, (namespace-IsPart, tt))) (omega arith) fits
        (ns_added ops json subsys n s r hi hd hn)

  pub enable-call :
      (subsys : CStr) (z : ℤ) (s : S)
      → IsPart subsys
      → Reads json (portid_fields z)
      → IsInt z
      → Fits o (codes "subsystem" ∷ subsys ∷ codes "portid" ∷ [])
      → exec ops json devices interfaces client o
          (post_to there (tag_path subsys (codes "portid")) (build_set_portid_oob z))
          s
        ≡ ops.perform (link_port_to_subsys subsys z) s
  unfolding build_set_portid_oob post_request streq
  enable-call subsys z s h r i fits =
      post-call b'{' _ (codes "subsystem") (subsys ∷ codes "portid" ∷ []) s _ _
        (subsystem-IsPart, (h, (portid-IsPart, tt))) (omega arith) fits
        (portid_made ops json subsys z s r i)

  pub set_ns-call :
      (u : Subsystem) (n : Ns) (s : S)
      → IsPart u.nqn
      → Reads json (ns_fields n)
      → IsInt n.devid
      → IsInt n.devns
      → Fits o (codes "subsystem" ∷ u.nqn ∷ codes "namespace" ∷ print_int n.nsid ∷ [])
      → set_ns_at there out_of_band_mgmt u n s
        ≡ ops.perform (create_ns u.nqn n.nsid n.devid n.devns) s
  unfolding set_ns_at build_set_ns_oob post_request streq
  set_ns-call u n s h r hd hn fits =
      post-call b'{' _ (codes "subsystem") (u.nqn ∷ codes "namespace" ∷ print_int n.nsid ∷ []) s _ _
        (subsystem-IsPart, (h, (namespace-IsPart, (print_int-IsPart n.nsid, tt)))) (omega arith)
        fits (ns_made ops json u.nqn n s r hd hn)
