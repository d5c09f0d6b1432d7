-- ===== src/Endpoint/Rest/Serve.antt =====
-- The GET requests of src/endpoint/restful.c, and `handle_http_request`.
use nvme_dem.Prelude.{ℕ, List, [], ◌∷◌, ◌++◌, some, ltb, length, if◌then◌else◌, CStr, codes, streq}
use nvme_dem.Dem.Config.Oob.{quoted, jsstr, jsindx, members}
use nvme_dem.Endpoint.Ops.{Ops}
use nvme_dem.Endpoint.Report.{NsDev, Iface}
use nvme_dem.Endpoint.Rest.Uri.{parse_uri}
use nvme_dem.Endpoint.Rest.Json.{Jansson}
use nvme_dem.Endpoint.Rest.Answer.{http, ok, answer, bad_request, Reply}
use nvme_dem.Endpoint.Rest.Post.{post_request}
use nvme_dem.Endpoint.Rest.Delete.{delete_request}

-- MAX_DEPTH
abbrev pub max_depth : ℕ
max_depth = 8

abbrev pub braced : List CStr → CStr
braced ms = b'{' ∷ (members ms ++ b'}' ∷ [])

abbrev pub collection : CStr → List CStr → CStr
collection tag ms = codes "{ " ++ (quoted tag ++ (codes ": [" ++ (members ms ++ codes "]}")))

abbrev pub dev_texts : List NsDev → List CStr
dev_texts [] = []
dev_texts (d ∷ ds) =
    braced (jsindx (codes "DeviceID") d.devid ∷ jsindx (codes "DeviceNSID") d.nsid ∷ [])
    ∷ dev_texts ds

unfoldable pub get_nsdev : List NsDev → CStr
get_nsdev ds = collection (codes "NSDevices") (dev_texts ds)

abbrev pub iface_texts : List Iface → List CStr
iface_texts [] = []
iface_texts (i ∷ is_) =
    braced (
      jsstr (codes "TRTYPE") i.type
      ∷ jsstr (codes "ADRFAM") i.family
      ∷ jsstr (codes "TRADDR") i.address
      ∷ [])
    ∷ iface_texts is_

unfoldable pub get_interface : List Iface → CStr
get_interface is_ = collection (codes "Interfaces") (iface_texts is_)

-- A web request; its method is compared byte by byte.
pub record HttpMessage : Type 0 where
  pub method : CStr
  pub uri : CStr
  pub body : CStr

module _ {S J : Type 0} (ops : Ops S) (json : Jansson J) (devices : List NsDev)
    (interfaces : List Iface) where
  abbrev pub refused_get : S → Reply ops json
  refused_get s = some (bad_request s)

  unfoldable pub get_request : List CStr → S → Reply ops json
  unfolding streq bad_request get_nsdev get_interface
  get_request (a ∷ []) s =
      if streq a (codes "nsdev")
      then some (answer ok (get_nsdev devices) s)
      else if streq a (codes "interface")
      then some (answer ok (get_interface interfaces) s)
      else refused_get s
  get_request ps s = refused_get s

  unfoldable pub handle_target_requests : List CStr → HttpMessage → S → Reply ops json
  unfolding streq get_request post_request delete_request bad_request
  handle_target_requests ps hm s =
      if streq hm.method (codes "GET")
      then get_request ps s
      else if streq hm.method (codes "POST")
      then post_request ops json ps hm.body s
      else if streq hm.method (codes "DELETE")
      then delete_request ops json ps s
      else refused_get s

  -- The page is not found where the path has no part.
  abbrev pub handle_parts : List CStr → HttpMessage → S → Reply ops json
  handle_parts [] hm s = some (answer (http 404) (codes "Bad page " ++ hm.uri) s)
  handle_parts (p ∷ ps) hm s = handle_target_requests (p ∷ ps) hm s

  -- The text of the answer is taken to fit its buffer of 1024 bytes.
  unfoldable pub handle_http_request : HttpMessage → S → Reply ops json
  unfolding parse_uri handle_target_requests
  handle_http_request hm s =
      if ltb 0 (length hm.uri)
      then handle_parts (parse_uri hm.uri max_depth) hm s
      else some (answer (http 404) (codes "Internal Error") s)
