-- ===== src/Dem/Config/Managed.antt =====
-- An endpoint manager at the other end of src/dem/config.c: the requests of src/dem/config.c go
-- through the HTTP client of src/common/curl.c to src/endpoint/restful.c.
pub mod Delivery
pub mod Calls
pub mod Whole
mod Tests
use nvme_dem.Prelude.{
  ℕ, ◌≡◌, Bool, true, false, not, ◌&&◌, ◌||◌, ◌==◌, All, ltb, List, [], ◌∷◌, Option, none, some,
  CStr, codes, ◌<◌, ◌++◌, length,
}
use nvme_dem.Dem.Config.Oob.{OobIface, get_uri, path}
use nvme_dem.Dem.Config.Remote.{Order, inband, post, delete, overran, max_uri_size, Remote}
use nvme_dem.Endpoint.Ops.{Ops}
use nvme_dem.Endpoint.Report.{NsDev, Iface}
use nvme_dem.Endpoint.Rest.Json.{Jansson}
use nvme_dem.Endpoint.Rest.Answer.{Status, ok, raw_error, http, Served}
use nvme_dem.Endpoint.Rest.Serve.{HttpMessage, handle_http_request}

-- A part of a path that stands for itself in a URL: it has no slash, and no byte that ends the path or
-- is encoded, and is no `.` or `..`.
abbrev pub is_url_char : ℕ → Bool
is_url_char c = ltb 32 c && ltb c 127 && not (c == b'/' || (c == b'?' || (c == b'#' || c == b'%')))

abbrev pub HasNoDot : CStr → Type 0
HasNoDot [] = Unit
HasNoDot (c ∷ s) = (c == b'.') ≡ false

abbrev pub IsPart : CStr → Type 0
IsPart s = All (λ c. is_url_char c ≡ true) s × HasNoDot s

-- The URI of these parts fits its buffer, with its terminating 0.
abbrev pub Fits : OobIface → List CStr → Type 0
Fits o ps = length (get_uri o ++ path ps) < max_uri_size

-- The HTTP library: what it asks the server for, given a URL, and whether it reports success for a
-- status line that has no code.
pub record HttpClient : Type 0 where
  pub request_uri : CStr → CStr
  pub takes_raw : Bool

-- CURLOPT_FAILONERROR: a code from 400 on is a failure.
abbrev pub is_taken : HttpClient → Status → Bool
is_taken client ok = true
is_taken client raw_error = client.takes_raw
is_taken client (http n) = ltb n 400

module _ {S J : Type 0} (ops : Ops S) (json : Jansson J) (devices : List NsDev)
    (interfaces : List Iface) (client : HttpClient) (o : OobIface) where
  -- `exec_curl`. A manager that followed a null pointer does not answer.
  abbrev pub exec_curl : Option (Served S) → S → Bool × S
  exec_curl none s = (false, s)
  exec_curl (some a) s = (is_taken client a.status, a.target)

  -- `exec_post` and `exec_delete`. No in-band message goes this way, and what becomes of a URI that
  -- left its buffer is undefined.
  unfoldable pub exec : Order → S → Bool × S
  unfolding handle_http_request
  exec (inband m) s = (false, s)
  exec overran s = (false, s)
  exec (post url body) s =
      exec_curl
        (handle_http_request ops json devices interfaces
          (record { method = codes "POST"; uri = client.request_uri url; body = body }) s)
        s
  exec (delete url) s =
      exec_curl
        (handle_http_request ops json devices interfaces
          (record { method = codes "DELETE"; uri = client.request_uri url; body = [] }) s)
        s

  abbrev pub manager : Remote S
  manager = record { oob = o; send = exec }
