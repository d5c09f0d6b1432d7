-- ===== src/Endpoint/Rest/Tests.antt =====
-- Examples for the requests of src/endpoint/restful.c.
use nvme_dem.Prelude.{◌≡◌, refl, true, List, [], ◌∷◌, none, some, CStr, codes, pos}
use nvme_dem.Endpoint.Ops.{Call, delete_subsys, Ops}
use nvme_dem.Endpoint.Rest.Json.{Jansson}
use nvme_dem.Endpoint.Rest.Fair.{IsFair}
use nvme_dem.Endpoint.Rest.Answer.{ok, answer}
use nvme_dem.Endpoint.Rest.Serve.{HttpMessage, handle_http_request}
use nvme_dem.Endpoint.Rest.Safe.{handle_http_request_one_call}

abbrev recorder : Ops (List Call)
recorder = record { perform = λ c s. (true, c ∷ s) }

-- A library that reads no body.
abbrev no_json : Jansson CStr
no_json = record {
  loads = λ b. none;
  object_get = λ j t. none;
  string_value = λ j. none;
  integer_value = λ j. pos 0;
}

abbrev request : HttpMessage
request = record { method = codes "DELETE"; uri = codes "/subsystem/s"; body = [] }

-- The request of the example deletes the subsystem.
request_deletes :
    handle_http_request recorder no_json [] [] request []
    ≡ some (answer ok (codes "Deleted subsys s") (delete_subsys (codes "s") ∷ []))
unfolding handle_http_request
request_deletes = refl

handle_http_request_one_call_example :
    IsFair recorder no_json [] (handle_http_request recorder no_json [] [] request [])
handle_http_request_one_call_example =
    handle_http_request_one_call recorder no_json [] [] request []
