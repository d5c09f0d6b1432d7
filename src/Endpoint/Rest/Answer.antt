-- ===== src/Endpoint/Rest/Answer.antt =====
-- What src/endpoint/restful.c answers, and `http_error` and `bad_request`.
use nvme_dem.Prelude.{ℕ, Bool, false, Option, none, some, if◌then◌else◌, CStr, codes}
use nvme_dem.Endpoint.Ops.{Call, Ops}
use nvme_dem.Endpoint.Rest.Json.{Jansson}

-- 0, a code, or the negative error of an operation, which the deletions return as it is.
pub data Status : Type 0 where
  ok raw_error : Status
  http : ℕ → Status

-- `resp`, the target, and whether the manager was told to shut down.
pub record Served (S : Type 0) : Type 0 where
  pub status : Status
  pub resp : CStr
  pub target : S
  pub stop : Bool

-- The errors that the code passes to `http_error`.
pub data Errno : Type 0 where
  success enoent eexist other_error : Errno

unfoldable pub http_error : Errno → Status
http_error success = ok
http_error enoent = http 400
http_error eexist = http 409
http_error other_error = http 500

abbrev pub answer : {S : Type 0} → Status → CStr → S → Served S
answer status resp s = record { status = status; resp = resp; target = s; stop = false }

unfoldable pub bad_request : {S : Type 0} → S → Served S
bad_request s = answer (http 501) (codes "Method Not Implemented") s

-- `goto err`
abbrev pub invalid : {S : Type 0} → S → Option (Served S)
invalid s = some (answer (http_error other_error) (codes "invalid data") s)

module _ {S J : Type 0} (ops : Ops S) (json : Jansson J) where
  -- `none` is a null pointer that is followed, or handed to an operation of the target.
  abbrev pub Reply : Type 0
  Reply = Option (Served S)

  -- A body that is no JSON text is refused.
  abbrev pub parsed : Option J → S → (J → Reply) → Reply
  parsed none s k = some (answer (http_error other_error) (codes "invalid json syntax") s)
  parsed (some j) s k = k j

  -- `if (!obj) goto err;`
  abbrev pub required : Option J → S → (J → Reply) → Reply
  required none s k = invalid s
  required (some o) s k = k o

  -- The call of an operation whose failure goes to `err`.
  abbrev pub carried : Call → CStr → S → Reply
  carried c resp s =
      let (done, s') = ops.perform c s in if done then some (answer ok resp s') else invalid s'

  -- The call of a deletion, whose error is returned as it is.
  abbrev pub deleted : Call → CStr → CStr → S → Reply
  deleted c failed resp s =
      let (done, s') = ops.perform c s in
      some (if done then answer ok resp s' else answer raw_error failed s')
