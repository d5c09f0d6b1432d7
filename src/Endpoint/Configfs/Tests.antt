-- ===== src/Endpoint/Configfs/Tests.antt =====
-- Examples for src/endpoint/configfs.c.
use nvme_dem.Prelude.{false, true, List, [], ◌∷◌, none, some, ◌++◌, CStr, codes, pos}
use nvme_dem.Endpoint.Configfs.Tree.{new, gone, Kernel, Process}
use nvme_dem.Endpoint.Configfs.Calls.{subsystems, ports}
use nvme_dem.Endpoint.Configfs.Single.{in_dir}
use nvme_dem.Endpoint.Rest.Json.{Jansson}
use nvme_dem.Endpoint.Rest.Answer.{Served, ok, answer}
use nvme_dem.Endpoint.Rest.Serve.{HttpMessage}

-- A call of the kernel that changes the tree.
data Event : Type 0 where
  made_dir dropped_dir dropped made_link : List CStr → Event
  wrote : List CStr → CStr → Event

-- A kernel that keeps the calls, newest first, where each directory is there and has the entry `s`.
abbrev recorder : Kernel (List Event)
recorder = record {
  is_dir = λ p t. true;
  mkdir = λ p t. (new, made_dir p ∷ t);
  rmdir = λ p t. dropped_dir p ∷ t;
  remove = λ p t. (gone, dropped p ∷ t);
  symlink = λ p link t. (new, made_link link ∷ t);
  write = λ p text t. wrote p text ∷ t;
  read = λ p t. [];
  list = λ p t. some (codes "s" ∷ []);
}

abbrev deletion : List Event
deletion =
    dropped_dir (subsystems ++ codes "s" ∷ [])
    ∷ dropped (ports ++ codes "s" ∷ codes "subsystems" ∷ codes "s" ∷ [])
    ∷ dropped_dir (subsystems ++ codes "s" ∷ codes "namespaces" ∷ codes "s" ∷ [])
    ∷ wrote (subsystems ++ codes "s" ∷ codes "namespaces" ∷ codes "s" ∷ codes "enable" ∷ [])
        (codes "0")
    ∷ dropped (subsystems ++ codes "s" ∷ codes "allowed_hosts" ∷ codes "s" ∷ [])
    ∷ []

-- A process that has changed the tree so.
abbrev having : List Event → Process (List Event)
having t = in_dir recorder [] false t

-- A library that reads no body.
abbrev no_json : Jansson CStr
no_json = record {
  loads = λ b. none;
  object_get = λ j t. none;
  string_value = λ j. none;
  integer_value = λ j. pos 0;
}

abbrev request : HttpMessage
request = record { method = codes "DELETE"; uri = codes "/subsystem/s"; body = [] }

abbrev deleted_s : Served (Process (List Event))
deleted_s = answer ok (codes "Deleted subsys s") (having deletion)
