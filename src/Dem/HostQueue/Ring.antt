-- ===== src/Dem/HostQueue/Ring.antt =====
-- `struct host_queue` of src/dem/pseudo_target.c: three slots for the new connections. The pointer of
-- an endpoint is a number, and a null pointer `none`.
use nvme_dem.Prelude.{
  ℕ, ◌+◌, ◌%◌, Bool, true, false, List, [], ◌∷◌, Option, none, some, ◌==◌, if◌then◌else◌, get_elem?,
  set,
}

abbrev pub host_queue_max : ℕ
host_queue_max = 3

pub record HostQueue : Type 0 where
  pub ep : List (Option ℕ)
  pub tail : ℕ
  pub head : ℕ

-- `memset(&q, 0, sizeof(q))`
abbrev pub new_queue : HostQueue
new_queue = record { ep = none ∷ none ∷ none ∷ []; tail = 0; head = 0 }

unfoldable pub is_empty : HostQueue → Bool
is_empty q = q.head == q.tail

unfoldable pub is_full : HostQueue → Bool
is_full q = (q.head + 1) % host_queue_max == q.tail

-- The Boolean is whether 0 is returned.
unfoldable pub add_new_host_conn : HostQueue → ℕ → Bool × HostQueue
unfolding is_full
add_new_host_conn q e =
    if is_full q
    then (false, q)
    else (true, record q { ep = set q.ep q.head (some e); head = (q.head + 1) % host_queue_max })

-- The return values -1 and 1, and 0 with the endpoint.
pub data Got : Type 0 where
  nobody pending : Got
  got : ℕ → Got

abbrev pub slot : List (Option ℕ) → ℕ → Option ℕ
slot buf i = elim (get_elem? buf i) [ none ↦ none | some o ↦ o ]

abbrev pub take_slot : HostQueue → Option ℕ → Got × HostQueue
take_slot q none = (pending, q)
take_slot q (some e) =
    (got e, record q { ep = set q.ep q.tail none; tail = (q.tail + 1) % host_queue_max })

unfoldable pub get_new_host_conn : HostQueue → Got × HostQueue
unfolding is_empty
get_new_host_conn q = if is_empty q then (nobody, q) else take_slot q (slot q.ep q.tail)

-- What the two threads do with the queue, in the order in which it happens.
pub data Op : Type 0 where
  add : ℕ → Op
  get : Op

pub data Out : Type 0 where
  added : Bool → Out
  taken : Got → Out

unfoldable pub run : HostQueue → List Op → List Out
unfolding add_new_host_conn get_new_host_conn
run q [] = []
run q (add e ∷ ops) = let (b, q') = add_new_host_conn q e in added b ∷ run q' ops
run q (get ∷ ops) = let (g, q') = get_new_host_conn q in taken g ∷ run q' ops
