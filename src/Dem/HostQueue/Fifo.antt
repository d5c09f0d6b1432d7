-- ===== src/Dem/HostQueue/Fifo.antt =====
-- The ring of src/dem/pseudo_target.c is a first-in first-out queue of two connections.
use nvme_dem.Prelude.{
  ℕ, ◌≤◌, ◌≡◌, refl, Bool, true, false, List, [], ◌∷◌, ◌++◌, none, some, arith, ltb, if◌then◌else◌,
  length, ap,
}
use nvme_dem.Dem.HostQueue.Ring.{
  HostQueue, new_queue, add_new_host_conn, Got, nobody, got, is_full, is_empty, get_new_host_conn,
  Op, add, get, Out, added, taken, run,
}

-- The queue that the threads mean to have.
unfoldable pub fifo_add : List ℕ → ℕ → Bool × List ℕ
fifo_add l e = if ltb (length l) 2 then (true, l ++ e ∷ []) else (false, l)

unfoldable pub fifo_get : List ℕ → Got × List ℕ
fifo_get [] = (nobody, [])
fifo_get (e ∷ l) = (got e, l)

unfoldable pub fifo_run : List ℕ → List Op → List Out
fifo_run l [] = []
fifo_run l (add e ∷ ops) = let (b, l') = fifo_add l e in added b ∷ fifo_run l' ops
fifo_run l (get ∷ ops) = let (g, l') = fifo_get l in taken g ∷ fifo_run l' ops

-- The slot of the oldest connection.
data Place : Type 0 where
  first second third : Place

-- The ring that holds `l`, at most two connections, from the place `p` on.
abbrev ring : Place → List ℕ → HostQueue
ring first [] = record { ep = none ∷ none ∷ none ∷ []; tail = 0; head = 0 }
ring first (a ∷ []) = record { ep = some a ∷ none ∷ none ∷ []; tail = 0; head = 1 }
ring first (a ∷ b ∷ []) = record { ep = some a ∷ some b ∷ none ∷ []; tail = 0; head = 2 }
ring first (a ∷ b ∷ c ∷ l) = new_queue
ring second [] = record { ep = none ∷ none ∷ none ∷ []; tail = 1; head = 1 }
ring second (a ∷ []) = record { ep = none ∷ some a ∷ none ∷ []; tail = 1; head = 2 }
ring second (a ∷ b ∷ []) = record { ep = none ∷ some a ∷ some b ∷ []; tail = 1; head = 0 }
ring second (a ∷ b ∷ c ∷ l) = new_queue
ring third [] = record { ep = none ∷ none ∷ none ∷ []; tail = 2; head = 2 }
ring third (a ∷ []) = record { ep = none ∷ none ∷ some a ∷ []; tail = 2; head = 0 }
ring third (a ∷ b ∷ []) = record { ep = some b ∷ none ∷ some a ∷ []; tail = 2; head = 1 }
ring third (a ∷ b ∷ c ∷ l) = new_queue

-- From each place, a run of the ring gives what the list gives.
in_step :
    (p : Place) (l : List ℕ) (ops : List Op) → length l ≤ 2 → run (ring p l) ops ≡ fifo_run l ops
unfolding run fifo_run add_new_host_conn get_new_host_conn is_full is_empty fifo_add fifo_get
in_step first [] [] h = refl
in_step first [] (add e ∷ ops) h =
    ap (λ r. added true ∷ r) (in_step first (e ∷ []) ops (omega arith))
in_step first [] (get ∷ ops) h = ap (λ r. taken nobody ∷ r) (in_step first [] ops h)
in_step first (a ∷ []) [] h = refl
in_step first (a ∷ []) (add e ∷ ops) h =
    ap (λ r. added true ∷ r) (in_step first (a ∷ e ∷ []) ops (omega arith))
in_step first (a ∷ []) (get ∷ ops) h =
    ap (λ r. taken (got a) ∷ r) (in_step second [] ops (omega arith))
in_step first (a ∷ b ∷ []) [] h = refl
in_step first (a ∷ b ∷ []) (add e ∷ ops) h =
    ap (λ r. added false ∷ r) (in_step first (a ∷ b ∷ []) ops h)
in_step first (a ∷ b ∷ []) (get ∷ ops) h =
    ap (λ r. taken (got a) ∷ r) (in_step second (b ∷ []) ops (omega arith))
in_step first (a ∷ b ∷ c ∷ l) ops h = absurd (omega arith)
in_step second [] [] h = refl
in_step second [] (add e ∷ ops) h =
    ap (λ r. added true ∷ r) (in_step second (e ∷ []) ops (omega arith))
in_step second [] (get ∷ ops) h = ap (λ r. taken nobody ∷ r) (in_step second [] ops h)
in_step second (a ∷ []) [] h = refl
in_step second (a ∷ []) (add e ∷ ops) h =
    ap (λ r. added true ∷ r) (in_step second (a ∷ e ∷ []) ops (omega arith))
in_step second (a ∷ []) (get ∷ ops) h =
    ap (λ r. taken (got a) ∷ r) (in_step third [] ops (omega arith))
in_step second (a ∷ b ∷ []) [] h = refl
in_step second (a ∷ b ∷ []) (add e ∷ ops) h =
    ap (λ r. added false ∷ r) (in_step second (a ∷ b ∷ []) ops h)
in_step second (a ∷ b ∷ []) (get ∷ ops) h =
    ap (λ r. taken (got a) ∷ r) (in_step third (b ∷ []) ops (omega arith))
in_step second (a ∷ b ∷ c ∷ l) ops h = absurd (omega arith)
in_step third [] [] h = refl
in_step third [] (add e ∷ ops) h =
    ap (λ r. added true ∷ r) (in_step third (e ∷ []) ops (omega arith))
in_step third [] (get ∷ ops) h = ap (λ r. taken nobody ∷ r) (in_step third [] ops h)
in_step third (a ∷ []) [] h = refl
in_step third (a ∷ []) (add e ∷ ops) h =
    ap (λ r. added true ∷ r) (in_step third (a ∷ e ∷ []) ops (omega arith))
in_step third (a ∷ []) (get ∷ ops) h =
    ap (λ r. taken (got a) ∷ r) (in_step first [] ops (omega arith))
in_step third (a ∷ b ∷ []) [] h = refl
in_step third (a ∷ b ∷ []) (add e ∷ ops) h =
    ap (λ r. added false ∷ r) (in_step third (a ∷ b ∷ []) ops h)
in_step third (a ∷ b ∷ []) (get ∷ ops) h =
    ap (λ r. taken (got a) ∷ r) (in_step first (b ∷ []) ops (omega arith))
in_step third (a ∷ b ∷ c ∷ l) ops h = absurd (omega arith)

-- Whatever the two threads do and in whatever order, the ring answers as a first-in first-out list
-- of two: it refuses a third connection, hands the connections out in the order in which they came,
-- each once, and never finds an empty slot where one should wait.
pub run_fifo : (ops : List Op) → run new_queue ops ≡ fifo_run [] ops
run_fifo ops = in_step first [] ops (omega arith)
