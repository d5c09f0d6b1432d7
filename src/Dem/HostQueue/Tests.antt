-- ===== src/Dem/HostQueue/Tests.antt =====
-- Examples for the queue of src/dem/pseudo_target.c.
use nvme_dem.Prelude.{◌≡◌, [], ◌∷◌, true, false}
use nvme_dem.Dem.HostQueue.Ring.{new_queue, nobody, got, add, get, added, taken, run}
use nvme_dem.Dem.HostQueue.Fifo.{run_fifo, fifo_run, fifo_add, fifo_get}

run_fifo_example :
    run new_queue (add 5 ∷ add 6 ∷ add 7 ∷ get ∷ get ∷ get ∷ [])
    ≡ added true ∷ added true ∷ added false ∷ taken (got 5) ∷ taken (got 6) ∷ taken nobody ∷ []
unfolding fifo_run fifo_add fifo_get
run_fifo_example = run_fifo (add 5 ∷ add 6 ∷ add 7 ∷ get ∷ get ∷ get ∷ [])
