-- ===== src/Linked.antt =====
-- The intrusive linked lists of src/incl/utils.h, on a memory of cells that point to each other.
pub mod Chain
pub mod Insert
pub mod Remove
pub mod Readd
mod Tests
use nvme_dem.Prelude.{ℕ, zero, suc, Bool, List, [], ◌∷◌, Option, none, some, ◌==◌, if◌then◌else◌}

-- `struct linked_list` at each address.
pub record Cells : Type 0 where
  pub next : ℕ → ℕ
  pub prev : ℕ → ℕ

abbrev pub update : (ℕ → ℕ) → ℕ → ℕ → ℕ → ℕ
update f p v q = if q == p then v else f q

unfoldable pub init_linked_list : ℕ → Cells → Cells
init_linked_list p m = record { next = update m.next p p; prev = update m.prev p p }

-- `__list_add`: the four writes in their order.
unfoldable pub list_add_between : ℕ → ℕ → ℕ → Cells → Cells
list_add_between entry prev next m = record {
  next = update (update m.next entry next) prev entry;
  prev = update (update m.prev next entry) entry prev;
}

unfoldable pub list_add : ℕ → ℕ → Cells → Cells
unfolding list_add_between
list_add entry list m = list_add_between entry list (m.next list) m

unfoldable pub list_add_tail : ℕ → ℕ → Cells → Cells
unfolding list_add_between
list_add_tail entry list m = list_add_between entry (m.prev list) list m

-- The second write reads `entry->prev` after the first.
unfoldable pub list_del : ℕ → Cells → Cells
list_del entry m =
    let m' : Cells = record m { prev = update m.prev (m.next entry) (m.prev entry) } in
    record m' { next = update m'.next (m'.prev entry) (m'.next entry) }

unfoldable pub list_empty : ℕ → Cells → Bool
list_empty list m = m.next list == list

abbrev pub cons_entry : ℕ → Option (List ℕ) → Option (List ℕ)
cons_entry e none = none
cons_entry e (some es) = some (e ∷ es)

-- The entries that a loop from `entry` on visits in `n` rounds; `none` if it has not ended then.
unfoldable pub walk : ℕ → Cells → ℕ → ℕ → Option (List ℕ)
walk zero m list entry = none
walk (suc n) m list entry =
    let rest = walk n m list (m.next entry) in
    if entry == list then some [] else cons_entry entry rest

unfoldable pub list_for_each : ℕ → Cells → ℕ → Option (List ℕ)
unfolding walk
list_for_each n m list = walk n m list (m.next list)
