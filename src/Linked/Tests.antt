-- ===== src/Linked/Tests.antt =====
-- Examples for the linked lists of src/incl/utils.h.
use nvme_dem.Prelude.{◌≡◌, refl, [], ◌∷◌, none}
use nvme_dem.Linked.{
  Cells, update, init_linked_list, list_add, list_add_tail, list_del, list_for_each,
}
use nvme_dem.Linked.Chain.{IsList}
use nvme_dem.Linked.Insert.{list_add_lem}
use nvme_dem.Linked.Remove.{list_del_lem}
use nvme_dem.Linked.Readd.{readd_last_never_ends}

-- The head at 1, and the entries 2 and 3.
abbrev cells : Cells
cells = record {
  next = update (update (update (λ p. p) 1 2) 2 3) 3 1;
  prev = update (update (update (λ p. p) 1 3) 2 1) 3 2;
}

cells-IsList : IsList cells 1 (2 ∷ 3 ∷ [])
cells-IsList = record {
  chain = (refl, refl, (refl, refl, (refl, refl)));
  distinct = ((refl, (refl, tt)), ((refl, tt), (tt, tt)));
}

list_add_lem_example :
    IsList (init_linked_list 1 cells) 1 []
    × IsList (list_add 4 1 cells) 1 (4 ∷ 2 ∷ 3 ∷ [])
    × IsList (list_add_tail 4 1 cells) 1 (2 ∷ 3 ∷ 4 ∷ [])
list_add_lem_example = list_add_lem cells 4 1 (2 ∷ 3 ∷ []) cells-IsList (refl, (refl, (refl, tt)))

list_del_lem_example : IsList (list_del 2 cells) 1 (3 ∷ [])
list_del_lem_example = list_del_lem cells 2 1 [] (3 ∷ []) cells-IsList

readd_last_never_ends_example : list_for_each 100 (list_add_tail 3 1 cells) 1 ≡ none
readd_last_never_ends_example = readd_last_never_ends 100 cells 3 1 (2 ∷ []) cells-IsList
