-- ===== src/Dem/LogPages/Keep.antt =====
-- What saving a record keeps of every subsystem, from what it keeps of the one that is changed.
use nvme_dem.Prelude.{
  ℕ, ◌≡◌, List, [], ◌∷◌, Option, none, some, All, streq, streq_sound, inl, inr, Bool-cases,
}
use nvme_dem.Dem.State.{Entry, Subsystem, Target}
use nvme_dem.Dem.LogPages.Save.{save_page, save_subsys, cons_subsys, place_entry, save_entry}

abbrev AllIn : (Subsystem → Type 0) → Option (List Subsystem) → Type 0
AllIn P none = Unit
AllIn P (some ss) = All P ss

abbrev pub with_page : ℕ → Entry → Subsystem → Subsystem
with_page port e s = record s { logpage_list = save_page port e s.logpage_list }

module _ (P : Subsystem → Type 0) (port : ℕ) (e : Entry)
    (keep : (s : Subsystem) → s.nqn ≡ e.subnqn → P s → P (with_page port e s)) where
  AllIn-cons :
      (s : Subsystem) (o : Option (List Subsystem)) → P s → AllIn P o → AllIn P (cons_subsys s o)
  AllIn-cons s none p h = tt
  AllIn-cons s (some ss) p h = (p, h)

  AllIn-save : (ss : List Subsystem) → All P ss → AllIn P (save_subsys port e ss)
  unfolding save_subsys
  AllIn-save [] h = tt
  AllIn-save (s ∷ ss) h = elim (Bool-cases (streq s.nqn e.subnqn)) [
    | inl m ↦ rw m (keep s (streq_sound s.nqn e.subnqn m) h.0, h.1)
    | inr m ↦ rw m (AllIn-cons s (save_subsys port e ss) h.0 (AllIn-save ss h.1))
  ]

  All-place :
      (t : Target) (o : Option (List Subsystem))
      → All P t.subsys_list
      → AllIn P o
      → All P (place_entry port t e o).subsys_list
  All-place t none h k = h
  All-place t (some ss) h k = k

  -- A property of each subsystem outlives the saving of a record, if the subsystem of the record's
  -- name keeps it.
  pub All-save_entry : (t : Target) → All P t.subsys_list → All P (save_entry port t e).subsys_list
  unfolding save_entry
  All-save_entry t h = All-place t (save_subsys port e t.subsys_list) h (AllIn-save t.subsys_list h)
