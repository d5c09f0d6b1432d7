-- ===== src/Dem/LogPages/Save.antt =====
-- `save_log_pages` and what it is made of (src/dem/logpages.c).
use nvme_dem.Prelude.{
  ℕ, Bool, true, false, ◌&&◌, List, [], ◌∷◌, ◌++◌, Option, none, some, map, ◌==◌, if◌then◌else◌,
  streq, any,
}
use nvme_dem.Dem.State.{Entry, LogPage, Subsystem, Target}

unfoldable pub match_logpage : LogPage → Entry → Bool
match_logpage lp e =
    streq e.traddr lp.e.traddr
    && streq e.trsvcid lp.e.trsvcid
    && e.trtype == lp.e.trtype
    && e.adrfam == lp.e.adrfam

-- `port` is the port of the queue that fetched the record.
abbrev pub store_logpage : ℕ → Entry → LogPage
store_logpage port e = record { portid = port; e = e; valid = true }

-- The inner loop over the log pages of the subsystem: the first match is overwritten, and where
-- there is none the new log page goes to the tail.
unfoldable pub save_page : ℕ → Entry → List LogPage → List LogPage
save_page port e [] = store_logpage port e ∷ []
save_page port e (lp ∷ lps) =
    let rest = save_page port e lps in
    if match_logpage lp e then store_logpage port e ∷ lps else lp ∷ rest

-- The outer loop: `none` where no subsystem has the record's name.
abbrev pub cons_subsys : Subsystem → Option (List Subsystem) → Option (List Subsystem)
cons_subsys s none = none
cons_subsys s (some ss) = some (s ∷ ss)

unfoldable pub save_subsys : ℕ → Entry → List Subsystem → Option (List Subsystem)
save_subsys port e [] = none
save_subsys port e (s ∷ ss) =
    let rest = save_subsys port e ss in
    if streq s.nqn e.subnqn
    then some (record s { logpage_list = save_page port e s.logpage_list } ∷ ss)
    else cons_subsys s rest

-- An equal log page of the same name is kept as it is, and the new one freed.
unfoldable pub same_unattached : Entry → LogPage → Bool
same_unattached e lp = streq lp.e.subnqn e.subnqn && match_logpage lp e

unfoldable pub save_unattached : ℕ → Entry → List LogPage → List LogPage
save_unattached port e lps =
    if any (same_unattached e) lps then lps else lps ++ store_logpage port e ∷ []

abbrev pub place_entry : ℕ → Target → Entry → Option (List Subsystem) → Target
place_entry port t e (some ss) = record t { subsys_list = ss }
place_entry port t e none = record t {
  unattached_logpage_list = save_unattached port e t.unattached_logpage_list;
}

-- One round of the loop over the records.
unfoldable pub save_entry : ℕ → Target → Entry → Target
save_entry port t e = place_entry port t e (save_subsys port e t.subsys_list)

unfoldable pub save_log_pages : ℕ → Target → List Entry → Target
save_log_pages port t [] = t
save_log_pages port t (e ∷ es) = save_log_pages port (save_entry port t e) es

abbrev pub invalidate_page : LogPage → LogPage
invalidate_page lp = record lp { valid = false }

abbrev pub invalidate_subsys : Subsystem → Subsystem
invalidate_subsys s = record s { logpage_list = map invalidate_page s.logpage_list }

-- `invalidate_log_pages`, which also empties the list of unattached log pages.
unfoldable pub invalidate_log_pages : Target → Target
invalidate_log_pages t = record t {
  subsys_list = map invalidate_subsys t.subsys_list;
  unattached_logpage_list = [];
}
