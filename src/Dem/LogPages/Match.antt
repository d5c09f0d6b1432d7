-- ===== src/Dem/LogPages/Match.antt =====
-- `match_logpage` compares four fields: it is an equivalence.
use nvme_dem.Prelude.{ℕ, true, ◌≡◌, arith, streq_sound, streq_refl}
use nvme_dem.Dem.State.{Entry, LogPage}
use nvme_dem.Dem.LogPages.Save.{match_logpage, store_logpage}

-- The log page that a record was stored in matches it.
pub match-store : (port : ℕ) (e : Entry) → match_logpage (store_logpage port e) e ≡ true
unfolding match_logpage
match-store port e = ground (arith, streq_refl e.traddr, streq_refl e.trsvcid)

-- Overwriting a log page by a record that matches it changes no other match.
pub match-store_same :
    (port : ℕ) (lp : LogPage) (e e' : Entry)
    → match_logpage lp e' ≡ true
    → match_logpage (store_logpage port e') e ≡ match_logpage lp e
unfolding match_logpage
match-store_same port lp e e' h =
    ground (arith, streq_sound e'.traddr lp.e.traddr, streq_sound e'.trsvcid lp.e.trsvcid)

-- Two records that match one log page match each other.
pub match_trans :
    (port : ℕ) (lp : LogPage) (e e' : Entry)
    → match_logpage lp e ≡ true
    → match_logpage lp e' ≡ true
    → match_logpage (store_logpage port e') e ≡ true
match_trans port lp e e' h h' = rw (match-store_same port lp e e' h') h
