-- ===== src/Dem/LogPages/Lookup.antt =====
-- How a log page is found by name and address, and what the records of a log leave there.
use nvme_dem.Prelude.{
  ◌==◌, ℕ, Bool, true, ◌&&◌, ◌≡◌, refl, List, [], ◌∷◌, Option, none, some, arith, any, find,
  if◌then◌else◌, streq, streq_refl, streq_sound,
}
use nvme_dem.Dem.State.{Entry, LogPage, Subsystem, Target}
use nvme_dem.Dem.LogPages.Save.{match_logpage, store_logpage, save_page, same_unattached}
use nvme_dem.Dem.LogPages.Match.{match-store_same}

-- The log pages that a record of this name goes to: those of the first subsystem of the name.
abbrev pub pages_of : Entry → List Subsystem → Option (List LogPage)
pages_of e [] = none
pages_of e (s ∷ ss) =
    let rest = pages_of e ss in if streq s.nqn e.subnqn then some s.logpage_list else rest

-- The log page for a name and an address: in the subsystem of the name or, where the target has none,
-- among the unattached.
abbrev pub page_in : Entry → Option (List LogPage) → List LogPage → Option LogPage
page_in e (some lps) us = find (λ lp. match_logpage lp e) lps
page_in e none us = find (same_unattached e) us

abbrev pub page_for : Entry → Target → Option LogPage
page_for e t = page_in e (pages_of e t.subsys_list) t.unattached_logpage_list

abbrev pub is_attached : Entry → Target → Bool
is_attached e t = any (λ s. streq s.nqn e.subnqn) t.subsys_list

-- The same name and address.
unfoldable pub is_same : Entry → Entry → Bool
is_same e e' =
    streq e'.subnqn e.subnqn
    && streq e.traddr e'.traddr
    && streq e.trsvcid e'.trsvcid
    && e.trtype == e'.trtype
    && e.adrfam == e'.adrfam

-- In a subsystem the last record of an address is the one that stays, whole; among the unattached it is
-- the first, unless there was a log page before.
abbrev pub or_first : Option LogPage → LogPage → Option LogPage
or_first none lp = some lp
or_first (some old) lp = some old

abbrev pub after_record : ℕ → Bool → Entry → Option LogPage → Entry → Option LogPage
after_record port attached e old e' =
    if is_same e e'
    then (if attached then some (store_logpage port e') else or_first old (store_logpage port e'))
    else old

abbrev pub after_records : ℕ → Bool → Entry → Option LogPage → List Entry → Option LogPage
after_records port attached e old [] = old
after_records port attached e old (e' ∷ es) =
    after_records port attached e (after_record port attached e old e') es

-- `is_same` is the name and what `match_logpage` compares.
pub same_match :
    (port : ℕ) (e e' : Entry)
    → is_same e e' ≡ (streq e'.subnqn e.subnqn && match_logpage (store_logpage port e') e)
unfolding is_same match_logpage
same_match port e e' = ground arith

match_back :
    (port : ℕ) (lp : LogPage) (e e' : Entry)
    → match_logpage lp e ≡ true
    → match_logpage (store_logpage port e') e ≡ true
    → match_logpage lp e' ≡ true
unfolding match_logpage
match_back port lp e e' h k = ground (
  arith,
  streq_sound e.traddr lp.e.traddr,
  streq_sound e.trsvcid lp.e.trsvcid,
  streq_sound e.traddr e'.traddr,
  streq_sound e.trsvcid e'.trsvcid,
  streq_refl e.traddr,
  streq_refl e.trsvcid,
)

pub page_step :
    (port : ℕ) (e e' : Entry) (lps : List LogPage)
    → find (λ lp. match_logpage lp e) (save_page port e' lps) ≡ (
        if match_logpage (store_logpage port e') e
        then some (store_logpage port e')
        else find (λ lp. match_logpage lp e) lps)
unfolding save_page
page_step port e e' [] = refl
page_step port e e' (lp ∷ lps) =
    ground (arith, match-store_same port lp e e', match_back port lp e e', page_step port e e' lps)
