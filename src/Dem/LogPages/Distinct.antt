-- ===== src/Dem/LogPages/Distinct.antt =====
-- A subsystem never holds two log pages for one transport address.
use nvme_dem.Prelude.{
  ℕ, Bool, true, false, ◌≡◌, refl, ◌∙◌, List, [], ◌∷◌, arith, All, any, inl, inr, Bool-cases, map,
}
use nvme_dem.Dem.State.{Entry, LogPage, Subsystem, Target}
use nvme_dem.Dem.LogPages.Keep.{All-save_entry}
use nvme_dem.Dem.LogPages.Save.{
  match_logpage, store_logpage, save_page, save_entry, save_log_pages, invalidate_page,
  invalidate_subsys, invalidate_log_pages,
}
use nvme_dem.Dem.LogPages.Match.{match-store_same}

-- Some log page of the list has a record that `lp` matches.
abbrev clashes : LogPage → List LogPage → Bool
clashes lp = any (λ other. match_logpage lp other.e)

abbrev pub Distinct : List LogPage → Type 0
Distinct [] = Unit
Distinct (lp ∷ lps) = (clashes lp lps ≡ false) × Distinct lps

abbrev pub AllDistinct : Target → Type 0
AllDistinct t = All (λ s. Distinct s.logpage_list) t.subsys_list

clashes-store :
    (port : ℕ) (lp : LogPage) (e : Entry) (lps : List LogPage)
    → match_logpage lp e ≡ true
    → clashes (store_logpage port e) lps ≡ clashes lp lps
clashes-store port lp e [] m = refl
clashes-store port lp e (other ∷ lps) m =
    ground (arith, match-store_same port lp other.e e m, clashes-store port lp e lps m)

clashes-save :
    (port : ℕ) (lp : LogPage) (e : Entry) (lps : List LogPage)
    → match_logpage lp e ≡ false
    → clashes lp lps ≡ false
    → clashes lp (save_page port e lps) ≡ false
unfolding save_page
clashes-save port lp e [] m h = ground arith
clashes-save port lp e (other ∷ lps) m h = ground (arith, clashes-save port lp e lps m)

page-Distinct :
    (port : ℕ) (e : Entry) (lps : List LogPage) → Distinct lps → Distinct (save_page port e lps)
unfolding save_page
page-Distinct port e [] d = ground arith
page-Distinct port e (lp ∷ lps) d = elim (Bool-cases (match_logpage lp e)) [
  | inl m ↦ rw m (clashes-store port lp e lps m ∙ d.0, d.1)
  | inr m ↦ rw m (clashes-save port lp e lps m d.0, page-Distinct port e lps d.1)
]

save_log_pages-Distinct_from :
    (port : ℕ) (es : List Entry) (t : Target)
    → AllDistinct t
    → AllDistinct (save_log_pages port t es)
unfolding save_log_pages
save_log_pages-Distinct_from port [] t d = d
save_log_pages-Distinct_from port (e ∷ es) t d =
    save_log_pages-Distinct_from port es (save_entry port t e) (
      All-save_entry (λ s. Distinct s.logpage_list) port e
        (λ s n h. page-Distinct port e s.logpage_list h) t d)

clashes-invalidate :
    (lp : LogPage) (lps : List LogPage)
    → clashes (invalidate_page lp) (map invalidate_page lps) ≡ clashes lp lps
unfolding match_logpage
clashes-invalidate lp [] = refl
clashes-invalidate lp (other ∷ lps) = ground (arith, clashes-invalidate lp lps)

pages_invalidate : (lps : List LogPage) → Distinct lps → Distinct (map invalidate_page lps)
pages_invalidate [] d = tt
pages_invalidate (lp ∷ lps) d = (clashes-invalidate lp lps ∙ d.0, pages_invalidate lps d.1)

subsys_invalidate :
    (ss : List Subsystem)
    → All (λ s. Distinct s.logpage_list) ss
    → All (λ s. Distinct s.logpage_list) (map invalidate_subsys ss)
subsys_invalidate [] d = tt
subsys_invalidate (s ∷ ss) d = (pages_invalidate s.logpage_list d.0, subsys_invalidate ss d.1)

-- If no subsystem of a target holds two log pages of equal address, service, transport and family,
-- then none does after an invalidation and none after saving a log.
pub save_log_pages-Distinct :
    (port : ℕ) (es : List Entry) (t : Target)
    → AllDistinct t
    → AllDistinct (invalidate_log_pages t) × AllDistinct (save_log_pages port t es)
unfolding invalidate_log_pages
save_log_pages-Distinct port es t d =
    (subsys_invalidate t.subsys_list d, save_log_pages-Distinct_from port es t d)
