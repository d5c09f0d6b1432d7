-- ===== src/Dem/LogPages/Fresh.antt =====
-- Nothing stale is handed on: what is valid after saving came from a saved record.
use nvme_dem.Prelude.{
  ℕ, false, ◌≡◌, ◌⊎◌, refl, sym, List, [], ◌∷◌, Option, none, some, map, All, All-append, Any, any,
  CStr, inl, inr, Bool-cases,
}
use nvme_dem.Dem.State.{Entry, LogPage, Subsystem, Target}
use nvme_dem.Dem.LogPages.Keep.{All-save_entry}
use nvme_dem.Dem.LogPages.Save.{
  match_logpage, store_logpage, save_page, save_subsys, place_entry, same_unattached,
  save_unattached, save_entry, save_log_pages, invalidate_page, invalidate_subsys,
  invalidate_log_pages,
}

module _ (Q : Entry → Type 0) where
  abbrev pub FreshPage : CStr → LogPage → Type 0
  FreshPage nqn lp = (lp.valid ≡ false) ⊎ (lp.e.subnqn ≡ nqn) × Q lp.e

  abbrev pub FreshSubsys : Subsystem → Type 0
  FreshSubsys s = All (FreshPage s.nqn) s.logpage_list

  -- Every valid log page, under the subsystem of its name or unattached, satisfies `Q`.
  abbrev pub Fresh : Target → Type 0
  Fresh t = All FreshSubsys t.subsys_list × All (λ lp. Q lp.e) t.unattached_logpage_list

  page-Fresh :
      (port : ℕ) (e : Entry) (nqn : CStr) (lps : List LogPage)
      → Q e
      → e.subnqn ≡ nqn
      → All (FreshPage nqn) lps
      → All (FreshPage nqn) (save_page port e lps)
  unfolding save_page
  page-Fresh port e nqn [] q n h = (inr (n, q), tt)
  page-Fresh port e nqn (lp ∷ lps) q n h = elim (Bool-cases (match_logpage lp e)) [
    | inl m ↦ rw m (inr (n, q), h.1)
    | inr m ↦ rw m (h.0, page-Fresh port e nqn lps q n h.1)
  ]

  unattached-Fresh :
      (port : ℕ) (e : Entry) (lps : List LogPage)
      → Q e
      → All (λ lp. Q lp.e) lps
      → All (λ lp. Q lp.e) (save_unattached port e lps)
  unfolding save_unattached
  unattached-Fresh port e lps q f = elim (Bool-cases (any (same_unattached e) lps)) [
    | inl m ↦ rw m f
    | inr m ↦ rw m (All-append (λ lp. Q lp.e) lps (store_logpage port e ∷ []) f (q, tt))
  ]

  unattached_place :
      (port : ℕ) (t : Target) (e : Entry) (o : Option (List Subsystem))
      → Q e
      → All (λ lp. Q lp.e) t.unattached_logpage_list
      → All (λ lp. Q lp.e) (place_entry port t e o).unattached_logpage_list
  unattached_place port t e none q f = unattached-Fresh port e t.unattached_logpage_list q f
  unattached_place port t e (some ss) q f = f

  entry-Fresh : (port : ℕ) (t : Target) (e : Entry) → Q e → Fresh t → Fresh (save_entry port t e)
  unfolding save_entry
  entry-Fresh port t e q f = (
    All-save_entry FreshSubsys port e (λ s n h. page-Fresh port e s.nqn s.logpage_list q (sym n) h)
        t f.0,
    unattached_place port t e (save_subsys port e t.subsys_list) q f.1,
  )

  pub save_log_pages-Fresh :
      (port : ℕ) (es : List Entry) (t : Target)
      → All Q es
      → Fresh t
      → Fresh (save_log_pages port t es)
  unfolding save_log_pages
  save_log_pages-Fresh port [] t q f = f
  save_log_pages-Fresh port (e ∷ es) t q f =
      save_log_pages-Fresh port es (save_entry port t e) q.1 (entry-Fresh port t e q.0 f)

  pages_stale : (nqn : CStr) (lps : List LogPage) → All (FreshPage nqn) (map invalidate_page lps)
  pages_stale nqn [] = tt
  pages_stale nqn (lp ∷ lps) = (inl refl, pages_stale nqn lps)

  subsys_stale : (ss : List Subsystem) → All FreshSubsys (map invalidate_subsys ss)
  subsys_stale [] = tt
  subsys_stale (s ∷ ss) = (pages_stale s.nqn s.logpage_list, subsys_stale ss)

  pub invalidate-Fresh : (t : Target) → Fresh (invalidate_log_pages t)
  unfolding invalidate_log_pages
  invalidate-Fresh t = (subsys_stale t.subsys_list, tt)

-- After the log pages of a target are invalidated and one log is saved, every valid log page lies
-- under the subsystem that its record names, and it and every unattached one hold a record of the log.
pub save-invalidate-Fresh :
    (port : ℕ) (es : List Entry) (t : Target)
    → Fresh (λ x. Any (λ e. x ≡ e) es) (save_log_pages port (invalidate_log_pages t) es)
save-invalidate-Fresh port es t =
    save_log_pages-Fresh Q port es (invalidate_log_pages t) (each es (λ e i. i))
      (invalidate-Fresh Q t)
  where
    Q : Entry → Type 0
    Q x = Any (λ e. x ≡ e) es

    each : (l : List Entry) → ((e : Entry) → Any (λ x. e ≡ x) l → Q e) → All Q l
    each [] f = tt
    each (e ∷ l) f = (f e (inl refl), each l (λ x i. f x (inr i)))
