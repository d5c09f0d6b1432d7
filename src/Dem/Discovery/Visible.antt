-- ===== src/Dem/Discovery/Visible.antt =====
-- What a host may see of the log pages, said without the loops of src/dem/pseudo_target.c.
use nvme_dem.Prelude.{
  sym, ◌≡◌, refl, ap, ◌∙◌, Bool, true, false, not, ◌&&◌, List, [], ◌∷◌, ◌++◌, append_assoc,
  append-nil, arith, if◌then◌else◌, CStr, length, length-append, filter, filter-append, inl, inr,
  Bool-cases,
}
use nvme_dem.Dem.State.{Entry, LogPage, Subsystem, Target, Dem}
use nvme_dem.Dem.Discovery.Pages.{
  allowed, skipped, count_pages, count_subsystems, count_targets, log_page_count, copy_pages,
  copy_subsystems, copy_targets, log_pages,
}

-- A log page with the subsystem and the target that it is listed under.
pub record Listed : Type 0 where
  pub target : Target
  pub subsys : Subsystem
  pub page : LogPage

abbrev pub list_pages : Target → Subsystem → List LogPage → List Listed
list_pages t s [] = []
list_pages t s (p ∷ ps) = record { target = t; subsys = s; page = p } ∷ list_pages t s ps

abbrev pub list_subsystems : Target → List Subsystem → List Listed
list_subsystems t [] = []
list_subsystems t (s ∷ ss) = list_pages t s s.logpage_list ++ list_subsystems t ss

-- Every log page of every target, in the order of the lists.
abbrev pub list_targets : List Target → List Listed
list_targets [] = []
list_targets (t ∷ ts) = list_subsystems t t.subsys_list ++ list_targets ts

-- The page is valid, its subsystem is open to any host or lists this one, and its target is in no
-- group or shares one with this host.
abbrev pub is_visible : Dem → CStr → Listed → Bool
is_visible d nqn l = l.page.valid && allowed l.subsys nqn && not (skipped d nqn l.target)

abbrev pub entries : List Listed → List Entry
entries [] = []
entries (l ∷ ls) = l.page.e ∷ entries ls

entries-append : (xs ys : List Listed) → entries (xs ++ ys) ≡ entries xs ++ entries ys
entries-append [] ys = refl
entries-append (x ∷ xs) ys = ap (λ l. x.page.e ∷ l) (entries-append xs ys)

module _ (d : Dem) (nqn : CStr) where
  abbrev seen : List Listed → List Entry
  seen ls = entries (filter (is_visible d nqn) ls)

  seen-append : (xs ys : List Listed) → seen (xs ++ ys) ≡ seen xs ++ seen ys
  seen-append xs ys =
      ap entries (filter-append (is_visible d nqn) xs ys)
      ∙ entries-append (filter (is_visible d nqn) xs) (filter (is_visible d nqn) ys)

  skipped_pages :
      (t : Target) (s : Subsystem) (ps : List LogPage)
      → skipped d nqn t ≡ true
      → seen (list_pages t s ps) ≡ []
  skipped_pages t s [] k = refl
  skipped_pages t s (p ∷ ps) k = ground (arith, skipped_pages t s ps k)

  skipped_subsystems :
      (t : Target) (ss : List Subsystem) → skipped d nqn t ≡ true → seen (list_subsystems t ss) ≡ []
  skipped_subsystems t [] k = refl
  skipped_subsystems t (s ∷ ss) k =
      seen-append (list_pages t s s.logpage_list) (list_subsystems t ss)
      ∙ rw (skipped_pages t s s.logpage_list k) (skipped_subsystems t ss k)

  copy_pages-seen :
      (t : Target) (s : Subsystem) (es : List Entry) (ps : List LogPage)
      → skipped d nqn t ≡ false
      → copy_pages s nqn es ps ≡ es ++ seen (list_pages t s ps)
  unfolding copy_pages
  copy_pages-seen t s es [] k = rw append-nil
  copy_pages-seen t s es (p ∷ ps) k = ground (
    arith,
    copy_pages-seen t s es ps k,
    copy_pages-seen t s (es ++ p.e ∷ []) ps k,
    append_assoc es (p.e ∷ []) (seen (list_pages t s ps)),
  )

  copy_subsystems-seen :
      (t : Target) (es : List Entry) (ss : List Subsystem)
      → skipped d nqn t ≡ false
      → copy_subsystems nqn es ss ≡ es ++ seen (list_subsystems t ss)
  unfolding copy_subsystems
  copy_subsystems-seen t es [] k = rw append-nil
  copy_subsystems-seen t es (s ∷ ss) k =
      let ps = list_pages t s s.logpage_list in
      let rest = list_subsystems t ss in
      rw (copy_pages-seen t s es s.logpage_list k) (
        copy_subsystems-seen t (es ++ seen ps) ss k
        ∙ append_assoc es (seen ps) (seen rest)
        ∙ ap (λ l. es ++ l) (sym (seen-append ps rest)))

  target_seen :
      (es : List Entry) (t : Target)
      → (if skipped d nqn t then es else copy_subsystems nqn es t.subsys_list)
        ≡ es ++ seen (list_subsystems t t.subsys_list)
  target_seen es t = elim (Bool-cases (skipped d nqn t)) [
    | inl k ↦ rw k (sym (ap (λ l. es ++ l) (skipped_subsystems t t.subsys_list k) ∙ append-nil es))
    | inr k ↦ rw k (copy_subsystems-seen t es t.subsys_list k)
  ]

  copy_targets-seen :
      (es : List Entry) (ts : List Target) → copy_targets d nqn es ts ≡ es ++ seen (list_targets ts)
  unfolding copy_targets
  copy_targets-seen es [] = rw append-nil
  copy_targets-seen es (t ∷ ts) =
      let ls = list_subsystems t t.subsys_list in
      let rest = list_targets ts in
      rw (target_seen es t) (
        copy_targets-seen (es ++ seen ls) ts
        ∙ append_assoc es (seen ls) (seen rest)
        ∙ ap (λ l. es ++ l) (sym (seen-append ls rest)))

  -- The records that a host is sent are, in order, those of the log pages that it may see: the page
  -- is valid, its subsystem admits any host or lists this one, and its target is in no group or
  -- shares one with this host.
  pub log_pages-visible :
      log_pages d nqn ≡ entries (filter (is_visible d nqn) (list_targets d.target_list))
  unfolding log_pages
  log_pages-visible = copy_targets-seen [] d.target_list

  count_pages-copy :
      (s : Subsystem) (es : List Entry) (ps : List LogPage)
      → count_pages s nqn (length es) ps ≡ length (copy_pages s nqn es ps)
  unfolding count_pages copy_pages
  count_pages-copy s es [] = refl
  count_pages-copy s es (p ∷ ps) = ground (
    arith,
    count_pages-copy s es ps,
    count_pages-copy s (es ++ p.e ∷ []) ps,
    length-append es (p.e ∷ []),
  )

  count_subsystems-copy :
      (es : List Entry) (ss : List Subsystem)
      → count_subsystems nqn (length es) ss ≡ length (copy_subsystems nqn es ss)
  unfolding count_subsystems copy_subsystems
  count_subsystems-copy es [] = refl
  count_subsystems-copy es (s ∷ ss) =
      rw (count_pages-copy s es s.logpage_list)
        (count_subsystems-copy (copy_pages s nqn es s.logpage_list) ss)

  count_targets-copy :
      (es : List Entry) (ts : List Target)
      → count_targets d nqn (length es) ts ≡ length (copy_targets d nqn es ts)
  unfolding count_targets copy_targets
  count_targets-copy es [] = refl
  count_targets-copy es (t ∷ ts) = elim (Bool-cases (skipped d nqn t)) [
    | inl k ↦ rw k (count_targets-copy es ts)
    | inr k ↦
        rw (k, count_subsystems-copy es t.subsys_list)
          (count_targets-copy (copy_subsystems nqn es t.subsys_list) ts)
  ]

  -- The number of records that the count command announces is the number that the page command
  -- sends, for every host, as long as the lists do not change.
  pub log_page_count-length : log_page_count d nqn ≡ length (log_pages d nqn)
  unfolding log_page_count log_pages
  log_page_count-length = count_targets-copy [] d.target_list
