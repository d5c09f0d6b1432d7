-- ===== src/Dem/LogPages/Recorded.antt =====
-- What a target's log pages are after a log was saved, by the name and address that they are looked up.
use nvme_dem.Prelude.{
  sym, ℕ, true, false, ◌≡◌, refl, ap, ◌∙◌, List, [], ◌∷◌, ◌++◌, none, some, arith, any, find,
  if◌then◌else◌, streq, streq_refl, streq_sound, inl, inr, Bool-cases, Option-cases,
}
use nvme_dem.Dem.State.{Entry, LogPage, Subsystem, Target}
use nvme_dem.Dem.LogPages.Save.{
  match_logpage, store_logpage, place_entry, save_subsys, same_unattached, save_unattached,
  save_entry, save_log_pages,
}
use nvme_dem.Dem.LogPages.Lookup.{
  page_in, pages_of, page_for, is_attached, is_same, or_first, after_record, after_records,
  same_match, page_step,
}

-- A record of the name of e goes where e is looked up.
saved_step :
    (port : ℕ) (e e' : Entry) (us : List LogPage) (ss : List Subsystem) {ss' : List Subsystem}
    → save_subsys port e' ss ≡ some ss'
    → page_in e (pages_of e ss') us
      ≡ (if is_same e e' then some (store_logpage port e') else page_in e (pages_of e ss) us)
unfolding save_subsys
saved_step port e e' us [] h = cc
saved_step port e e' us (s ∷ ss) {ss'} h = elim (Bool-cases (streq s.nqn e'.subnqn)) [
  | inl here ↦
      ground (
        arith,
        same_match port e e',
        streq_sound s.nqn e'.subnqn,
        page_step port e e' s.logpage_list,
      )
  | inr later ↦ elim (Option-cases (save_subsys port e' ss)) [
    | inl q ↦ ground arith
    | inr (rs, q) ↦ ground (
      arith,
      same_match port e e',
      streq_sound s.nqn e.subnqn,
      streq_sound e'.subnqn e.subnqn,
      streq_refl e.subnqn,
      saved_step port e e' us ss q,
    )
  ]
]

saved-named :
    (port : ℕ) (e e' : Entry) (ss : List Subsystem) {ss' : List Subsystem}
    → save_subsys port e' ss ≡ some ss'
    → (any (λ s. streq s.nqn e.subnqn) ss' ≡ any (λ s. streq s.nqn e.subnqn) ss)
      × (any (λ s. streq s.nqn e'.subnqn) ss ≡ true)
unfolding save_subsys
saved-named port e e' [] h = cc
saved-named port e e' (s ∷ ss) {ss'} h = elim (Option-cases (save_subsys port e' ss)) [
  | inl q ↦ ground arith
  | inr (rs, q) ↦ ground (arith, saved-named port e e' ss q)
]

unsaved-named :
    (port : ℕ) (e' : Entry) (ss : List Subsystem)
    → save_subsys port e' ss ≡ none
    → any (λ s. streq s.nqn e'.subnqn) ss ≡ false
unfolding save_subsys
unsaved-named port e' [] h = refl
unsaved-named port e' (s ∷ ss) h = elim (Option-cases (save_subsys port e' ss)) [
  | inl q ↦ ground (arith, unsaved-named port e' ss q)
  | inr (rs, q) ↦ ground arith
]

unnamed-pages :
    (e : Entry) (ss : List Subsystem)
    → any (λ s. streq s.nqn e.subnqn) ss ≡ false
    → pages_of e ss ≡ none
unnamed-pages e [] h = refl
unnamed-pages e (s ∷ ss) h = ground (arith, unnamed-pages e ss)

find-append_one :
    (e : Entry) (us : List LogPage) (lp : LogPage)
    → find (same_unattached e) (us ++ lp ∷ []) ≡ (
        if same_unattached e lp
        then or_first (find (same_unattached e) us) lp
        else find (same_unattached e) us)
find-append_one e [] lp = refl
find-append_one e (u ∷ us) lp = ground (arith, find-append_one e us lp)

key_moves :
    (e e' : Entry) (lp : LogPage)
    → is_same e e' ≡ true
    → same_unattached e' lp ≡ true
    → same_unattached e lp ≡ true
unfolding is_same same_unattached match_logpage
key_moves e e' lp h k = ground (
  arith,
  streq_sound e'.subnqn e.subnqn,
  streq_sound e.traddr e'.traddr,
  streq_sound e.trsvcid e'.trsvcid,
)

-- Where a log page of the same key stands, one is found.
same-found :
    (e e' : Entry) (us : List LogPage) (lp : LogPage)
    → is_same e e' ≡ true
    → any (same_unattached e') us ≡ true
    → find (same_unattached e) us ≡ or_first (find (same_unattached e) us) lp
same-found e e' [] lp h k = cc
same-found e e' (u ∷ us) lp h k = elim (Bool-cases (same_unattached e u)) [
  | inl f ↦ ground arith
  | inr f ↦ ground (arith, key_moves e e' u h, same-found e e' us lp h)
]

unattached_step :
    (port : ℕ) (e e' : Entry) (us : List LogPage)
    → find (same_unattached e) (save_unattached port e' us) ≡ (
        if is_same e e'
        then or_first (find (same_unattached e) us) (store_logpage port e')
        else find (same_unattached e) us)
unfolding save_unattached same_unattached
unattached_step port e e' us = ground (
  arith,
  same_match port e e',
  same-found e e' us (store_logpage port e'),
  find-append_one e us (store_logpage port e'),
)

-- A key of the same name is attached as well.
same-attached :
    (e e' : Entry) (ss : List Subsystem)
    → is_same e e' ≡ true
    → any (λ s. streq s.nqn e.subnqn) ss ≡ any (λ s. streq s.nqn e'.subnqn) ss
unfolding is_same
same-attached e e' ss h =
    let n : e'.subnqn ≡ e.subnqn = ground (arith, streq_sound e'.subnqn e.subnqn) in
    ap (λ n. any (λ (s : Subsystem). streq s.nqn n) ss) (sym n)

-- One record: what is looked up afterwards, and that the names stay.
entry_step :
    (port : ℕ) (e e' : Entry) (t : Target)
    → (page_for e (save_entry port t e') ≡ after_record port (is_attached e t) e (page_for e t) e')
      × (is_attached e (save_entry port t e') ≡ is_attached e t)
unfolding save_entry
entry_step port e e' t = elim (Option-cases (save_subsys port e' t.subsys_list)) [
  | inr (ss, q) ↦ rw (ap (place_entry port t e') q) (
    saved_step port e e' t.unattached_logpage_list t.subsys_list q
        ∙ placed (saved-named port e e' t.subsys_list q).1,
    (saved-named port e e' t.subsys_list q).0,
  )
  | inl q ↦ rw (ap (place_entry port t e') q) (added (unsaved-named port e' t.subsys_list q), refl)
]
  where
    placed :
        any (λ s. streq s.nqn e'.subnqn) t.subsys_list ≡ true
        → (if is_same e e' then some (store_logpage port e') else page_for e t)
          ≡ after_record port (is_attached e t) e (page_for e t) e'
    placed h = elim (Bool-cases (is_same e e')) [
      | inl k ↦ rw (k, same-attached e e' t.subsys_list k, h) refl
      | inr k ↦ rw k refl
    ]

    added :
        any (λ s. streq s.nqn e'.subnqn) t.subsys_list ≡ false
        → page_in e (pages_of e t.subsys_list) (save_unattached port e' t.unattached_logpage_list)
          ≡ after_record port (is_attached e t) e (page_for e t) e'
    added h = elim (Bool-cases (is_same e e')) [
      | inl k ↦
          let a = same-attached e e' t.subsys_list k ∙ h in
          rw (k, a, unnamed-pages e t.subsys_list a)
            (unattached_step port e e' t.unattached_logpage_list ∙ rw k refl)
      | inr k ↦ elim (Option-cases (pages_of e t.subsys_list)) [
        | inl n ↦ rw (k, n) (unattached_step port e e' t.unattached_logpage_list ∙ rw k refl)
        | inr (lps, n) ↦ rw (k, n) refl
      ]
    ]

-- After a log is saved, the log page that is found for a name and an address is the one that its
-- records leave, one by one: where a subsystem has the name, the last record of that name and address,
-- whole, valid and with the port of its queue; where none has, the first such record, unless there was a
-- log page for them before, which stays; and the one from before where no record is for them. A log
-- page is found in the first subsystem of the name or, where there is none, among the unattached.
pub save_log_pages-recorded :
    (port : ℕ) (e : Entry) (es : List Entry) (t : Target)
    → page_for e (save_log_pages port t es)
      ≡ after_records port (is_attached e t) e (page_for e t) es
unfolding save_log_pages
save_log_pages-recorded port e [] t = refl
save_log_pages-recorded port e (e' ∷ es) t =
    let h = entry_step port e e' t in
    save_log_pages-recorded port e es (save_entry port t e')
    ∙ ap (λ b. after_records port b e (page_for e (save_entry port t e')) es) h.1
    ∙ ap (λ o. after_records port (is_attached e t) e o es) h.0
