-- ===== src/Dem/LogPages/Sound.antt =====
-- A whole refresh of a target (src/dem/logpages.c): where the valid log pages come from, and what
-- becomes of the connections.
use nvme_dem.Prelude.{ℕ, false, ◌≡◌, refl, List, [], ◌∷◌, arith, All, Any, inl, inr, Bool-cases}
use nvme_dem.Dem.State.{Entry, CtrlQueue, Target}
use nvme_dem.Dem.LogPages.Fetch.{Fetched, nodata, inval, overread, records, get_logpages}
use nvme_dem.Dem.LogPages.Save.{invalidate_log_pages}
use nvme_dem.Dem.LogPages.Fresh.{Fresh, save_log_pages-Fresh, invalidate-Fresh}
use nvme_dem.Dem.LogPages.Refresh.{
  Fabric, fetch_log_pages, save_fetched, refresh_dq, refresh_dqs, refresh_log_pages, avilable_dq,
}

-- A record that a fetch brought.
abbrev pub InFetched : Fetched → Entry → Type 0
InFetched (records es) x = Any (λ e. x ≡ e) es
InFetched nodata x = ⊥
InFetched inval x = ⊥
InFetched overread x = ⊥

-- A record that the peer of one of the queues handed over.
abbrev pub Reported : Fabric → List CtrlQueue → Entry → Type 0
Reported f dqs x = Any (λ dq. InFetched (get_logpages (f.header dq) (f.pages dq)) x) dqs

module _ (f : Fabric) (Q : Entry → Type 0) where
  abbrev Accepts : CtrlQueue → Type 0
  Accepts dq = (x : Entry) → InFetched (get_logpages (f.header dq) (f.pages dq)) x → Q x

  accepts-All : (es : List Entry) → ((x : Entry) → Any (λ e. x ≡ e) es → Q x) → All Q es
  accepts-All [] a = tt
  accepts-All (e ∷ es) a = (a e (inl refl), accepts-All es (λ x i. a x (inr i)))

  fetched-Fresh :
      (port : ℕ) (t : Target) (r : Fetched)
      → ((x : Entry) → InFetched r x → Q x)
      → Fresh Q t
      → Fresh Q (save_fetched port t r)
  fetched-Fresh port t (records es) a h = save_log_pages-Fresh Q port es t (accepts-All es a) h
  fetched-Fresh port t nodata a h = h
  fetched-Fresh port t inval a h = h
  fetched-Fresh port t overread a h = h

  fetch-Fresh :
      (t : Target) (dq : CtrlQueue) → Accepts dq → Fresh Q t → Fresh Q (fetch_log_pages f t dq)
  unfolding fetch_log_pages
  fetch-Fresh t dq a h = fetched-Fresh dq.portid t (get_logpages (f.header dq) (f.pages dq)) a h

  dq-Fresh : (t : Target) (dq : CtrlQueue) → Accepts dq → Fresh Q t → Fresh Q (refresh_dq f t dq).0
  unfolding refresh_dq
  dq-Fresh t dq a h = elim (Bool-cases dq.connected) [
    | inl c ↦ simp c (fetch-Fresh t dq a h)
    | inr c ↦ simp c (elim (Bool-cases (avilable_dq t dq)) [
      | inr n ↦ rw n h
      | inl y ↦ rw y (elim (Bool-cases (f.connects dq)) [
        | inl ok ↦ rw ok (fetch-Fresh t dq a h)
        | inr failed ↦ rw failed h
      ])
    ])
  ]

  dqs-Fresh :
      (t : Target) (dqs : List CtrlQueue)
      → All Accepts dqs
      → Fresh Q t
      → Fresh Q (refresh_dqs f t dqs).0
  unfolding refresh_dqs
  dqs-Fresh t [] a h = h
  dqs-Fresh t (dq ∷ dqs) a h = dqs-Fresh (refresh_dq f t dq).0 dqs a.1 (dq-Fresh t dq a.0 h)

-- After a refresh every valid log page of the target lies under the subsystem that its record names
-- and holds a record that the peer of one of the target's queues handed over in that refresh, and
-- every unattached log page holds such a record.
pub refresh_log_pages-Fresh :
    (f : Fabric) (t : Target) → Fresh (Reported f t.discovery_queue_list) (refresh_log_pages f t)
unfolding refresh_log_pages
refresh_log_pages-Fresh f t =
    dqs-Fresh f (Reported f dqs) (invalidate_log_pages t) dqs (every dqs (λ dq x i. i))
      (invalidate-Fresh (Reported f dqs) t)
  where
    dqs : List CtrlQueue
    dqs = t.discovery_queue_list

    every :
        (l : List CtrlQueue)
        → ((dq : CtrlQueue) (x : Entry)
            → Any (λ d. InFetched (get_logpages (f.header d) (f.pages d)) x) l
            → Reported f dqs x)
        → All
            (λ dq.
              (x : Entry)
              → InFetched (get_logpages (f.header dq) (f.pages dq)) x
              → Reported f dqs x)
            l
    every [] k = tt
    every (dq ∷ l) k = (λ x i. k dq x (inl i), every l (λ d x i. k d x (inr i)))

abbrev pub IsIdle : List CtrlQueue → Type 0
IsIdle = All (λ dq. dq.connected ≡ false)

refresh_dq-connected :
    (f : Fabric) (t : Target) (dq : CtrlQueue)
    → dq.connected ≡ false
    → (refresh_dq f t dq).1.connected ≡ false
unfolding refresh_dq
refresh_dq-connected f t dq h = ground arith

refresh_dqs-IsIdle :
    (f : Fabric) (t : Target) (dqs : List CtrlQueue) → IsIdle dqs → IsIdle (refresh_dqs f t dqs).1
unfolding refresh_dqs
refresh_dqs-IsIdle f t [] h = tt
refresh_dqs-IsIdle f t (dq ∷ dqs) h =
    (refresh_dq-connected f t dq h.0, refresh_dqs-IsIdle f (refresh_dq f t dq).0 dqs h.1)

-- If no discovery queue of a target is marked as connected, then none is after a refresh, whatever
-- connections the refresh makes.
pub refresh_log_pages-IsIdle :
    (f : Fabric) (t : Target)
    → IsIdle t.discovery_queue_list
    → IsIdle (refresh_log_pages f t).discovery_queue_list
unfolding refresh_log_pages
refresh_log_pages-IsIdle f t h =
    refresh_dqs-IsIdle f (invalidate_log_pages t) t.discovery_queue_list h
