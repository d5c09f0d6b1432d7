-- ===== src/Dem/Daemon/Periodic.antt =====
-- `periodic_work` of src/dem/daemon.c for one target. `get_config`, which asks a managed target for
-- its configuration, is an argument. The products of the countdowns are taken to fit an `int`.
use nvme_dem.Prelude.{
  ℕ, zero, suc, ◌+◌, ◌*◌, ◌/◌, ◌≡◌, refl, ap, sym, ◌∙◌, false, not, List, [], ◌∷◌, arith,
  if◌then◌else◌, ℤ, pos, negsuc, neg, ltb_ℤ, eqb_ℤ, pred_ℤ, inl, inr, Bool-cases, subst,
}
use nvme_dem.Dem.State.{CtrlQueue, local_mgmt, in_band_mgmt, out_of_band_mgmt, Target}
use nvme_dem.Dem.LogPages.Refresh.{Fabric, refresh_log_pages}
use nvme_dem.Dem.LogPages.Sound.{IsIdle}
use nvme_dem.Dem.Daemon.Alive.{Peer, Pinged, ping_queues, Alive, after_pings, keep_alive_work}

-- `target->refresh * MINUTES / IDLE_TIMEOUT`
abbrev pub refresh_rounds : ℤ → ℤ
refresh_rounds (pos n) = pos (n * 60000 / 100)
refresh_rounds (negsuc n) = neg (suc n * 60000 / 100)

-- `if (target->mgmt_mode != LOCAL_MGMT) get_config(target);`
abbrev pub configured : (Target → Target) → Target → Target
configured get_config t = elim t.mgmt_mode [
  | local_mgmt ↦ t
  | in_band_mgmt ↦ get_config t
  | out_of_band_mgmt ↦ get_config t
]

abbrev pub refreshed : Fabric → (Target → Target) → Target → Target
refreshed f get_config t =
    let t' = refresh_log_pages f (configured get_config t) in
    record t' { refresh_countdown = refresh_rounds t'.refresh }

abbrev pub count_down : Fabric → (Target → Target) → Target → Target
count_down f get_config t =
    let t' = record t { refresh_countdown = pred_ℤ t.refresh_countdown } in
    if not (eqb_ℤ t'.refresh_countdown (pos 0)) then t' else refreshed f get_config t'

-- `if (target->log_page_retry_count) if (--target->log_page_retry_count) continue;`
abbrev pub retry : Fabric → (Target → Target) → Target → Target
retry f get_config t =
    let t' = record t { log_page_retry_count = pred_ℤ t.log_page_retry_count } in
    if eqb_ℤ t.log_page_retry_count (pos 0)
    then count_down f get_config t
    else if not (eqb_ℤ t'.log_page_retry_count (pos 0))
    then t'
    else count_down f get_config t'

abbrev pub after_work : Fabric → (Target → Target) → Alive → Target
after_work f get_config a = if a.failed then a.target else retry f get_config a.target

-- One round of the loop.
unfoldable pub periodic_target : Fabric → Peer → (Target → Target) → Target → Target
periodic_target f k get_config t = after_work f get_config (keep_alive_work k t)

unfoldable pub periodic_rounds : Fabric → Peer → (Target → Target) → ℕ → Target → Target
periodic_rounds f k get_config zero t = t
periodic_rounds f k get_config (suc n) t =
    periodic_rounds f k get_config n (periodic_target f k get_config t)

-- What the keep-alives of a target without connected queues leave alone.
pub record SameLogs (t u : Target) : Type 0 where
  pub subsys : u.subsys_list ≡ t.subsys_list
  pub unattached : u.unattached_logpage_list ≡ t.unattached_logpage_list
  pub queues : u.discovery_queue_list ≡ t.discovery_queue_list

SameLogs-trans : {t u v : Target} → SameLogs t u → SameLogs u v → SameLogs t v
SameLogs-trans p q = record {
  subsys = q.subsys ∙ p.subsys;
  unattached = q.unattached ∙ p.unattached;
  queues = q.queues ∙ p.queues;
}

ping_idle :
    (k : Peer) (dqs : List CtrlQueue)
    → IsIdle dqs
    → ((ping_queues k dqs).failed ≡ false) × ((ping_queues k dqs).queues ≡ dqs)
unfolding ping_queues
ping_idle k [] h = (refl, refl)
ping_idle k (dq ∷ dqs) h = ground (arith, ping_idle k dqs h.1)

record Quiet (t : Target) (a : Alive) : Type 0 where
  fine : a.failed ≡ false
  same : SameLogs t a.target
  retries : a.target.log_page_retry_count ≡ t.log_page_retry_count
  countdown : a.target.refresh_countdown ≡ t.refresh_countdown

pings-Quiet :
    (k : Peer) (t : Target) (r : Pinged)
    → r.failed ≡ false
    → r.queues ≡ t.discovery_queue_list
    → Quiet t (after_pings k t r)
pings-Quiet k t r e q = rw e (record {
  fine = refl;
  same = record { subsys = refl; unattached = refl; queues = q };
  retries = refl;
  countdown = refl;
})

work-Quiet : (k : Peer) (t : Target) → IsIdle t.discovery_queue_list → Quiet t (keep_alive_work k t)
unfolding keep_alive_work
work-Quiet k t h = elim (Bool-cases (ltb_ℤ (pos 0) (pred_ℤ t.kato_countdown))) [
  | inl w ↦ rw w (record {
    fine = refl;
    same = record { subsys = refl; unattached = refl; queues = refl };
    retries = refl;
    countdown = refl;
  })
  | inr w ↦ rw w (
      again (
        pings-Quiet k (record t { kato_countdown = pred_ℤ t.kato_countdown })
          (ping_queues k t.discovery_queue_list) (ping_idle k t.discovery_queue_list h).0
          (ping_idle k t.discovery_queue_list h).1))
]
  where
    again :
        {a : Alive} → Quiet (record t { kato_countdown = pred_ℤ t.kato_countdown }) a → Quiet t a
    again q = record {
      fine = q.fine;
      same = record {
        subsys = q.same.subsys;
        unattached = q.same.unattached;
        queues = q.same.queues;
      };
      retries = q.retries;
      countdown = q.countdown;
    }

module _ (f : Fabric) (k : Peer) (get_config : Target → Target) where
  retry_left :
      (u : Target) (r : ℕ)
      → u.log_page_retry_count ≡ pos (suc (suc r))
      → retry f get_config u ≡ record u { log_page_retry_count = pos (suc r) }
  retry_left u r h = ground arith

  retry_done :
      (u : Target) (c : ℕ)
      → u.log_page_retry_count ≡ pos 0
      → u.refresh_countdown ≡ pos (suc (suc c))
      → retry f get_config u ≡ record u { refresh_countdown = pos (suc c) }
  retry_done u c h e = ground arith

  step_retry :
      (t : Target) (r : ℕ)
      → IsIdle t.discovery_queue_list
      → t.log_page_retry_count ≡ pos (suc (suc r))
      → SameLogs t (periodic_target f k get_config t)
        × ((periodic_target f k get_config t).log_page_retry_count ≡ pos (suc r))
        × ((periodic_target f k get_config t).refresh_countdown ≡ t.refresh_countdown)
  unfolding periodic_target
  step_retry t r h e =
      let q = work-Quiet k t h in
      let u = (keep_alive_work k t).target in
      rw q.fine (
        rw (retry_left u r (q.retries ∙ e)) (
          record { subsys = q.same.subsys; unattached = q.same.unattached; queues = q.same.queues },
          refl,
          q.countdown,
        ))

  step_countdown :
      (t : Target) (c : ℕ)
      → IsIdle t.discovery_queue_list
      → t.log_page_retry_count ≡ pos 0
      → t.refresh_countdown ≡ pos (suc (suc c))
      → SameLogs t (periodic_target f k get_config t)
        × ((periodic_target f k get_config t).log_page_retry_count ≡ pos 0)
        × ((periodic_target f k get_config t).refresh_countdown ≡ pos (suc c))
  unfolding periodic_target
  step_countdown t c h e d =
      let q = work-Quiet k t h in
      let u = (keep_alive_work k t).target in
      rw q.fine (
        rw (retry_done u c (q.retries ∙ e) (q.countdown ∙ d)) (
          record { subsys = q.same.subsys; unattached = q.same.unattached; queues = q.same.queues },
          q.retries ∙ e,
          refl,
        ))

  stays-IsIdle :
      {t u : Target} → SameLogs t u → IsIdle t.discovery_queue_list → IsIdle u.discovery_queue_list
  stays-IsIdle s h = subst IsIdle (sym s.queues) h

  -- A target without connected queues whose retry count is `n + r + 1` is not refreshed in `n`
  -- rounds: its log pages and queues stay, the retry count falls to `r + 1`, and the countdown to the
  -- next refresh stands still.
  pub periodic_rounds-retry :
      (n r : ℕ) (t : Target)
      → IsIdle t.discovery_queue_list
      → t.log_page_retry_count ≡ pos (suc (n + r))
      → SameLogs t (periodic_rounds f k get_config n t)
        × ((periodic_rounds f k get_config n t).log_page_retry_count ≡ pos (suc r))
        × ((periodic_rounds f k get_config n t).refresh_countdown ≡ t.refresh_countdown)
  unfolding periodic_rounds
  periodic_rounds-retry zero r t h e = (
    record { subsys = refl; unattached = refl; queues = refl },
    e ∙ ap (λ x. pos (suc x)) {x = 0 + r} {y = r} (omega arith),
    refl,
  )
  periodic_rounds-retry (suc n) r t h e =
      let s =
        step_retry t (n + r) h
          (e ∙ ap (λ x. pos (suc x)) {x = suc n + r} {y = suc (n + r)} (omega arith)) in
      let i =
        periodic_rounds-retry n r (periodic_target f k get_config t) (stays-IsIdle s.0 h) s.1 in
      (SameLogs-trans s.0 i.0, i.1, i.2 ∙ s.2)

  -- A target without connected queues and without a retry count, whose countdown to the next refresh
  -- is `n + c + 1`, is not refreshed in `n` rounds, and the countdown falls to `c + 1`.
  pub periodic_rounds-countdown :
      (n c : ℕ) (t : Target)
      → IsIdle t.discovery_queue_list
      → t.log_page_retry_count ≡ pos 0
      → t.refresh_countdown ≡ pos (suc (n + c))
      → SameLogs t (periodic_rounds f k get_config n t)
        × ((periodic_rounds f k get_config n t).log_page_retry_count ≡ pos 0)
        × ((periodic_rounds f k get_config n t).refresh_countdown ≡ pos (suc c))
  unfolding periodic_rounds
  periodic_rounds-countdown zero c t h e d = (
    record { subsys = refl; unattached = refl; queues = refl },
    e,
    d ∙ ap (λ x. pos (suc x)) {x = 0 + c} {y = c} (omega arith),
  )
  periodic_rounds-countdown (suc n) c t h e d =
      let s =
        step_countdown t (n + c) h e
          (d ∙ ap (λ x. pos (suc x)) {x = suc n + c} {y = suc (n + c)} (omega arith)) in
      let i =
        periodic_rounds-countdown n c (periodic_target f k get_config t) (stays-IsIdle s.0 h) s.1
          s.2 in
      (SameLogs-trans s.0 i.0, i.1, i.2)
