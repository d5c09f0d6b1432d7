-- ===== src/Dem/Discovery/Service.antt =====
-- The service of one host in a round of `host_thread` (src/dem/pseudo_target.c): its pending
-- commands in turn, then the poll that ends the round.
use nvme_dem.Prelude.{
  ℕ, zero, suc, ◌-◌, ◌*◌, ◌%◌, ◌^◌, ◌<◌, ◌≡◌, refl, ap, ◌∙◌, inl, inr, Bool-cases, Bool, List, [],
  ◌∷◌, Option, none, some, arith, ◌==◌, ltb, if◌then◌else◌, ℤ, pos, ltb_ℤ, pred_ℤ,
}
use nvme_dem.Dem.State.{Dem}
use nvme_dem.Dem.Discovery.Command.{Command, to_int32}
use nvme_dem.Dem.Discovery.Pages.{nothing}
use nvme_dem.Dem.Discovery.Request.{Transport, HostConn, Handled, step, finish, handle_request}
use nvme_dem.Dem.Discovery.Answer.{set_features_lem, set_kato}
use nvme_dem.Nvme.Sc
use nvme_dem.Nvme.Opcode
use nvme_dem.Nvme.Feat

-- How the last poll of the round ends: -EAGAIN, or another error.
pub data Poll : Type 0 where
  again failed : Poll

-- `crashed` is undefined behaviour in a handler.
pub data Served : Type 0 where
  kept : HostConn → Dem → Served
  dropped : Dem → Served
  crashed : Served

-- RETRY_COUNT, the time that a new host gets.
abbrev pub retry_count : ℤ
retry_count = pos 200

-- `if (--host->countdown > 0) continue;`
abbrev pub tick : HostConn → HostConn
tick h = record h { countdown = pred_ℤ h.countdown }

abbrev pub lasts : HostConn → Bool
lasts h = ltb_ℤ (pos 0) (tick h).countdown

-- A handled command gives the host its full time again.
abbrev pub revived : HostConn → HostConn
revived h = record h { countdown = h.kato }

abbrev pub after_command : (HostConn → Dem → Served) → Option Handled → Served
after_command k none = crashed
after_command k (some r) = if r.ret == 0 then k (revived r.host) r.dem else dropped r.dem

unfoldable pub serve_host : HostConn → Dem → List (Transport × Command) → Poll → Served
serve_host h d [] failed = dropped d
serve_host h d [] again = if lasts h then kept (tick h) d else dropped d
serve_host h d ((x, c) ∷ ms) p =
    after_command (λ h' d'. serve_host h' d' ms p) (handle_request x h d c)

abbrev pub continue : (HostConn → Dem → Served) → Served → Served
continue k (kept h d) = k h d
continue k (dropped d) = dropped d
continue k crashed = crashed

-- Rounds in which the host is silent.
unfoldable pub idle_rounds : ℕ → HostConn → Dem → Served
idle_rounds zero h d = kept h d
idle_rounds (suc n) h d = continue (idle_rounds n) (serve_host h d [] again)

serve_silent :
    (c : ℕ) (h : HostConn) (d : Dem)
    → h.countdown ≡ pos c
    → serve_host h d [] again
      ≡ (if ltb 1 c then kept (record h { countdown = pos (c - 1) }) d else dropped d)
unfolding serve_host
serve_silent zero h d e = rw e refl
serve_silent (suc c) h d e = rw e (ground arith)

-- A host with the time `c` is kept through `n` silent rounds, `n` at least 1, exactly when `n` is
-- less than `c`, and is dropped otherwise; a round takes one off its time and changes nothing else.
pub idle_rounds_lem :
    (n c : ℕ) (h : HostConn) (d : Dem)
    → h.countdown ≡ pos c
    → idle_rounds (suc n) h d
      ≡ (if ltb (suc n) c then kept (record h { countdown = pos (c - suc n) }) d else dropped d)
unfolding idle_rounds
idle_rounds_lem zero c h d e =
    ap (continue (idle_rounds zero)) (serve_silent c h d e) ∙ ground arith
idle_rounds_lem (suc n) c h d e = elim (Bool-cases (ltb 1 c)) [
  | inl l ↦
      ap (continue (idle_rounds (suc n))) (serve_silent c h d e)
      ∙ rw l
          (idle_rounds_lem n (c - 1) (record h { countdown = pos (c - 1) }) d refl ∙ ground arith)
  | inr l ↦ ap (continue (idle_rounds (suc n))) (serve_silent c h d e) ∙ rw l (ground arith)
]

int_small : (n : ℕ) → n < 2 ^ 31 → to_int32 (n % 2 ^ 32) ≡ pos n
int_small n h = ground arith

-- A host that sets a keep-alive value `k` and is then silent is dropped in the same round if `k` is
-- 0, and otherwise has the time `5 * k`, less the one that the round takes, as long as `5 * k` is an
-- `int`.
pub set_kato_lifetime :
    (x : Transport) (h : HostConn) (d : Dem) (set : Command)
    → set.opcode ≡ Opcode.set_features
    → set.cdw10 % 256 ≡ Feat.kato
    → set.cdw11 * 5 < 2 ^ 31
    → serve_host h d ((x, set) ∷ []) again ≡ (
        if ltb 0 set.cdw11
        then kept (record h { kato = pos (set.cdw11 * 5); countdown = pos (set.cdw11 * 5 - 1) }) d
        else dropped d)
unfolding serve_host
set_kato_lifetime x h d set a b small =
    let t = set.cdw11 * 5 in
    let h' : HostConn = record h { kato = pos t } in
    let e =
      set_features_lem x h d set a
      ∙ ap (finish set d nothing) (
          set_kato x h d set b
          ∙ ap (λ k. step Sc.success (record h { kato = k })) (int_small t small)) in
    ap (after_command (λ k m. serve_host k m [] again)) e
    ∙ serve_silent t (revived h') d refl
    ∙ same_test
  where
    same_test :
        (if ltb 1 (set.cdw11 * 5)
          then kept (record h { kato = pos (set.cdw11 * 5); countdown = pos (set.cdw11 * 5 - 1) }) d
          else dropped d)
        ≡ (if ltb 0 set.cdw11
            then kept
                (record h { kato = pos (set.cdw11 * 5); countdown = pos (set.cdw11 * 5 - 1) })
                d
            else dropped d)
    same_test = ground arith
