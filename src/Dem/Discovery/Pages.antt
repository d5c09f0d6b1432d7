-- ===== src/Dem/Discovery/Pages.antt =====
-- `handle_get_log_page_count` and `handle_get_log_pages` of src/dem/pseudo_target.c: the loops over
-- the targets, subsystems and log pages, as written.
use nvme_dem.Prelude.{
  ℕ, ◌+◌, ◌*◌, Bool, not, ◌&&◌, ◌||◌, List, [], ◌∷◌, ◌++◌, ◌==◌, ltb, if◌then◌else◌, CStr, streq,
  any, length, pos, eqb_ℤ,
}
use nvme_dem.Dem.State.{Entry, LogPage, Subsystem, Target, Dem}
use nvme_dem.Dem.Groups.Ops.{shared_group}
use nvme_dem.Nvme.Sc

-- `host_access`
unfoldable pub host_access : Subsystem → CStr → Bool
host_access s nqn = any (λ h. streq h.nqn nqn) s.host_list

-- `subsys->access || host_access(subsys, ep->nqn)`
unfoldable pub allowed : Subsystem → CStr → Bool
allowed s nqn = not (eqb_ℤ s.access (pos 0)) || host_access s nqn

-- A target is skipped if it is in groups and shares none with the host.
unfoldable pub skipped : Dem → CStr → Target → Bool
skipped d nqn t = t.group_member && not (shared_group t.id nqn d)

-- The innermost loop of the count.
unfoldable pub count_pages : Subsystem → CStr → ℕ → List LogPage → ℕ
count_pages s nqn n [] = n
count_pages s nqn n (p ∷ ps) =
    count_pages s nqn (if not p.valid then n else if allowed s nqn then n + 1 else n) ps

unfoldable pub count_subsystems : CStr → ℕ → List Subsystem → ℕ
count_subsystems nqn n [] = n
count_subsystems nqn n (s ∷ ss) = count_subsystems nqn (count_pages s nqn n s.logpage_list) ss

unfoldable pub count_targets : Dem → CStr → ℕ → List Target → ℕ
count_targets d nqn n [] = n
count_targets d nqn n (t ∷ ts) =
    count_targets d nqn (if skipped d nqn t then n else count_subsystems nqn n t.subsys_list) ts

-- `numrec` of `handle_get_log_page_count`
unfoldable pub log_page_count : Dem → CStr → ℕ
log_page_count d nqn = count_targets d nqn 0 d.target_list

-- The loops of `handle_get_log_pages`, with the entries copied so far.
unfoldable pub copy_pages : Subsystem → CStr → List Entry → List LogPage → List Entry
copy_pages s nqn es [] = es
copy_pages s nqn es (p ∷ ps) =
    copy_pages s nqn (if not p.valid then es else if allowed s nqn then es ++ p.e ∷ [] else es) ps

unfoldable pub copy_subsystems : CStr → List Entry → List Subsystem → List Entry
copy_subsystems nqn es [] = es
copy_subsystems nqn es (s ∷ ss) = copy_subsystems nqn (copy_pages s nqn es s.logpage_list) ss

unfoldable pub copy_targets : Dem → CStr → List Entry → List Target → List Entry
copy_targets d nqn es [] = es
copy_targets d nqn es (t ∷ ts) =
    copy_targets d nqn (if skipped d nqn t then es else copy_subsystems nqn es t.subsys_list) ts

unfoldable pub log_pages : Dem → CStr → List Entry
log_pages d nqn = copy_targets d nqn [] d.target_list

-- The bytes that the handler writes into its buffer: the header's two counters, and the entries
-- behind the header, 1024 bytes each.
abbrev pub bytes_written : ℕ → ℕ
bytes_written n = if n == 0 then 16 else 1024 + 1024 * n

-- What the host is sent: the number of records, the records, or the identification.
pub data Payload : Type 0 where
  nothing identity : Payload
  count : ℕ → Payload
  pages : List Entry → Payload

-- The status and what was written to the host. `fault` is a write past the end of the buffer that
-- `malloc(len)` returned.
pub data Reply : Type 0 where
  fault : Reply
  reply : ℕ → Payload → Reply

-- What the transport answers: whether the key is allocated and whether the write succeeds.
unfoldable pub handle_get_log_page_count : Dem → CStr → Bool → Reply
handle_get_log_page_count d nqn written =
    if written
    then reply Sc.success (count (log_page_count d nqn))
    else reply Sc.write_fault nothing

unfoldable pub handle_get_log_pages : Dem → CStr → ℕ → Bool → Bool → Reply
handle_get_log_pages d nqn len keyed written =
    if not keyed
    then reply Sc.internal nothing
    else if ltb len (bytes_written (length (log_pages d nqn)))
    then fault
    else if written
    then reply Sc.success (pages (log_pages d nqn))
    else reply Sc.write_fault nothing
