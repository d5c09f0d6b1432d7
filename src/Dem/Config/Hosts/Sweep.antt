-- ===== src/Dem/Config/Hosts/Sweep.antt =====
-- `update_host` and `del_host` of src/dem/config.c, which go through the subsystems of all targets. The
-- stored configuration is not part of the state: what it returned is an argument.
use nvme_dem.Prelude.{
  ◌≡◌, refl, Bool, false, List, [], ◌∷◌, ◌++◌, Option, none, some, any, if◌then◌else◌, CStr, streq,
}
use nvme_dem.Dem.State.{Host, Subsystem, Target}
use nvme_dem.Dem.LogPages.Refresh.{Fabric, is_restricted}
use nvme_dem.Dem.Daemon.Subsys.{reset_subsys_dq_nqn, update_subsys_dq}
use nvme_dem.Dem.Config.Find.{put_first}
use nvme_dem.Dem.Config.Remote.{Remote, link_host_to, unlink_host_from, del_host_at}
use nvme_dem.Dem.Config.Result.{Ret, success, refused, Note, no_note, config_alert, Acted, ret_of}
use nvme_dem.Dem.Config.Hosts.{has_host_alias, find_host, set_hosts, drop_host}

-- The targets after a loop over them.
pub record Swept (W : Type 0) : Type 0 where
  pub ret : Ret
  pub note : Note
  pub targets : List Target
  pub world : W

abbrev pub alert_unless : Bool → Note → Note
alert_unless ok n = if ok then n else config_alert

module _ {W : Type 0} (r : Remote W) (f : Fabric) where
  -- `_update_host`; its result is the caller's to drop.
  unfoldable pub update_host_at : Subsystem → Host → CStr → Acted W → Acted W
  unfolding unlink_host_from link_host_to
  update_host_at s h hostnqn a =
      let h' = record h { nqn = hostnqn } in
      let hs = put_first (has_host_alias h.alias) h' s.host_list in
      let (ok, v) = unlink_host_from r a.target.mgmt_mode s h a.world in
      let (ok', v') = link_host_to r a.target.mgmt_mode s h' v in
      record {
        ret = ret_of ok';
        note = alert_unless ok' a.note;
        target = update_subsys_dq f (set_hosts s.id hs a.target) s h.nqn hostnqn;
        world = v';
      }

  abbrev pub rename_host : CStr → Subsystem → Host → CStr → Target → Target
  rename_host newalias s h hostnqn t =
      set_hosts s.id
        (put_first (has_host_alias h.alias) (record h { nqn = hostnqn; alias = newalias })
          s.host_list)
        t

  abbrev pub update_found : CStr → CStr → Subsystem → Acted W → Option Host → Acted W
  update_found newalias hostnqn s a none = a
  update_found newalias hostnqn s a (some h) =
      let b = if streq h.nqn hostnqn then a else update_host_at s h hostnqn a in
      if streq h.alias newalias
      then b
      else record b { target = rename_host newalias s h hostnqn b.target }

  unfoldable pub update_in : CStr → CStr → CStr → List Subsystem → Acted W → Acted W
  unfolding find_host
  update_in alias newalias hostnqn [] a = a
  update_in alias newalias hostnqn (s ∷ ss) a =
      update_in alias newalias hostnqn ss
        (update_found newalias hostnqn s a (find_host alias s.host_list))

  unfoldable pub update_targets : CStr → CStr → CStr → List Target → Note → W → Swept W
  unfolding update_in
  update_targets alias newalias hostnqn [] n w = record {
    ret = success;
    note = n;
    targets = [];
    world = w;
  }
  update_targets alias newalias hostnqn (t ∷ ts) n w =
      let a =
        update_in alias newalias hostnqn t.subsys_list
          (record { ret = success; note = n; target = t; world = w }) in
      let rest = update_targets alias newalias hostnqn ts a.note a.world in
      record rest { targets = a.target ∷ rest.targets }

  abbrev pub alias_or : CStr → Option CStr → CStr
  alias_or newalias none = newalias
  alias_or newalias (some a) = a

  -- `json` is the alias and the NQN that `update_json_host` returns.
  unfoldable pub update_host : Option CStr → Option (CStr × CStr) → List Target → W → Swept W
  unfolding update_targets
  update_host alias none ts w = record { ret = refused; note = no_note; targets = ts; world = w }
  update_host alias (some j) ts w = update_targets (alias_or j.0 alias) j.0 j.1 ts no_note w

  abbrev pub del_found : CStr → Subsystem → Target → W → Option Host → Target × W
  del_found alias s t w none = (t, w)
  del_found alias s t w (some h) =
      let (ok, v) = unlink_host_from r t.mgmt_mode s h w in
      let s' = drop_host alias s in
      (reset_subsys_dq_nqn f (set_hosts s.id s'.host_list t) s' h.nqn, v)

  -- The restricted subsystems of a target.
  unfoldable pub del_in : CStr → List Subsystem → Target → W → Target × W
  unfolding is_restricted find_host
  del_in alias [] t w = (t, w)
  del_in alias (s ∷ ss) t w =
      let (t', v) =
        if is_restricted s then del_found alias s t w (find_host alias s.host_list) else (t, w) in
      del_in alias ss t' v

  -- `dirty` and what follows the loop over the subsystems.
  abbrev pub del_at : CStr → CStr → Target → Note → W → Acted W
  del_at alias hostnqn t n w =
      let (t', v) = del_in alias t.subsys_list t w in
      if any is_restricted t.subsys_list
      then (let (ok, v') = del_host_at r t.mgmt_mode hostnqn v in
          record { ret = ret_of ok; note = alert_unless ok n; target = t'; world = v' })
      else record { ret = success; note = n; target = t'; world = v }

  -- `ret` is that of the last target.
  unfoldable pub del_targets : CStr → CStr → List Target → Ret → Note → W → Swept W
  unfolding del_in
  del_targets alias hostnqn [] ret n w = record { ret = ret; note = n; targets = []; world = w }
  del_targets alias hostnqn (t ∷ ts) ret n w =
      let a = del_at alias hostnqn t n w in
      let rest = del_targets alias hostnqn ts a.ret a.note a.world in
      record rest { targets = a.target ∷ rest.targets }

  -- `json` is the NQN that `del_json_host` returns.
  unfoldable pub del_host : CStr → Option CStr → List Target → W → Swept W
  unfolding del_targets
  del_host alias none ts w = record { ret = refused; note = no_note; targets = ts; world = w }
  del_host alias (some nqn) ts w = del_targets alias nqn ts success no_note w

  last_ret :
      (alias hostnqn : CStr) (ts : List Target) (t : Target) (ret : Ret) (n : Note) (w : W)
      → any is_restricted t.subsys_list ≡ false
      → (del_targets alias hostnqn (ts ++ t ∷ []) ret n w).ret ≡ success
  unfolding del_targets
  last_ret alias hostnqn [] t ret n w h = rw h refl
  last_ret alias hostnqn (u ∷ ts) t ret n w h =
      let a = del_at alias hostnqn u n w in last_ret alias hostnqn ts t a.ret a.note a.world h

  -- Deleting a host returns success if the last target has no restricted subsystem, whatever became of
  -- the orders to the targets before it.
  pub del_host_forgets_errors :
      (alias nqn : CStr) (ts : List Target) (t : Target) (w : W)
      → any is_restricted t.subsys_list ≡ false
      → (del_host alias (some nqn) (ts ++ t ∷ []) w).ret ≡ success
  unfolding del_host
  del_host_forgets_errors alias nqn ts t w h = last_ret alias nqn ts t success no_note w h
