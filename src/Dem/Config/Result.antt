-- ===== src/Dem/Config/Result.antt =====
-- What an operation of src/dem/config.c returns and leaves.
use nvme_dem.Prelude.{ℕ, Bool, List, [], Option, none, some, if◌then◌else◌, CStr}
use nvme_dem.Dem.State.{Target, Dem}
use nvme_dem.Dem.Notify.Lists.{Notification}
use nvme_dem.Dem.Notify.Send.{Peers, send_notifications}
use nvme_dem.Dem.Config.Find.{has_alias, put_first}

-- 0, the error of the stored configuration, -ENOENT, and the error of an order.
pub data Ret : Type 0 where
  success refused no_entry unsent : Ret

-- What the operation writes to `resp` after the stored configuration.
pub data Note : Type 0 where
  no_note config_alert target_err nsdev_err : Note

-- The effect on a target, and on what is at the other end.
pub record Acted (W : Type 0) : Type 0 where
  pub ret : Ret
  pub note : Note
  pub target : Target
  pub world : W

-- `told` is the endpoints of hosts that were sent a notification.
pub record Done (W : Type 0) : Type 0 where
  pub ret : Ret
  pub note : Note
  pub dem : Dem
  pub world : W
  pub told : List ℕ

abbrev pub stopped : {W : Type 0} → Ret → Note → Dem → W → Done W
stopped r n d w = record { ret = r; note = n; dem = d; world = w; told = [] }

abbrev pub ret_of : Bool → Ret
ret_of ok = if ok then success else unsent

abbrev pub note_of : Bool → Note
note_of ok = if ok then no_note else config_alert

-- The end without and with notifications; `alias` is the name that the target was found by.
unfoldable pub stored : {W : Type 0} → CStr → Dem → Acted W → Done W
stored alias d a = record {
  ret = a.ret;
  note = a.note;
  dem = record d { target_list = put_first (has_alias alias) a.target d.target_list };
  world = a.world;
  told = [];
}

unfoldable pub announced : {W : Type 0} → Peers → List Notification → Done W → Done W
announced p l r =
    let s = send_notifications p l r.dem.aen_req_list in
    record r { dem = record r.dem { aen_req_list = s.pending }; told = s.eps }

-- Behind the search for a target: a target that is not found is no error.
abbrev pub for_target : {W : Type 0} → CStr → Dem → W → (Target → Acted W) → Option Target → Done W
for_target alias d w f none = stopped success no_note d w
for_target alias d w f (some t) = stored alias d (f t)
