-- ===== src/Endpoint/Features.antt =====
-- Set Features at the endpoint's controller (src/endpoint/pseudo_target.c).
use nvme_dem.Prelude.{ℕ, ◌*◌, ◌%◌, ◌^◌, ◌<◌, ◌≡◌, refl, true, List, some, arith, ◌==◌}
use nvme_dem.Nvme.Opcode
use nvme_dem.Dem.Discovery.Command.{to_int32}
use nvme_dem.Dem.Discovery.Request.{kato_ticks}
use nvme_dem.Endpoint.Ops.{Ops}
use nvme_dem.Endpoint.Report.{NsDev, Iface}
use nvme_dem.Endpoint.Request.{
  EpCommand, Transport, Conn, ntohl, handle_set_features, ended, dispatch, handle_request,
}

-- A time in the first byte of the field ends up in the last byte of the number.
swapped_time : (v : ℕ) → v < 2 ^ 8 → ntohl v * kato_ticks % 2 ^ 32 ≡ v * kato_ticks % 2 ^ 8 * 2 ^ 24
unfolding ntohl
swapped_time v h = omega arith

swapped_feature : (f : ℕ) → f < 2 ^ 24 → (ntohl f % 2 ^ 8 == 0) ≡ true
unfolding ntohl
swapped_feature f h = ground arith

module _ {S : Type 0} (ops : Ops S) (devices : List NsDev) (interfaces : List Iface) where
  -- Set Features with any feature identifier, not only that of the keep-alive time, whose last byte
  -- is 0 is accepted, and a value `v` below 256 sets the time to `5 * v % 256 * 2 ^ 24` rounds, read
  -- as a signed number, in place of `5 * v`.
  pub set_features_swapped :
      (x : Transport) (k : Conn S) (c : EpCommand)
      → c.cmd.opcode ≡ Opcode.set_features
      → c.cmd.cdw10 < 2 ^ 24
      → c.cmd.cdw11 < 2 ^ 8
      → handle_request ops devices interfaces x k c
        ≡ some (record {
          act = ended 0 (record k {
            host = record k.host { kato = to_int32 (c.cmd.cdw11 * 5 % 2 ^ 8 * 2 ^ 24) };
          });
          resp = record { command_id = c.cmd.command_id; status = 0; result = 0 };
        })
  unfolding handle_request dispatch handle_set_features
  set_features_swapped x k c o f v =
      let e = swapped_feature c.cmd.cdw10 f in
      let t = swapped_time c.cmd.cdw11 v in rw (o, e, t) refl
