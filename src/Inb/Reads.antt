-- ===== src/Inb/Reads.antt =====
-- What the endpoint (src/endpoint/pseudo_target.c) reads in each message that src/dem/config.c
-- builds.
use nvme_dem.Prelude.{
  ℕ, ◌^◌, ◌≤◌, ◌<◌, ◌≡◌, ◌⊎◌, inl, inr, refl, ap, ◌∙◌, false, List, some, arith, CStr, ℤ, pos,
  negsuc, eqb_ℤ,
}
use nvme_dem.Memory.{Mem, write, padded, received}
use nvme_dem.Memory.Laws.{IsAt, IsAt-write, write-IsAt, length-padded}
use nvme_dem.Memory.Words.{le8, le16, le32, read8, read16, read32}
use nvme_dem.Dem.State.{Ns, Subsystem, PortId}
use nvme_dem.Dem.Discovery.Command.{of_int32, to_int32}
use nvme_dem.Endpoint.Config.{text_at, local_devid}
use nvme_dem.Inb.Build.{
  nqn_size, wire_devid, nullb_devid, build_subsys_config_inb, build_link_host_inb,
  build_link_port_inb, build_port_delete_inb, build_ns_config_inb, build_ns_delete_inb,
}
use nvme_dem.Inb.Fields.{
  IsNqn, InRange, of_int32_small, text_at-name, word8_at, word16_at, word32_at,
}

-- A name first, then what is written behind it.
pub name_first :
    (len : ℕ) (m old : Mem) (s : CStr)
    → IsNqn s
    → 256 ≤ len
    → text_at (received len (write m 0 (padded nqn_size s)) old) 0 ≡ some s
name_first len m old s n h =
    text_at-name len 0 (write m 0 (padded nqn_size s)) old s n (omega arith) (omega arith)
      (write-IsAt m 0 (padded nqn_size s))

-- A field at 256 or further on leaves the name before it alone.
name_before :
    (len a : ℕ) (m old : Mem) (s : CStr) (vs : List ℕ)
    → IsNqn s
    → 256 ≤ len
    → 256 ≤ a
    → IsAt m 0 (padded nqn_size s)
    → text_at (received len (write m a vs) old) 0 ≡ some s
name_before len a m old s vs n h k p =
    text_at-name len 0 (write m a vs) old s n (omega arith) (omega arith)
      (IsAt-write m a vs 0 (padded nqn_size s) (inl (omega (arith, length-padded nqn_size s))) p)

pub link_port_read :
    (m old : Mem) (s : Subsystem) (p : PortId)
    → IsNqn s.nqn
    → InRange (2 ^ 16) p.portid
    → (text_at (received 258 (build_link_port_inb m s p) old) 0 ≡ some s.nqn)
      × (pos (read16 (received 258 (build_link_port_inb m s p) old) 256) ≡ p.portid)
unfolding build_link_port_inb
link_port_read m old s p n r =
    let m' = write m 0 (padded nqn_size s.nqn) in
    let v = le16 (of_int32 p.portid) in
    (
      name_before 258 256 m' old s.nqn v n (omega arith) (omega arith)
          (write-IsAt m 0 (padded nqn_size s.nqn)),
      word16_at 258 256 (write m' 256 v) old p.portid r (omega arith) (write-IsAt m' 256 v),
    )

pub link_host_read :
    (m old : Mem) (s : Subsystem) (nqn : CStr)
    → IsNqn s.nqn
    → IsNqn nqn
    → (text_at (received 512 (build_link_host_inb m s nqn) old) 0 ≡ some s.nqn)
      × (text_at (received 512 (build_link_host_inb m s nqn) old) 256 ≡ some nqn)
unfolding build_link_host_inb
link_host_read m old s nqn n k =
    let m' = write m 0 (padded nqn_size s.nqn) in
    (
      name_before 512 256 m' old s.nqn (padded nqn_size nqn) n (omega arith) (omega arith)
          (write-IsAt m 0 (padded nqn_size s.nqn)),
      text_at-name 512 256 (write m' 256 (padded nqn_size nqn)) old nqn k (omega arith)
          (omega arith) (write-IsAt m' 256 (padded nqn_size nqn)),
    )

pub subsys_read :
    (m old : Mem) (s : Subsystem)
    → IsNqn s.nqn
    → InRange 256 s.access
    → (text_at (received 257 (build_subsys_config_inb m s) old) 0 ≡ some s.nqn)
      × (pos (read8 (received 257 (build_subsys_config_inb m s) old) 256) ≡ s.access)
unfolding build_subsys_config_inb
subsys_read m old s n r =
    let v = of_int32 s.access in
    let w = of_int32_small s.access 256 (omega arith) r in
    let m' = write m 256 (le8 v) in
    (
      name_first 257 m' old s.nqn n (omega arith),
      ap pos (
            word8_at 257 256 v (write m' 0 (padded nqn_size s.nqn)) old w.0 (omega arith) (
              IsAt-write m' 0 (padded nqn_size s.nqn) 256 (le8 v)
                (inr (omega (arith, length-padded nqn_size s.nqn))) (write-IsAt m 256 (le8 v))))
          ∙ w.1,
    )

pub ns_delete_read :
    (m old : Mem) (s : Subsystem) (n : Ns)
    → IsNqn s.nqn
    → InRange (2 ^ 31) n.nsid
    → (text_at (received 260 (build_ns_delete_inb m s n) old) 0 ≡ some s.nqn)
      × (to_int32 (read32 (received 260 (build_ns_delete_inb m s n) old) 256) ≡ n.nsid)
unfolding build_ns_delete_inb
ns_delete_read m old s n k r =
    let v = of_int32 n.nsid in
    let w = of_int32_small n.nsid (2 ^ 31) (omega arith) r in
    let m' = write m 0 (padded nqn_size s.nqn) in
    (
      name_before 260 256 m' old s.nqn (le32 v) k (omega arith) (omega arith)
          (write-IsAt m 0 (padded nqn_size s.nqn)),
      ap to_int32 (
            word32_at 260 256 v (write m' 256 (le32 v)) old (omega (arith, w.0)) (omega arith)
              (write-IsAt m' 256 (le32 v)))
          ∙ w.2,
    )

-- A device id that the message can carry: none of the values that it reserves.
abbrev pub IsDevid : ℤ → Type 0
IsDevid d = (d ≡ nullb_devid) ⊎ InRange (2 ^ 31) d × (eqb_ℤ d (pos 255) ≡ false)

devid_round : (d : ℤ) → IsDevid d → (wire_devid d < 2 ^ 32) × (local_devid (wire_devid d) ≡ d)
devid_round d (inl e) = rw e (omega arith, refl)
devid_round (pos k) (inr r) = (ground arith, ground arith)
devid_round (negsuc k) (inr r) = absurd r.0

pub ns_config_read :
    (m old : Mem) (s : Subsystem) (n : Ns)
    → IsNqn s.nqn
    → InRange (2 ^ 31) n.nsid
    → IsDevid n.devid
    → InRange (2 ^ 31) n.devns
    → (text_at (received 268 (build_ns_config_inb m s n) old) 0 ≡ some s.nqn)
      × (to_int32 (read32 (received 268 (build_ns_config_inb m s n) old) 256) ≡ n.nsid)
      × (local_devid (read32 (received 268 (build_ns_config_inb m s n) old) 260) ≡ n.devid)
      × (to_int32 (read32 (received 268 (build_ns_config_inb m s n) old) 264) ≡ n.devns)
unfolding build_ns_config_inb
ns_config_read m old s n k r d e =
    let name = padded nqn_size s.nqn in
    let a = of_int32 n.nsid in
    let b = wire_devid n.devid in
    let c = of_int32 n.devns in
    let m1 = write m 0 name in
    let m2 = write m1 256 (le32 a) in
    let m3 = write m2 260 (le32 b) in
    let m4 = write m3 264 (le32 c) in
    let wa = of_int32_small n.nsid (2 ^ 31) (omega arith) r in
    let wb = devid_round n.devid d in
    let wc = of_int32_small n.devns (2 ^ 31) (omega arith) e in
    (
      name_before 268 264 m3 old s.nqn (le32 c) k (omega arith) (omega arith) (
          IsAt-write m2 260 (le32 b) 0 name (inl (omega (arith, length-padded nqn_size s.nqn))) (
            IsAt-write m1 256 (le32 a) 0 name (inl (omega (arith, length-padded nqn_size s.nqn)))
              (write-IsAt m 0 name))),
      ap to_int32 (
            word32_at 268 256 a m4 old (omega (arith, wa.0)) (omega arith) (
              IsAt-write m3 264 (le32 c) 256 (le32 a) (inl (omega arith)) (
                IsAt-write m2 260 (le32 b) 256 (le32 a) (inl (omega arith))
                  (write-IsAt m1 256 (le32 a)))))
          ∙ wa.2,
      ap local_devid (
            word32_at 268 260 b m4 old wb.0 (omega arith) (
              IsAt-write m3 264 (le32 c) 260 (le32 b) (inl (omega arith))
                (write-IsAt m2 260 (le32 b))))
          ∙ wb.1,
      ap to_int32 (
            word32_at 268 264 c m4 old (omega (arith, wc.0)) (omega arith)
              (write-IsAt m3 264 (le32 c)))
          ∙ wc.2,
    )

pub port_delete_read :
    (m old : Mem) (p : PortId)
    → InRange (2 ^ 16) p.portid
    → pos (read16 (received 2 (build_port_delete_inb m p) old) 0) ≡ p.portid
unfolding build_port_delete_inb
port_delete_read m old p r =
    let v = le16 (of_int32 p.portid) in
    word16_at 2 0 (write m 0 v) old p.portid r (omega arith) (write-IsAt m 0 v)
