-- ===== src/Inb/Devices.antt =====
-- `get_inb_nsdevs` of src/dem/config.c: the list of a target's namespace devices, against what
-- `get_nsdev` of src/endpoint/pseudo_target.c reports.
use nvme_dem.Prelude.{
  ℕ, zero, suc, ◌+◌, ◌*◌, ◌%◌, ◌≤◌, ◌<◌, ◌≡◌, ◌⊎◌, inl, inr, refl, ap, ◌∙◌, Bool, true, false, ◌&&◌,
  List, [], ◌∷◌, Option, none, some, arith, All, any, map, length, ◌==◌, if◌then◌else◌, ℤ, pos,
  negsuc, eqb_ℤ,
}
use nvme_dem.Memory.{Mem, write, received}
use nvme_dem.Memory.Laws.{write-IsAt, write_outside}
use nvme_dem.Dem.Discovery.Command.{of_int32}
use nvme_dem.Endpoint.Report.{NsDev, dev_entry, write_devs, Report, get_nsdev}
use nvme_dem.Inb.Build.{nullb_devid, wire_nullb_devid}
use nvme_dem.Inb.Fields.{InRange}
use nvme_dem.Inb.Merge.{Listed, unmark, mark_all, shows, merged_lem}

-- Equality of two devices, as the loop tests it.
unfoldable pub same_dev : NsDev → NsDev → Bool
same_dev a b = eqb_ℤ a.devid b.devid && eqb_ℤ a.nsid b.nsid

abbrev pub dev_of : ℕ → ℤ
dev_of b = if b == wire_nullb_devid then nullb_devid else pos b

-- The loop over the entries, from offset `a` on.
unfoldable pub read_devs : ℕ → Mem → ℕ → List NsDev
read_devs zero m a = []
read_devs (suc n) m a =
    record { devid = dev_of (m a); nsid = pos (m (a + 1)) } ∷ read_devs n m (a + 8)

-- `none` is a failure of `send_mi_receive`. A list of no entries is an error message only.
unfoldable pub get_inb_nsdevs : Option Mem → List (Listed NsDev) → List (Listed NsDev)
unfolding read_devs
get_inb_nsdevs none xs = xs
get_inb_nsdevs (some m) xs =
    if m 0 == 0 then xs else mark_all same_dev (read_devs (m 0) m 1) (map (unmark same_dev) xs)

-- What the message can carry of a device.
abbrev pub IsDev : NsDev → Type 0
IsDev d = ((d.devid ≡ nullb_devid) ⊎ InRange 255 d.devid) × InRange 256 d.nsid

dev_round : (z : ℤ) → (z ≡ nullb_devid) ⊎ InRange 255 z → dev_of (of_int32 z % 256) ≡ z
dev_round z (inl e) = rw e refl
dev_round (pos k) (inr r) = ground arith
dev_round (negsuc k) (inr r) = absurd r

nsid_round : (z : ℤ) → InRange 256 z → pos (of_int32 z % 256) ≡ z
nsid_round (pos k) r = ground arith
nsid_round (negsuc k) r = absurd r

devs_outside : (m : Mem) (a : ℕ) (ds : List NsDev) (x : ℕ) → x < a → write_devs m a ds x ≡ m x
unfolding write_devs
devs_outside m a [] x h = refl
devs_outside m a (d ∷ ds) x h =
    devs_outside (write m a (dev_entry d)) (a + 8) ds x (omega arith)
    ∙ write_outside m a (dev_entry d) x (inl h)

read_devs-agree :
    (n : ℕ) (m m' : Mem) (a : ℕ)
    → ((x : ℕ) → a ≤ x → x < a + n * 8 → m' x ≡ m x)
    → read_devs n m' a ≡ read_devs n m a
unfolding read_devs
read_devs-agree zero m m' a h = refl
read_devs-agree (suc n) m m' a h =
    rw (h a (omega arith) (omega arith), h (a + 1) (omega arith) (omega arith))
      (ap (λ l. record { devid = dev_of (m a); nsid = pos (m (a + 1)) } ∷ l)
        (read_devs-agree n m m' (a + 8) (λ x lo hi. h x (omega arith) (omega arith))))

read_devs-write :
    (ds : List NsDev) (m : Mem) (a : ℕ)
    → All IsDev ds
    → read_devs (length ds) (write_devs m a ds) a ≡ ds
unfolding read_devs write_devs
read_devs-write [] m a h = refl
read_devs-write (d ∷ ds) m a h =
    let m' = write m a (dev_entry d) in
    let p = write-IsAt m a (dev_entry d) in
    let e0 : write_devs m' (a + 8) ds a ≡ of_int32 d.devid % 256 =
      devs_outside m' (a + 8) ds a (omega arith) ∙ p.0 in
    let e1 : write_devs m' (a + 8) ds (a + 1) ≡ of_int32 d.nsid % 256 =
      devs_outside m' (a + 8) ds (a + 1) (omega arith) ∙ p.1.0 in
    rw (e0, e1, dev_round d.devid h.0.0, nsid_round d.nsid h.0.1)
      (ap (λ l. d ∷ l) (read_devs-write ds m' (a + 8) h.1))

same_left : (a b c : NsDev) → same_dev a b ≡ true → same_dev a c ≡ same_dev b c
unfolding same_dev
same_left a b c h = ground arith

-- The message as it arrives in the cleared buffer of the DEM.
abbrev pub arrived : Report → Mem
arrived r = received r.size r.filled (λ x. 0)

report_read :
    (ds : List NsDev) (page : Mem)
    → All IsDev ds
    → length ds < 256
    → (arrived (get_nsdev page ds) 0 ≡ length ds)
      × (read_devs (length ds) (arrived (get_nsdev page ds)) 1 ≡ ds)
unfolding get_nsdev
report_read ds page h k =
    let m = write_devs page 1 ds in
    let head = write-IsAt m 0 (length ds % 256 ∷ []) in
    (
      ground (arith, head.0),
      read_devs-agree (length ds) m (arrived (get_nsdev page ds)) 1
            (λ x lo hi. ground (arith, write_outside m 0 (length ds % 256 ∷ []) x))
          ∙ read_devs-write ds page 1 h,
    )

-- After `get_inb_nsdevs` the valid devices of a target are exactly those that the endpoint has, if
-- it has at least one and at most 255 of them, each with an id below 255 or that of the null block
-- device and with a namespace below 256, whatever the list and the endpoint's page held before.
pub get_inb_nsdevs_lem :
    (ds : List NsDev) (page : Mem) (xs : List (Listed NsDev)) (j : NsDev)
    → All IsDev ds
    → 0 < length ds
    → length ds < 256
    → any (shows same_dev j) (get_inb_nsdevs (some (arrived (get_nsdev page ds))) xs)
      ≡ any (λ d. same_dev d j) ds
unfolding get_inb_nsdevs
get_inb_nsdevs_lem ds page xs j h pos_ lt =
    let r = report_read ds page h lt in
    rw (r.0, r.1, some_left (length ds) pos_) (merged_lem same_dev same_left j ds xs)
  where
    some_left : (n : ℕ) → 0 < n → (n == 0) ≡ false
    some_left n h = ground arith
