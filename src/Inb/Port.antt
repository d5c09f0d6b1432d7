-- ===== src/Inb/Port.antt =====
-- What the endpoint reads in the message for a port: `build_set_port_config_inb` of
-- src/dem/config.c against `set_portid` of src/endpoint/pseudo_target.c.
use nvme_dem.Prelude.{
  ℕ, ◌+◌, ◌-◌, ◌^◌, ◌≤◌, ◌<◌, ◌≡◌, ◌⊎◌, inl, inr, refl, ap, ◌∙◌, List, [], ◌∷◌, some, arith, CStr,
  codes, streq, length, ℤ, pos, negsuc,
}
use nvme_dem.Memory.{Mem, write, terminated, received}
use nvme_dem.Memory.Laws.{
  IsAt, IsText, IsAt-write, write-IsAt, IsAt-received, read_str-IsAt, length-terminated,
}
use nvme_dem.Memory.Words.{le8, le16, read8, read16}
use nvme_dem.Parse.Addr.{atoi}
use nvme_dem.Parse.Names.{to_trtype, trtype_str, to_adrfam, adrfam_str}
use nvme_dem.Parse.Decimal.{
  print_int, decimal, decimal-IsDigits, atoi-decimal, length-decimal, IsDigits,
}
use nvme_dem.Dem.State.{PortId}
use nvme_dem.Dem.Discovery.Command.{of_int32}
use nvme_dem.Endpoint.Config.{text_at, page_size}
use nvme_dem.Inb.Build.{build_set_port_config_inb, treq_not_required}
use nvme_dem.Inb.Fields.{InRange, word8_at, word16_at}

-- The names that both ends know.
abbrev pub IsType : CStr → Type 0
IsType t = (t ≡ codes "rdma") ⊎ (t ≡ codes "fc") ⊎ (t ≡ codes "tcp")

abbrev pub IsFamily : CStr → Type 0
IsFamily f = (f ≡ codes "ipv4") ⊎ (f ≡ codes "ipv6") ⊎ (f ≡ codes "fc")

abbrev pub IsAddress : CStr → Type 0
IsAddress a = IsText a × (length a < 256)

pub type_round : (t : CStr) → IsType t → (to_trtype t < 256) × (trtype_str (to_trtype t) ≡ t)
unfolding to_trtype trtype_str streq
type_round t (inl e) = rw e (omega arith, refl)
type_round t (inr (inl e)) = rw e (omega arith, refl)
type_round t (inr (inr e)) = rw e (omega arith, refl)

pub family_round : (f : CStr) → IsFamily f → (to_adrfam f < 256) × (adrfam_str (to_adrfam f) ≡ f)
unfolding to_adrfam adrfam_str streq
family_round f (inl e) = rw e (omega arith, refl)
family_round f (inr (inl e)) = rw e (omega arith, refl)
family_round f (inr (inr e)) = rw e (omega arith, refl)

digits-IsText : (s : CStr) → IsDigits s → IsText s
digits-IsText [] h = tt
digits-IsText (c ∷ s) h = (ground (arith, h.0), digits-IsText s h.1)

-- A port number is printed in five digits at most, and read back.
service_round :
    (z : ℤ)
    → InRange (2 ^ 16) z
    → IsText (print_int z) × (length (print_int z) ≤ 5) × (atoi (print_int z) ≡ z)
unfolding print_int
service_round (pos n) r = (
  digits-IsText (decimal n) (decimal-IsDigits n),
  length-decimal n 4 (omega arith),
  atoi-decimal n,
)
service_round (negsuc n) r = absurd r

text_in :
    (len a : ℕ) (sent old : Mem) (s : CStr)
    → IsText s
    → a + length s + 1 ≤ len
    → len ≤ page_size
    → IsAt sent a (terminated s)
    → text_at (received len sent old) a ≡ some s
text_in len a sent old s t h k p =
    read_str-IsAt (page_size - a) (received len sent old) a s t (omega arith)
      (IsAt-received len sent old a (terminated s) (omega (arith, length-terminated s)) p)

abbrev pub IsPort : PortId → Type 0
IsPort p =
    InRange (2 ^ 16) p.portid
    × IsType p.type
    × IsFamily p.family
    × IsAddress p.address
    × InRange (2 ^ 16) p.port_num

module _ (m old : Mem) (p : PortId) (ok : IsPort p) where
  abbrev id : List ℕ
  id = le16 (of_int32 p.portid)

  abbrev m1 : Mem
  m1 = write m 4 id

  abbrev m2 : Mem
  m2 = write m1 3 (le8 treq_not_required)

  abbrev m3 : Mem
  m3 = write m2 0 (le8 (to_trtype p.type))

  abbrev m4 : Mem
  m4 = write m3 1 (le8 (to_adrfam p.family))

  abbrev m5 : Mem
  m5 = write m4 38 (terminated p.address)

  abbrev m6 : Mem
  m6 = write m5 6 (terminated (print_int p.port_num))

  -- What stands before the texts stays.
  keep_head : (a : ℕ) (vs : List ℕ) → a + length vs ≤ 6 → IsAt m4 a vs → IsAt m6 a vs
  keep_head a vs h q =
      IsAt-write m5 6 (terminated (print_int p.port_num)) a vs (inl (omega arith))
        (IsAt-write m4 38 (terminated p.address) a vs (inl (omega arith)) q)

  pub port_read :
      (pos (read16 (received 294 (build_set_port_config_inb m p) old) 4) ≡ p.portid)
      × (read8 (received 294 (build_set_port_config_inb m p) old) 3 ≡ 2)
      × (trtype_str (read8 (received 294 (build_set_port_config_inb m p) old) 0) ≡ p.type)
      × (adrfam_str (read8 (received 294 (build_set_port_config_inb m p) old) 1) ≡ p.family)
      × (text_at (received 294 (build_set_port_config_inb m p) old) 38 ≡ some p.address)
      × (text_at (received 294 (build_set_port_config_inb m p) old) 6 ≡ some (print_int p.port_num))
  unfolding build_set_port_config_inb
  port_read =
      let t = type_round p.type ok.1 in
      let f = family_round p.family ok.2 in
      let s = service_round p.port_num ok.4 in
      (
        word16_at 294 4 m6 old p.portid ok.0 (omega arith) (
            keep_head 4 id (omega arith) (
              IsAt-write m3 1 (le8 (to_adrfam p.family)) 4 id (inr (omega arith)) (
                IsAt-write m2 0 (le8 (to_trtype p.type)) 4 id (inr (omega arith)) (
                  IsAt-write m1 3 (le8 treq_not_required) 4 id (inr (omega arith))
                    (write-IsAt m 4 id))))),
        word8_at 294 3 2 m6 old (omega arith) (omega arith) (
            keep_head 3 (le8 treq_not_required) (omega arith) (
              IsAt-write m3 1 (le8 (to_adrfam p.family)) 3 (le8 2) (inr (omega arith)) (
                IsAt-write m2 0 (le8 (to_trtype p.type)) 3 (le8 2) (inr (omega arith))
                  (write-IsAt m1 3 (le8 treq_not_required))))),
        ap trtype_str (
              word8_at 294 0 (to_trtype p.type) m6 old t.0 (omega arith) (
                keep_head 0 (le8 (to_trtype p.type)) (omega arith) (
                  IsAt-write m3 1 (le8 (to_adrfam p.family)) 0 (le8 (to_trtype p.type))
                    (inl (omega arith)) (write-IsAt m2 0 (le8 (to_trtype p.type))))))
            ∙ t.1,
        ap adrfam_str (
              word8_at 294 1 (to_adrfam p.family) m6 old f.0 (omega arith) (
                keep_head 1 (le8 (to_adrfam p.family)) (omega arith)
                  (write-IsAt m3 1 (le8 (to_adrfam p.family)))))
            ∙ f.1,
        text_in 294 38 m6 old p.address ok.3.0 (omega (arith, ok.3.1)) (omega arith) (
            IsAt-write m5 6 (terminated (print_int p.port_num)) 38 (terminated p.address)
              (inr (omega (arith, length-terminated (print_int p.port_num), s.1)))
              (write-IsAt m4 38 (terminated p.address))),
        text_in 294 6 m6 old (print_int p.port_num) s.0 (omega (arith, s.1)) (omega arith)
            (write-IsAt m5 6 (terminated (print_int p.port_num))),
      )

  pub service_read : atoi (print_int p.port_num) ≡ p.port_num
  service_read = (service_round p.port_num ok.4).2
