-- ===== src/Inb/Xports.antt =====
-- `get_inb_xports` of src/dem/config.c: the list of a target's fabric interfaces, against what
-- `get_xport` of src/endpoint/pseudo_target.c reports.
use nvme_dem.Prelude.{
  ℕ, zero, suc, ◌+◌, ◌*◌, ◌%◌, ◌≤◌, ◌<◌, ◌≡◌, inl, inr, refl, ap, ◌∙◌, Bool, true, false, ◌&&◌,
  List, [], ◌∷◌, Option, none, some, arith, All, any, filter, map, ap₂, Bool-cases, length, ◌==◌,
  if◌then◌else◌, streq, streq_sound,
}
use nvme_dem.Memory.{read_chars, Mem, write, padded}
use nvme_dem.Memory.Laws.{
  read_chars-IsAt, IsAt, IsText, IsAt-agree, IsAt-terminated, write-IsAt, write_outside,
  length-padded,
}
use nvme_dem.Parse.Names.{trtype_str, adrfam_str}
use nvme_dem.Endpoint.Report.{Iface, iface_entry, write_ifaces, get_xport}
use nvme_dem.Inb.Port.{IsType, IsFamily, type_round, family_round}
use nvme_dem.Inb.Devices.{arrived}
use nvme_dem.Inb.Merge.{Listed, unmark, mark_all, shows, merged_lem}

-- Equality of two interfaces, as the loop tests it.
unfoldable pub same_iface : Iface → Iface → Bool
same_iface a b = streq b.address a.address && streq b.family a.family && streq b.type a.type

-- CONFIG_ADDRESS_SIZE
abbrev pub address_size : ℕ
address_size = 40

abbrev pub read_iface : Mem → ℕ → Iface
read_iface m a = record {
  type = trtype_str (m a);
  family = adrfam_str (m (a + 1));
  address = read_chars address_size m (a + 8);
}

unfoldable pub read_ifaces : ℕ → Mem → ℕ → List Iface
read_ifaces zero m a = []
read_ifaces (suc n) m a = read_iface m a ∷ read_ifaces n m (a + 264)

-- The interfaces that were not reported are taken out at the end. An address of 40 bytes or more,
-- whose copy in a new entry has no terminating 0, is outside of the model.
unfoldable pub get_inb_xports : Option Mem → List (Listed Iface) → List (Listed Iface)
unfolding read_ifaces
get_inb_xports none xs = xs
get_inb_xports (some m) xs =
    if m 0 == 0
    then xs
    else filter (λ x. x.valid)
        (mark_all same_iface (read_ifaces (m 0) m 1) (map (unmark same_iface) xs))

-- What the message can carry of an interface.
abbrev pub IsIface : Iface → Type 0
IsIface i = IsType i.type × IsFamily i.family × IsText i.address × (length i.address < address_size)

length-iface_entry : (i : Iface) → length (iface_entry i) ≡ 264
length-iface_entry i = omega (arith, length-padded 256 i.address)

ifaces_outside : (m : Mem) (a : ℕ) (is : List Iface) (x : ℕ) → x < a → write_ifaces m a is x ≡ m x
unfolding write_ifaces
ifaces_outside m a [] x h = refl
ifaces_outside m a (i ∷ is) x h =
    ifaces_outside (write m a (iface_entry i)) (a + 264) is x (omega arith)
    ∙ write_outside m a (iface_entry i) x (inl h)

-- The interface that stands at an offset.
entry_read :
    (m : Mem) (a : ℕ) (i : Iface) → IsIface i → IsAt m a (iface_entry i) → read_iface m a ≡ i
entry_read m a i h p =
    let t = ap trtype_str p.0 ∙ (type_round i.type h.0).1 in
    let f = ap adrfam_str p.1.0 ∙ (family_round i.family h.1).1 in
    let s =
      read_chars-IsAt address_size m (a + 8) i.address h.2 (omega (arith, h.3))
        (IsAt-terminated m (a + 8) 256 i.address (omega (arith, h.3)) (address_at m a i p)) in
    ground (arith, t, f, s)
  where
    address_at :
        (m : Mem) (a : ℕ) (i : Iface)
        → IsAt m a (iface_entry i)
        → IsAt m (a + 8) (padded 256 i.address)
    address_at m a i p =
        let e : a + 1 + 1 + 1 + 1 + 1 + 1 + 1 + 1 ≡ a + 8 = omega arith in rw e at p.1.1.1.1.1.1.1.1

-- The entries stand one behind the other from `a` on.
abbrev AllAt : Mem → ℕ → List Iface → Type 0
AllAt m a [] = Unit
AllAt m a (i ∷ is) = IsAt m a (iface_entry i) × AllAt m (a + 264) is

AllAt-agree :
    (m m' : Mem) (a : ℕ) (is : List Iface)
    → ((x : ℕ) → a ≤ x → x < a + length is * 264 → m' x ≡ m x)
    → AllAt m a is
    → AllAt m' a is
AllAt-agree m m' a [] h p = tt
AllAt-agree m m' a (i ∷ is) h p = (
  IsAt-agree m m' a (iface_entry i) (λ x lo hi. h x lo (omega (arith, length-iface_entry i))) p.0,
  AllAt-agree m m' (a + 264) is (λ x lo hi. h x (omega arith) (omega arith)) p.1,
)

write_ifaces-AllAt : (m : Mem) (a : ℕ) (is : List Iface) → AllAt (write_ifaces m a is) a is
unfolding write_ifaces
write_ifaces-AllAt m a [] = tt
write_ifaces-AllAt m a (i ∷ is) =
    let m' = write m a (iface_entry i) in
    (
      IsAt-agree m' (write_ifaces m' (a + 264) is) a (iface_entry i)
          (λ x lo hi. ifaces_outside m' (a + 264) is x (omega (arith, length-iface_entry i)))
          (write-IsAt m a (iface_entry i)),
      write_ifaces-AllAt m' (a + 264) is,
    )

read_ifaces-AllAt :
    (m : Mem) (a : ℕ) (is : List Iface)
    → All IsIface is
    → AllAt m a is
    → read_ifaces (length is) m a ≡ is
unfolding read_ifaces
read_ifaces-AllAt m a [] h p = refl
read_ifaces-AllAt m a (i ∷ is) h p =
    ap₂ (λ k l. k ∷ l) (entry_read m a i h.0 p.0) (read_ifaces-AllAt m (a + 264) is h.1 p.1)

xport_read :
    (is : List Iface) (page : Mem)
    → All IsIface is
    → length is < 16
    → (arrived (get_xport page is) 0 ≡ length is)
      × (read_ifaces (length is) (arrived (get_xport page is)) 1 ≡ is)
unfolding get_xport
xport_read is page h k =
    let m = write_ifaces page 1 is in
    let head = write-IsAt m 0 (length is % 256 ∷ []) in
    (
      ground (arith, head.0),
      read_ifaces-AllAt (arrived (get_xport page is)) 1 is h (
          AllAt-agree m (arrived (get_xport page is)) 1 is
            (λ x lo hi. ground (arith, write_outside m 0 (length is % 256 ∷ []) x))
            (write_ifaces-AllAt page 1 is)),
    )

same_left : (a b c : Iface) → same_iface a b ≡ true → same_iface a c ≡ same_iface b c
unfolding same_iface
same_left a b c h =
    let e : (streq b.address a.address ≡ true)
        × (streq b.family a.family ≡ true)
        × (streq b.type a.type ≡ true) =
      (ground arith, ground arith, ground arith) in
    rw
      (
        streq_sound b.address a.address e.0,
        streq_sound b.family a.family e.1,
        streq_sound b.type a.type e.2,
      )
      refl

any-filter_valid :
    (j : Iface) (xs : List (Listed Iface))
    → any (shows same_iface j) (filter (λ x. x.valid) xs) ≡ any (shows same_iface j) xs
any-filter_valid j [] = refl
any-filter_valid j (x ∷ xs) = elim (Bool-cases x.valid) [
  | inl e ↦ ground (arith, e, any-filter_valid j xs)
  | inr e ↦ ground (arith, e, any-filter_valid j xs)
]

-- After `get_inb_xports` the list of a target's interfaces has exactly those that the endpoint has,
-- if it has at least one and at most 15 of them, each of a transport type and an address family that
-- both ends name and with an address of less than 40 bytes, whatever the list and the endpoint's page
-- held before.
pub get_inb_xports_lem :
    (is : List Iface) (page : Mem) (xs : List (Listed Iface)) (j : Iface)
    → All IsIface is
    → 0 < length is
    → length is < 16
    → any (shows same_iface j) (get_inb_xports (some (arrived (get_xport page is))) xs)
      ≡ any (λ i. same_iface i j) is
unfolding get_inb_xports
get_inb_xports_lem is page xs j h pos_ lt =
    let r = xport_read is page h lt in
    rw (r.0, r.1, some_left (length is) pos_)
      (any-filter_valid j (mark_all same_iface is (map (unmark same_iface) xs))
        ∙ merged_lem same_iface same_left j is xs)
  where
    some_left : (n : ℕ) → 0 < n → (n == 0) ≡ false
    some_left n h = ground arith
