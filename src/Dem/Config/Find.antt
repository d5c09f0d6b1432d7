-- ===== src/Dem/Config/Find.antt =====
-- `find_subsys`, `find_portid` and `find_ns` of src/dem/config.c. What such a function returns is a
-- pointer to the first entry that passes its test; a write through it replaces that entry.
use nvme_dem.Prelude.{
  ◌∙◌, any, map, ◌==◌, ℕ, ◌≡◌, refl, subst, inl, inr, Bool-cases, streq_sound, Bool, true, false,
  List, [], ◌∷◌, Option, none, some, arith, find, if◌then◌else◌, CStr, streq, ℤ, eqb_ℤ,
}
use nvme_dem.Dem.Groups.Ops.{del_first}
use nvme_dem.Dem.State.{Ns, Subsystem, PortId, Target}

abbrev pub has_alias : CStr → Target → Bool
has_alias alias t = streq t.alias alias

abbrev pub has_nqn : CStr → Subsystem → Bool
has_nqn nqn s = streq s.nqn nqn

abbrev pub has_portid : ℤ → PortId → Bool
has_portid id p = eqb_ℤ p.portid id

abbrev pub has_nsid : ℤ → Ns → Bool
has_nsid nsid n = eqb_ℤ n.nsid nsid

unfoldable pub find_subsys : CStr → List Subsystem → Option Subsystem
find_subsys nqn ss = find (has_nqn nqn) ss

unfoldable pub find_portid : ℤ → List PortId → Option PortId
find_portid id ps = find (has_portid id) ps

unfoldable pub find_ns : ℤ → List Ns → Option Ns
find_ns nsid ns = find (has_nsid nsid) ns

module _ {ℓ} {A : Type ℓ} where
  unfoldable pub put_first : (A → Bool) → A → List A → List A
  put_first p y [] = []
  put_first p y (x ∷ xs) = let rest = put_first p y xs in if p x then y ∷ xs else x ∷ rest

  module _ (p : A → Bool) (y : A) where
    pub find-put_first :
        (x : A) (xs : List A) → find p xs ≡ some x → p y ≡ true → find p (put_first p y xs) ≡ some y
    unfolding put_first
    find-put_first x [] h e = cc
    find-put_first x (z ∷ xs) h e = ground (arith, find-put_first x xs)

    -- Another search is not affected, if the old entry and the new one fail its test.
    pub find-put_first_other :
        (q : A → Bool) (x : A) (xs : List A)
        → find p xs ≡ some x
        → q x ≡ false
        → q y ≡ false
        → find q (put_first p y xs) ≡ find q xs
    unfolding put_first
    find-put_first_other q x [] h e k = refl
    find-put_first_other q x (z ∷ xs) h e k = ground (arith, find-put_first_other q x xs)

  pub find-passes : (p : A → Bool) (x : A) (xs : List A) → find p xs ≡ some x → p x ≡ true
  find-passes p x [] h = cc
  find-passes p x (z ∷ xs) h = elim (Bool-cases (p z)) [
    | inl e ↦ ground (arith, e, h)
    | inr e ↦ ground (arith, e, h, find-passes p x xs)
  ]

  -- Entries that are found by a name: after the first one of the name `k` is replaced by one of the
  -- same name, a search by a name finds the new one if the name is `k`, and what it found before if
  -- not.
  module _ (key : A → CStr) where
    pub find-put_first_key :
        (k k' : CStr) (x y : A) (xs : List A)
        → find (λ a. streq (key a) k) xs ≡ some x
        → streq (key y) k ≡ true
        → find (λ a. streq (key a) k') (put_first (λ a. streq (key a) k) y xs)
          ≡ (if streq k k' then some y else find (λ a. streq (key a) k') xs)
    find-put_first_key k k' x y xs h e =
        let ex = streq_sound (key x) k (find-passes (λ a. streq (key a) k) x xs h) in
        let ey = streq_sound (key y) k e in
        elim (Bool-cases (streq k k')) [
          | inl s ↦ rw s (
              subst
                (λ l. find (λ a. streq (key a) l) (put_first (λ a. streq (key a) k) y xs) ≡ some y)
                (streq_sound k k' s) (find-put_first (λ a. streq (key a) k) y x xs h e))
          | inr s ↦ rw s (
              find-put_first_other (λ a. streq (key a) k) y (λ a. streq (key a) k') x xs h (rw ex s)
                (rw ey s))
        ]

-- Entries that are found by a key.
module _ {A K : Type 0} (key : A → K) (eq : K → K → Bool) where
  -- No key stands twice.
  abbrev pub DistinctKeys : List A → Type 0
  DistinctKeys [] = Unit
  DistinctKeys (x ∷ xs) = (any (λ a. eq (key a) (key x)) xs ≡ false) × DistinctKeys xs

  module _ (sound : (j k : K) → eq j k ≡ true → j ≡ k) where
    find-absent :
        (k : K) (xs : List A)
        → any (λ a. eq (key a) k) xs ≡ false
        → find (λ a. eq (key a) k) xs ≡ none
    find-absent k [] h = refl
    find-absent k (x ∷ xs) h = ground (arith, find-absent k xs)

    -- At the entry of the key `k`.
    past_first :
        (k z : K) (x : A) (xs : List A)
        → key x ≡ k
        → any (λ a. eq (key a) (key x)) xs ≡ false
        → find (λ a. eq (key a) z) xs ≡ (if eq k z then none else find (λ a. eq (key a) z) (x ∷ xs))
    past_first k z x xs q h = elim (Bool-cases (eq k z)) [
      | inl e ↦
          rw e
            (find-absent z xs (subst (λ j. any (λ a. eq (key a) j) xs ≡ false) (q ∙ sound k z e) h))
      | inr e ↦ rw (e, q, e) refl
    ]

    -- After the first entry of the key `k` is deleted.
    pub find-del_first_key :
        (k z : K) (xs : List A)
        → DistinctKeys xs
        → find (λ a. eq (key a) z) (del_first (λ a. eq (key a) k) xs)
          ≡ (if eq k z then none else find (λ a. eq (key a) z) xs)
    unfolding del_first
    find-del_first_key k z [] h = ground arith
    find-del_first_key k z (x ∷ xs) h = elim (Bool-cases (eq (key x) k)) [
      | inl e ↦ rw e (past_first k z x xs (sound (key x) k e) h.0)
      | inr e ↦
          rw (e, find-del_first_key k z xs h.1)
            (elim (Bool-cases (eq k z)) [
              | inl q ↦ let n = subst (λ j. eq (key x) j ≡ false) (sound k z q) e in rw (q, n) refl
              | inr q ↦ rw q refl
            ])
    ]

-- A write through a pointer that is kept: the object with the id.
unfoldable pub modify_subsys : ℕ → (Subsystem → Subsystem) → Target → Target
modify_subsys id f t = record t {
  subsys_list = map (λ s. if s.id == id then f s else s) t.subsys_list;
}
