-- ===== src/Inb/Merge.antt =====
-- The way in which `get_inb_nsdevs` and `get_inb_xports` (src/dem/config.c) merge what an endpoint
-- reports into a list: all entries are marked as not valid, each reported one marks the entry that
-- equals it or is added at the tail.
use nvme_dem.Prelude.{
  Bool, true, false, ◌&&◌, ◌||◌, ◌≡◌, refl, List, [], ◌∷◌, arith, any, map, if◌then◌else◌,
}

-- An entry of such a list: what identifies it, and its mark.
pub record Listed {ℓ} (K : Type ℓ) : Type ℓ where
  pub key : K
  pub valid : Bool

module _ {ℓ} {K : Type ℓ} (same : K → K → Bool) where
  abbrev pub unmark : Listed K → Listed K
  unmark x = record x { valid = false }

  unfoldable pub mark : K → List (Listed K) → List (Listed K)
  mark k [] = record { key = k; valid = true } ∷ []
  mark k (x ∷ xs) =
      let rest = mark k xs in if same x.key k then record x { valid = true } ∷ xs else x ∷ rest

  unfoldable pub mark_all : List K → List (Listed K) → List (Listed K)
  unfolding mark
  mark_all [] xs = xs
  mark_all (k ∷ ks) xs = mark_all ks (mark k xs)

  -- A valid entry for the key.
  abbrev pub shows : K → Listed K → Bool
  shows k x = x.valid && same x.key k

  module _ (left : (a b c : K) → same a b ≡ true → same a c ≡ same b c) where
    any-mark :
        (j k : K) (xs : List (Listed K))
        → any (shows j) (mark k xs) ≡ (any (shows j) xs || same k j)
    unfolding mark
    any-mark j k [] = ground arith
    any-mark j k (x ∷ xs) = ground (arith, any-mark j k xs, left x.key k j)

    any-mark_all :
        (j : K) (ks : List K) (xs : List (Listed K))
        → any (shows j) (mark_all ks xs) ≡ (any (shows j) xs || any (λ k. same k j) ks)
    unfolding mark_all
    any-mark_all j [] xs = ground arith
    any-mark_all j (k ∷ ks) xs = ground (arith, any-mark_all j ks (mark k xs), any-mark j k xs)

    none_shown : (j : K) (xs : List (Listed K)) → any (shows j) (map unmark xs) ≡ false
    none_shown j [] = refl
    none_shown j (x ∷ xs) = ground (arith, none_shown j xs)

    -- After the merge a key has a valid entry exactly if it was reported.
    pub merged_lem :
        (j : K) (ks : List K) (xs : List (Listed K))
        → any (shows j) (mark_all ks (map unmark xs)) ≡ any (λ k. same k j) ks
    merged_lem j ks xs = ground (arith, any-mark_all j ks (map unmark xs), none_shown j xs)
