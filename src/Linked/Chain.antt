-- ===== src/Linked/Chain.antt =====
-- Which list the cells of src/incl/utils.h stand for.
use nvme_dem.Prelude.{
  ℕ, zero, suc, ◌<◌, ◌≡◌, ◌∙◌, false, List, [], ◌∷◌, ◌++◌, some, arith, All, ◌==◌, length,
}
use nvme_dem.Linked.{Cells, walk, list_for_each}

-- From `a` along the entries to `b`, forth and back.
abbrev pub Chain : Cells → ℕ → List ℕ → ℕ → Type 0
Chain m a [] b = (m.next a ≡ b) × (m.prev b ≡ a)
Chain m a (x ∷ xs) b = (m.next a ≡ x) × (m.prev x ≡ a) × Chain m x xs b

abbrev pub NotIn : ℕ → List ℕ → Type 0
NotIn a = All (λ x. (x == a) ≡ false)

abbrev pub Distinct : List ℕ → Type 0
Distinct [] = Unit
Distinct (x ∷ xs) = NotIn x xs × Distinct xs

-- The list with the head `list` has the entries, and no address stands twice.
pub record IsList (m : Cells) (list : ℕ) (xs : List ℕ) : Type 0 where
  pub chain : Chain m list xs list
  pub distinct : Distinct (list ∷ xs)

abbrev pub Same : (ℕ → ℕ) → (ℕ → ℕ) → List ℕ → Type 0
Same f g = All (λ x. g x ≡ f x)

-- A chain depends on its own cells only.
pub Chain-agree :
    (m m' : Cells) (a : ℕ) (xs : List ℕ) (b : ℕ)
    → Same m.next m'.next (a ∷ xs)
    → Same m.prev m'.prev xs
    → m'.prev b ≡ m.prev b
    → Chain m a xs b
    → Chain m' a xs b
Chain-agree m m' a [] b hn hp hb p = (hn.0 ∙ p.0, hb ∙ p.1)
Chain-agree m m' a (x ∷ xs) b hn hp hb p =
    (hn.0 ∙ p.0, hp.0 ∙ p.1, Chain-agree m m' x xs b hn.1 hp.1 hb p.2)

abbrev pub last_of : ℕ → List ℕ → ℕ
last_of a [] = a
last_of a (x ∷ xs) = last_of x xs

abbrev pub head_of : List ℕ → ℕ → ℕ
head_of [] b = b
head_of (x ∷ xs) b = x

pub last_out : (c a : ℕ) (xs : List ℕ) → (a == c) ≡ false → NotIn c xs → (last_of a xs == c) ≡ false
last_out c a [] h k = h
last_out c a (x ∷ xs) h k = last_out c x xs k.0 k.1

pub head_out : (c b : ℕ) (xs : List ℕ) → (b == c) ≡ false → NotIn c xs → (head_of xs b == c) ≡ false
head_out c b [] h k = h
head_out c b (x ∷ xs) h k = k.0

pub NotIn-split : (c : ℕ) (xs ys : List ℕ) → NotIn c (xs ++ ys) → NotIn c xs × NotIn c ys
NotIn-split c [] ys h = (tt, h)
NotIn-split c (x ∷ xs) ys h = let r = NotIn-split c xs ys h.1 in ((h.0, r.0), r.1)

pub prev-last : (m : Cells) (a : ℕ) (xs : List ℕ) (b : ℕ) → Chain m a xs b → m.prev b ≡ last_of a xs
prev-last m a [] b p = p.1
prev-last m a (x ∷ xs) b p = prev-last m x xs b p.2

pub next-head : (m : Cells) (a : ℕ) (xs : List ℕ) (b : ℕ) → Chain m a xs b → m.next a ≡ head_of xs b
next-head m a [] b p = p.0
next-head m a (x ∷ xs) b p = p.0

-- A walk from an entry on.
walk-Chain :
    (n : ℕ) (m : Cells) (list a : ℕ) (xs : List ℕ)
    → NotIn list xs
    → Chain m a xs list
    → length xs < n
    → walk n m list (m.next a) ≡ some xs
unfolding walk
walk-Chain zero m list a xs d p h = absurd (omega arith)
walk-Chain (suc n) m list a [] d p h = ground (arith, p.0)
walk-Chain (suc n) m list a (x ∷ xs) d p h =
    rw p.0 (ground (arith, d.0, walk-Chain n m list x xs d.1 p.2 (omega arith)))

-- A loop over a list visits its entries in their order and ends, within one round more than it has
-- entries.
pub list_for_each_lem :
    (n : ℕ) (m : Cells) (list : ℕ) (xs : List ℕ)
    → IsList m list xs
    → length xs < n
    → list_for_each n m list ≡ some xs
unfolding list_for_each
list_for_each_lem n m list xs l h = walk-Chain n m list list xs l.distinct.0 l.chain h
