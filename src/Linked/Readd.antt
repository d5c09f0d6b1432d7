-- ===== src/Linked/Readd.antt =====
-- `list_add_tail` of src/incl/utils.h on an entry that is in the list already, as `link_host` of
-- src/dem/config.c does.
use nvme_dem.Prelude.{
  ℕ, zero, suc, ◌+◌, ◌<◌, ◌≡◌, refl, ◌∙◌, ap, true, false, List, [], ◌∷◌, ◌++◌, none, some, arith,
  ◌==◌, length,
}
use nvme_dem.Linked.{Cells, walk, cons_entry, list_add_between, list_add_tail, list_for_each}
use nvme_dem.Linked.Insert.{Same-twice}
use nvme_dem.Linked.Chain.{
  Chain, NotIn, Distinct, Same, IsList, last_of, NotIn-split, last_out, prev-last,
}

-- The last entry points to itself.
endless_walk :
    (n : ℕ) (m : Cells) (list e : ℕ) → m.next e ≡ e → (e == list) ≡ false → walk n m list e ≡ none
unfolding walk
endless_walk zero m list e h k = refl
endless_walk (suc n) m list e h k = ground (arith, endless_walk n m list e)

-- The cells before the entry are as they were.
walk_to :
    (n : ℕ) (m m' : Cells) (list a e : ℕ) (xs : List ℕ)
    → Chain m a xs e
    → NotIn list xs
    → Same m.next m'.next (a ∷ xs)
    → ((k : ℕ) → walk k m' list e ≡ none)
    → walk n m' list (m'.next a) ≡ none
unfolding walk
walk_to n m m' list a e [] p d s h = rw (s.0, p.0) (h n)
walk_to zero m m' list a e (x ∷ xs) p d s h = refl
walk_to (suc n) m m' list a e (x ∷ xs) p d s h =
    rw (s.0, p.0, d.0) (ap (cons_entry x) (walk_to n m m' list x e xs p.2 d.1 s.1 h))

Chain-front :
    (m : Cells) (e a : ℕ) (xs ys : List ℕ) (b : ℕ) → Chain m a (xs ++ e ∷ ys) b → Chain m a xs e
Chain-front m e a [] ys b p = (p.0, p.1)
Chain-front m e a (x ∷ xs) ys b p = (p.0, p.1, Chain-front m e x xs ys b p.2)

apart_front : (e a : ℕ) (xs ys : List ℕ) → Distinct (a ∷ (xs ++ e ∷ ys)) → NotIn e (a ∷ xs)
apart_front e a [] ys h = (ground (arith, h.0.0), tt)
apart_front e a (x ∷ xs) ys h =
    let t = NotIn-split a xs (e ∷ ys) h.0.1 in (ground (arith, t.1.0), apart_front e x xs ys h.1)

last-snoc : (e a : ℕ) (xs : List ℕ) → last_of a (xs ++ e ∷ []) ≡ e
last-snoc e a [] = refl
last-snoc e a (x ∷ xs) = last-snoc e x xs

-- A loop over a list never ends once `list_add_tail` was applied to the entry that is its last
-- already, however many rounds it has.
pub readd_last_never_ends :
    (n : ℕ) (m : Cells) (e list : ℕ) (xs : List ℕ)
    → IsList m list (xs ++ e ∷ [])
    → list_for_each n (list_add_tail e list m) list ≡ none
unfolding list_for_each list_add_tail list_add_between
readd_last_never_ends n m e list xs l =
    let q = prev-last m list (xs ++ e ∷ []) list l.chain ∙ last-snoc e list xs in
    let a = apart_front e list xs [] l.distinct in
    let m' = list_add_between e e list m in
    rw q (
      walk_to n m m' list list e xs (Chain-front m e list xs [] list l.chain)
        (NotIn-split list xs (e ∷ []) l.distinct.0).0 (Same-twice m.next e list e e (list ∷ xs) a a)
        (λ k. endless_walk k m' list e (ground arith) (ground (arith, a.0))))

-- The entry with others behind it.
walk_up_to :
    (n : ℕ) (m m' : Cells) (list a e : ℕ) (xs : List ℕ)
    → Chain m a xs e
    → NotIn list xs
    → Same m.next m'.next (a ∷ xs)
    → m'.next e ≡ list
    → (e == list) ≡ false
    → length xs + 1 < n
    → walk n m' list (m'.next a) ≡ some (xs ++ e ∷ [])
unfolding walk
walk_up_to zero m m' list a e xs p d s h k b = absurd (omega arith)
walk_up_to (suc zero) m m' list a e xs p d s h k b = absurd (omega arith)
walk_up_to (suc (suc n)) m m' list a e [] p d s h k b =
    let q : (list == list) ≡ true = ground arith in rw (s.0, p.0, k, h, q) refl
walk_up_to (suc (suc n)) m m' list a e (x ∷ xs) p d s h k b =
    rw (s.0, p.0, d.0)
      (ap (cons_entry x) (walk_up_to (suc n) m m' list x e xs p.2 d.1 s.1 h k (omega arith)))

last_apart :
    (e a : ℕ) (xs : List ℕ) (y : ℕ) (zs : List ℕ)
    → Distinct (a ∷ (xs ++ e ∷ y ∷ zs))
    → NotIn (last_of y zs) (a ∷ (xs ++ e ∷ []))
last_apart e a [] y zs h =
    let u = last_out a y zs h.0.1.0 h.0.1.1 in
    let v = last_out e y zs h.1.0.0 h.1.0.1 in (ground (arith, u), (ground (arith, v), tt))
last_apart e a (x ∷ xs) y zs h =
    let t = NotIn-split a xs (e ∷ y ∷ zs) h.0.1 in
    let u = last_out a y zs t.1.1.0 t.1.1.1 in (ground (arith, u), last_apart e x xs y zs h.1)

last_behind :
    (e a : ℕ) (xs : List ℕ) (y : ℕ) (zs : List ℕ) → last_of a (xs ++ e ∷ y ∷ zs) ≡ last_of y zs
last_behind e a [] y zs = refl
last_behind e a (x ∷ xs) y zs = last_behind e x xs y zs

-- A loop over a list visits no entry behind one that `list_add_tail` was applied to although it was
-- in the list: those that stood behind it are lost to it.
pub readd_cuts :
    (n : ℕ) (m : Cells) (e list : ℕ) (xs : List ℕ) (y : ℕ) (zs : List ℕ)
    → IsList m list (xs ++ e ∷ y ∷ zs)
    → length xs + 1 < n
    → list_for_each n (list_add_tail e list m) list ≡ some (xs ++ e ∷ [])
unfolding list_for_each list_add_tail list_add_between
readd_cuts n m e list xs y zs l b =
    let q = prev-last m list (xs ++ e ∷ y ∷ zs) list l.chain ∙ last_behind e list xs y zs in
    let a = apart_front e list xs (y ∷ zs) l.distinct in
    let c = last_apart e list xs y zs l.distinct in
    let r = NotIn-split (last_of y zs) (list ∷ xs) (e ∷ []) c in
    let m' = list_add_between e (last_of y zs) list m in
    rw q (
      walk_up_to n m m' list list e xs (Chain-front m e list xs (y ∷ zs) list l.chain)
        (NotIn-split list xs (e ∷ y ∷ zs) l.distinct.0).0
        (Same-twice m.next e list (last_of y zs) e (list ∷ xs) a r.0) (ground (arith, r.1.0))
        (ground (arith, a.0)) b)
