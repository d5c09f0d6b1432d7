-- ===== src/Linked/Remove.antt =====
-- `list_del` of src/incl/utils.h.
use nvme_dem.Prelude.{ℕ, ◌≡◌, sym, subst, ◌∙◌, ap, ap₂, List, [], ◌∷◌, ◌++◌, arith}
use nvme_dem.Linked.{Cells, update, list_del}
use nvme_dem.Linked.Chain.{
  Chain, NotIn, Distinct, IsList, Chain-agree, last_of, head_of, last_out, head_out, NotIn-split,
}
use nvme_dem.Linked.Insert.{Same-update}

-- What keeps the cells of a chain apart.
record Parted (a : ℕ) (xs : List ℕ) (b : ℕ) : Type 0 where
  start : NotIn a xs
  distinct : Distinct xs
  end : NotIn b xs

tail-Parted : {a x b : ℕ} {xs : List ℕ} → Parted a (x ∷ xs) b → Parted x xs b
tail-Parted p = record { start = p.distinct.0; distinct = p.distinct.1; end = p.end.1 }

-- The neighbours are made to point to each other.
abbrev bridge : ℕ → ℕ → Cells → Cells
bridge p n m = record { next = update m.next p n; prev = update m.prev n p }

remove-Chain :
    (m : Cells) (e a : ℕ) (xs ys : List ℕ) (b : ℕ)
    → Parted a (xs ++ e ∷ ys) b
    → Chain m a (xs ++ e ∷ ys) b
    → Chain (bridge (last_of a xs) (head_of ys b) m) a (xs ++ ys) b
remove-Chain m e a [] [] b d p = ground arith
remove-Chain m e a [] (y ∷ ys) b d p = (
  ground arith,
  ground arith,
  Chain-agree m (bridge a y m) y ys b
      (ground (arith, d.start.1.0), Same-update m.next a y ys d.start.1.1)
      (Same-update m.prev y a ys d.distinct.1.0) (ground (arith, d.end.1.0)) p.2.2,
)
remove-Chain m e a (x ∷ xs) ys b d p =
    let s = NotIn-split x xs (e ∷ ys) d.distinct.0 in
    let t = NotIn-split a xs (e ∷ ys) d.start.1 in
    let l = last_out a x xs d.start.0 t.0 in
    let h = head_out x b ys (ground (arith, d.end.0)) s.1.1 in
    (ground (arith, l, p.0), ground (arith, h, p.1), remove-Chain m e x xs ys b (tail-Parted d) p.2)

-- The neighbours of an entry.
pub neighbours :
    (m : Cells) (e a : ℕ) (xs ys : List ℕ) (b : ℕ)
    → Chain m a (xs ++ e ∷ ys) b
    → (m.prev e ≡ last_of a xs) × (m.next e ≡ head_of ys b)
neighbours m e a [] [] b p = (p.1, p.2.0)
neighbours m e a [] (y ∷ ys) b p = (p.1, p.2.0)
neighbours m e a (x ∷ xs) ys b p = neighbours m e x xs ys b p.2

list_del-bridge : (m : Cells) (e : ℕ) → list_del e m ≡ bridge (m.prev e) (m.next e) m
unfolding list_del
list_del-bridge m e =
    let q : update m.prev (m.next e) (m.prev e) e ≡ m.prev e = ground arith in
    ap
      (λ p. record {
        next = update m.next p (m.next e);
        prev = update m.prev (m.next e) (m.prev e);
      })
      q

NotIn-remove : (c e : ℕ) (xs ys : List ℕ) → NotIn c (xs ++ e ∷ ys) → NotIn c (xs ++ ys)
NotIn-remove c e [] ys h = h.1
NotIn-remove c e (x ∷ xs) ys h = (h.0, NotIn-remove c e xs ys h.1)

Distinct-remove : (e : ℕ) (xs ys : List ℕ) → Distinct (xs ++ e ∷ ys) → Distinct (xs ++ ys)
Distinct-remove e [] ys h = h.1
Distinct-remove e (x ∷ xs) ys h = (NotIn-remove x e xs ys h.0, Distinct-remove e xs ys h.1)

-- Deleting an entry takes it out of the list, wherever it stands, and leaves the others in their
-- order.
pub list_del_lem :
    (m : Cells) (e list : ℕ) (xs ys : List ℕ)
    → IsList m list (xs ++ e ∷ ys)
    → IsList (list_del e m) list (xs ++ ys)
list_del_lem m e list xs ys l =
    let n = neighbours m e list xs ys list l.chain in
    let d : Parted list (xs ++ e ∷ ys) list = record {
      start = l.distinct.0;
      distinct = l.distinct.1;
      end = l.distinct.0;
    } in
    let q = list_del-bridge m e ∙ ap₂ (λ p k. bridge p k m) n.0 n.1 in
    subst (λ k. IsList k list (xs ++ ys)) (sym q)
      (record {
        chain = remove-Chain m e list xs ys list d l.chain;
        distinct = (NotIn-remove list e xs ys l.distinct.0, Distinct-remove e xs ys l.distinct.1);
      })
