-- ===== src/Linked/Insert.antt =====
-- `list_add` and `list_add_tail` of src/incl/utils.h.
use nvme_dem.Prelude.{ℕ, ◌≡◌, sym, subst, false, List, [], ◌∷◌, ◌++◌, append-nil, arith, ◌==◌}
use nvme_dem.Linked.{Cells, update, list_add_between, list_add, list_add_tail, init_linked_list}
use nvme_dem.Linked.Chain.{
  Chain, NotIn, Distinct, IsList, Same, Chain-agree, last_of, head_of, last_out, head_out,
  NotIn-split, prev-last, next-head,
}

pub Same-update : (f : ℕ → ℕ) (p v : ℕ) (xs : List ℕ) → NotIn p xs → Same f (update f p v) xs
Same-update f p v [] h = tt
Same-update f p v (x ∷ xs) h = (ground (arith, h.0), Same-update f p v xs h.1)

pub Same-twice :
    (f : ℕ → ℕ) (p v q w : ℕ) (xs : List ℕ)
    → NotIn p xs
    → NotIn q xs
    → Same f (update (update f p v) q w) xs
Same-twice f p v q w [] h k = tt
Same-twice f p v q w (x ∷ xs) h k = (ground (arith, h.0, k.0), Same-twice f p v q w xs h.1 k.1)

-- What keeps the cells of a chain apart, and a new cell from them.
pub record Apart (e a : ℕ) (xs : List ℕ) (b : ℕ) : Type 0 where
  pub start : NotIn a xs
  pub distinct : Distinct xs
  pub end : NotIn b xs
  pub new : NotIn e xs
  pub new_start : (a == e) ≡ false
  pub new_end : (b == e) ≡ false

pub tail-Apart : {e a x b : ℕ} {xs : List ℕ} → Apart e a (x ∷ xs) b → Apart e x xs b
tail-Apart p = record {
  start = p.distinct.0;
  distinct = p.distinct.1;
  end = p.end.1;
  new = p.new.1;
  new_start = p.new.0;
  new_end = p.new_end;
}

insert-Chain :
    (m : Cells) (e a : ℕ) (xs ys : List ℕ) (b : ℕ)
    → Apart e a (xs ++ ys) b
    → Chain m a (xs ++ ys) b
    → Chain (list_add_between e (last_of a xs) (head_of ys b) m) a (xs ++ e ∷ ys) b
unfolding list_add_between
insert-Chain m e a [] [] b d p = ground (arith, d.new_start, d.new_end)
insert-Chain m e a [] (y ∷ ys) b d p = (
  ground arith,
  ground arith,
  (
    ground (arith, d.new_start),
    ground (arith, d.new.0),
    Chain-agree m (list_add_between e a y m) y ys b
        (ground (arith, d.start.0, d.new.0), Same-twice m.next e y a e ys d.new.1 d.start.1)
        (Same-twice m.prev y e e a ys d.distinct.0 d.new.1) (ground (arith, d.end.0, d.new_end))
        p.2,
  ),
)
insert-Chain m e a (x ∷ xs) ys b d p =
    let s = NotIn-split x xs ys d.distinct.0 in
    let t = NotIn-split a xs ys d.start.1 in
    let l = last_out a x xs d.start.0 t.0 in
    let h = head_out x b ys (ground (arith, d.end.0)) s.1 in
    (
      ground (arith, l, d.new_start),
      ground (arith, h, d.new.0),
      insert-Chain m e x xs ys b (tail-Apart d) p.2,
    )

pub NotIn-insert :
    (c e : ℕ) (xs ys : List ℕ) → (e == c) ≡ false → NotIn c (xs ++ ys) → NotIn c (xs ++ e ∷ ys)
NotIn-insert c e [] ys h k = (h, k)
NotIn-insert c e (x ∷ xs) ys h k = (k.0, NotIn-insert c e xs ys h k.1)

Distinct-insert :
    (e : ℕ) (xs ys : List ℕ) → NotIn e (xs ++ ys) → Distinct (xs ++ ys) → Distinct (xs ++ e ∷ ys)
Distinct-insert e [] ys h k = (h, k)
Distinct-insert e (x ∷ xs) ys h k =
    (NotIn-insert x e xs ys (ground (arith, h.0)) k.0, Distinct-insert e xs ys h.1 k.1)

list-Apart :
    (m : Cells) (e list : ℕ) (xs : List ℕ)
    → IsList m list xs
    → NotIn e (list ∷ xs)
    → Apart e list xs list
list-Apart m e list xs l h = record {
  start = l.distinct.0;
  distinct = l.distinct.1;
  end = l.distinct.0;
  new = h.1;
  new_start = h.0;
  new_end = h.0;
}

-- Between the entries `xs` and `ys`.
insert-IsList :
    (m : Cells) (e list : ℕ) (xs ys : List ℕ)
    → IsList m list (xs ++ ys)
    → NotIn e (list ∷ (xs ++ ys))
    → IsList (list_add_between e (last_of list xs) (head_of ys list) m) list (xs ++ e ∷ ys)
insert-IsList m e list xs ys l h = record {
  chain = insert-Chain m e list xs ys list (list-Apart m e list (xs ++ ys) l h) l.chain;
  distinct = (
    NotIn-insert list e xs ys (ground (arith, h.0)) l.distinct.0,
    Distinct-insert e xs ys h.1 l.distinct.1,
  );
}

-- A new entry is put at the head of the list by `list_add` and at its tail by `list_add_tail`; the
-- other entries stay in their order, and a list of no entries is what `INIT_LINKED_LIST` makes.
pub list_add_lem :
    (m : Cells) (e list : ℕ) (xs : List ℕ)
    → IsList m list xs
    → NotIn e (list ∷ xs)
    → IsList (init_linked_list list m) list []
      × IsList (list_add e list m) list (e ∷ xs)
      × IsList (list_add_tail e list m) list (xs ++ e ∷ [])
unfolding list_add list_add_tail init_linked_list
list_add_lem m e list xs l h = (
  record { chain = ground arith; distinct = (tt, tt) },
  subst (λ n. IsList (list_add_between e list n m) list (e ∷ xs))
      (sym (next-head m list xs list l.chain)) (insert-IsList m e list [] xs l h),
  subst (λ p. IsList (list_add_between e p list m) list (xs ++ e ∷ []))
      (sym (prev-last m list xs list l.chain))
      (insert-IsList m e list xs [] (subst (λ k. IsList m list k) (sym (append-nil xs)) l)
        (subst (λ k. NotIn e (list ∷ k)) (sym (append-nil xs)) h)),
)
