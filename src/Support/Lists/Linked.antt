-- ===== src/Support/Lists/Linked.antt =====
-- What a list in memory stands for, and what the operations make of it.
use ub2lb.Prelude.{ℕ, ◌≡◌, ◌≢◌, ◌∙◌, sym, subst, refl, ap, List, [], ◌∷◌, arith}
use ub2lb.Support.Lists.{Heap, store, n_pred, l_tail, new_list, add_head}

-- From `a` the nodes `ns` follow in both directions, up to the end `e`.
abbrev pub Linked : Heap → ℕ → List ℕ → ℕ → Type 0
Linked h a [] e = (h a ≡ e) × (h (n_pred e) ≡ a)
Linked h a (n ∷ ns) e = (h a ≡ n) × (h (n_pred n) ≡ a) × Linked h n ns e

-- `x` is none of the addresses that `Linked` reads behind its first node.
abbrev pub Clear : ℕ → List ℕ → ℕ → Type 0
Clear x [] e = x ≢ n_pred e
Clear x (n ∷ ns) e = (x ≢ n) × (x ≢ n_pred n) × Clear x ns e

-- No two of the nodes share an address.
abbrev pub Apart : List ℕ → ℕ → Type 0
Apart [] e = Unit
Apart (n ∷ ns) e = Clear n ns e × Clear (n_pred n) ns e × Apart ns e

-- The list at `l` has the nodes `ns`.
pub record IsList (h : Heap) (l : ℕ) (ns : List ℕ) : Type 0 where
  pub linked : Linked h l ns (l_tail l)
  pub tail : h (l_tail l) ≡ 0
  pub head_clear : Clear l ns (l_tail l)
  pub tail_clear : Clear (l_tail l) ns (l_tail l)
  pub apart : Apart ns (l_tail l)

-- A node that may be added.
pub record Fresh (n l : ℕ) (ns : List ℕ) : Type 0 where
  pub succ_clear : Clear n ns (l_tail l)
  pub pred_clear : Clear (n_pred n) ns (l_tail l)
  pub succ_apart : (n ≢ l) × (n ≢ l_tail l)
  pub pred_apart : (n_pred n ≢ l) × (n_pred n ≢ l_tail l)

pub store-same : (p v : ℕ) (h : Heap) → store p v h p ≡ v
unfolding store
store-same p v h = ground arith

pub store-other : (p v : ℕ) (h : Heap) (x : ℕ) → x ≢ p → store p v h x ≡ h x
unfolding store
store-other p v h x n = ground arith

-- A write that is clear of them spares the links.
pub store-Linked :
    (p v : ℕ) (h : Heap) (a : ℕ) (ns : List ℕ) (e : ℕ)
    → p ≢ a
    → Clear p ns e
    → Linked h a ns e
    → Linked (store p v h) a ns e
store-Linked p v h a [] e n c k = (
  store-other p v h a (λ q. n (sym q)) ∙ k.0,
  store-other p v h (n_pred e) (λ q. c (sym q)) ∙ k.1,
)
store-Linked p v h a (m ∷ ns) e n c k = (
  store-other p v h a (λ q. n (sym q)) ∙ k.0,
  store-other p v h (n_pred m) (λ q. (c.1) (sym q)) ∙ k.1,
  store-Linked p v h m ns e (c.0) (c.2) (k.2),
)

pub new_list-IsList : (l : ℕ) (h : Heap) → IsList (new_list l h) l []
unfolding new_list store
new_list-IsList l h = record {
  linked = ground arith;
  tail = ground arith;
  head_clear = λ e. omega (arith, e);
  tail_clear = λ e. omega (arith, e);
  apart = tt;
}

-- The four stores of `add_head`, when the first node is `m`.
abbrev put_head : ℕ → ℕ → ℕ → Heap → Heap
put_head l n m h = store l n (store (n_pred m) n (store (n_pred n) l (store n m h)))

add_head-put :
    (l n m : ℕ) (h : Heap) → h l ≡ m → n ≢ l → n_pred n ≢ l → add_head l n h ≡ put_head l n m h
unfolding add_head
add_head-put l n m h e p q =
    let read : store (n_pred n) l (store n (h l) h) l ≡ m =
      store-other (n_pred n) l (store n (h l) h) l (λ r. q (sym r))
      ∙ store-other n (h l) h l (λ r. p (sym r))
      ∙ e in
    rw (read, e) refl

put_head-Linked :
    (l n : ℕ) (ns : List ℕ) (h : Heap)
    → IsList h l ns
    → Fresh n l ns
    → (m : ℕ) × (h l ≡ m) × (l_tail l ≢ n_pred m) × Linked (put_head l n m h) l (n ∷ ns) (l_tail l)
unfolding store
put_head-Linked l n [] h k f = (l_tail l, k.linked.0, (λ e. omega (arith, e)), ground arith)
put_head-Linked l n (m ∷ ns) h k f =
    let links = k.linked in
    let ap1 = k.apart in
    (
      m,
      links.0,
      k.tail_clear.1,
      (
        ground arith,
        ground arith,
        (
          ground arith,
          ground arith,
          store-Linked l n _ m ns (l_tail l) (k.head_clear.0) (k.head_clear.2) (
              store-Linked (n_pred m) n _ m ns (l_tail l) (λ e. omega (arith, e)) (ap1.1)
                (store-Linked (n_pred n) l _ m ns (l_tail l) (f.pred_clear.0) (f.pred_clear.2) (
                  store-Linked n m h m ns (l_tail l) (f.succ_clear.0) (f.succ_clear.2) (links.2)))),
        ),
      ),
    )

-- `add_head` puts a fresh node in front of the nodes of the list.
pub add_head-IsList :
    (l n : ℕ) (ns : List ℕ) (h : Heap)
    → IsList h l ns
    → Fresh n l ns
    → IsList (add_head l n h) l (n ∷ ns)
add_head-IsList l n ns h k f =
    let (m, first, spared, links) = put_head-Linked l n ns h k f in
    let e = add_head-put l n m h first (f.succ_apart.0) (f.pred_apart.0) in
    record {
      linked = subst (λ g. Linked g l (n ∷ ns) (l_tail l)) (sym e) links;
      tail =
          ap (λ g. g (l_tail l)) e
          ∙ store-other l n _ (l_tail l) (λ q. omega (arith, q))
          ∙ store-other (n_pred m) n _ (l_tail l) spared
          ∙ store-other (n_pred n) l _ (l_tail l) (λ q. (f.pred_apart.1) (sym q))
          ∙ store-other n m h (l_tail l) (λ q. (f.succ_apart.1) (sym q))
          ∙ k.tail;
      head_clear = ((λ q. (f.succ_apart.0) (sym q)), (λ q. (f.pred_apart.0) (sym q)), k.head_clear);
      tail_clear = ((λ q. (f.succ_apart.1) (sym q)), (λ q. (f.pred_apart.1) (sym q)), k.tail_clear);
      apart = (f.succ_clear, f.pred_clear, k.apart);
    }
