-- ===== src/Support/Lists/Tail.antt =====
-- `add_tail` and `list_append`, and `remove`.
use ub2lb.Prelude.{ℕ, ◌≡◌, ◌≢◌, ◌∙◌, sym, subst, refl, ap, List, [], ◌∷◌, ◌++◌, arith}
use ub2lb.Support.Lists.{Heap, store, n_pred, l_tail, l_tailpred, add_tail, list_append}
use ub2lb.Support.Lists.Linked.{Linked, Clear, Apart, IsList, Fresh, store-same, store-other}

abbrev pub last_of : ℕ → List ℕ → ℕ
last_of a [] = a
last_of a (n ∷ ns) = last_of n ns

Linked-last :
    (h : Heap) (a : ℕ) (ns : List ℕ) (e : ℕ) → Linked h a ns e → h (n_pred e) ≡ last_of a ns
Linked-last h a [] e k = k.1
Linked-last h a (n ∷ ns) e k = Linked-last h n ns e (k.2)

Clear-last : (x a : ℕ) (ns : List ℕ) (e : ℕ) → x ≢ a → Clear x ns e → x ≢ last_of a ns
Clear-last x a [] e n c = n
Clear-last x a (m ∷ ns) e n c = Clear-last x m ns e (c.0) (c.2)

Clear-end : (x : ℕ) (ns : List ℕ) (e : ℕ) → Clear x ns e → x ≢ n_pred e
Clear-end x [] e c = c
Clear-end x (m ∷ ns) e c = Clear-end x ns e (c.2)

-- The stores of `add_tail` behind the node `p`, in a list that ends at `e`.
abbrev put_tail : ℕ → ℕ → ℕ → Heap → Heap
put_tail e n p h = store (n_pred e) n (store p n (store (n_pred n) p (store n e h)))

-- An address that none of the stores hits.
put_tail-other :
    (e n p : ℕ) (h : Heap) (x : ℕ)
    → x ≢ n_pred e
    → x ≢ p
    → x ≢ n_pred n
    → x ≢ n
    → put_tail e n p h x ≡ h x
put_tail-other e n p h x a b c d =
    store-other (n_pred e) n _ x a
    ∙ store-other p n _ x b
    ∙ store-other (n_pred n) p _ x c
    ∙ store-other n e h x d

put_tail-Linked :
    (h : Heap) (a n : ℕ) (ns : List ℕ) (e : ℕ)
    → Linked h a ns e
    → Clear a ns e
    → Apart ns e
    → Clear n ns e
    → Clear (n_pred n) ns e
    → n ≢ a
    → n_pred n ≢ a
    → Linked (put_tail e n (last_of a ns) h) a (ns ++ n ∷ []) e
unfolding store
put_tail-Linked h a n [] e k c d f g p q = ground arith
put_tail-Linked h a n (m ∷ ns) e k c d f g p q =
    let far = Clear-last a m ns e (c.0) (c.2) in
    let far' = Clear-last (n_pred m) m ns e (λ r. omega (arith, r)) (d.1) in
    (
      put_tail-other e n (last_of m ns) h a (Clear-end a ns e (c.2)) far (λ r. q (sym r))
            (λ r. p (sym r))
          ∙ k.0,
      put_tail-other e n (last_of m ns) h (n_pred m) (Clear-end (n_pred m) ns e (d.1)) far'
            (λ r. (g.1) (sym r)) (λ r. (f.1) (sym r))
          ∙ k.1,
      put_tail-Linked h m n ns e (k.2) (d.0) (d.2) (f.2) (g.2) (f.0) (g.0),
    )

add_tail-put :
    (l n p : ℕ) (h : Heap)
    → h (l_tailpred l) ≡ p
    → n ≢ l_tailpred l
    → n_pred n ≢ l_tailpred l
    → add_tail l n h ≡ put_tail (l_tail l) n p h
unfolding add_tail
add_tail-put l n p h e a b =
    let read : store n (l_tail l) h (l_tailpred l) ≡ p =
      store-other n (l_tail l) h (l_tailpred l) (λ r. a (sym r)) ∙ e in
    let again : store (n_pred n) p (store n (l_tail l) h) (l_tailpred l) ≡ p =
      store-other (n_pred n) p (store n (l_tail l) h) (l_tailpred l) (λ r. b (sym r)) ∙ read in
    let same : n_pred (l_tail l) ≡ l_tailpred l = omega arith in rw (read, again, same) refl

list_append-add_tail-put :
    (l n p : ℕ) (h : Heap)
    → h (l_tailpred l) ≡ p
    → n ≢ l_tailpred l
    → list_append l n h ≡ put_tail (l_tail l) n p h
unfolding list_append
list_append-add_tail-put l n p h e a =
    let read : store n (l_tail l) h (l_tailpred l) ≡ p =
      store-other n (l_tail l) h (l_tailpred l) (λ r. a (sym r)) ∙ e in
    let again : store (n_pred n) p (store n (l_tail l) h) (n_pred n) ≡ p =
      store-same (n_pred n) p (store n (l_tail l) h) in
    let same : n_pred (l_tail l) ≡ l_tailpred l = omega arith in rw (read, again, same) refl

Clear-append :
    (x : ℕ) (ns : List ℕ) (n e : ℕ) → Clear x ns e → x ≢ n → x ≢ n_pred n → Clear x (ns ++ n ∷ []) e
Clear-append x [] n e c p q = (p, q, c)
Clear-append x (m ∷ ns) n e c p q = (c.0, c.1, Clear-append x ns n e (c.2) p q)

Apart-append :
    (ns : List ℕ) (n e : ℕ)
    → Apart ns e
    → Clear n ns e
    → Clear (n_pred n) ns e
    → Apart (ns ++ n ∷ []) e
Apart-append [] n e d f g = (f, g, tt)
Apart-append (m ∷ ns) n e d f g = (
  Clear-append m ns n e (d.0) (λ r. (f.0) (sym r)) (λ r. (g.0) (sym r)),
  Clear-append (n_pred m) ns n e (d.1) (λ r. (f.1) (sym r)) (λ r. (g.1) (sym r)),
  Apart-append ns n e (d.2) (f.2) (g.2),
)

put_tail-IsList :
    (l n : ℕ) (ns : List ℕ) (h : Heap)
    → IsList h l ns
    → Fresh n l ns
    → IsList (put_tail (l_tail l) n (last_of l ns) h) l (ns ++ n ∷ [])
put_tail-IsList l n ns h k f =
    let far : l_tail l ≢ last_of l ns =
      Clear-last (l_tail l) l ns (l_tail l) (λ r. omega (arith, r)) k.tail_clear in
    record {
      linked =
          put_tail-Linked h l n ns (l_tail l) k.linked k.head_clear k.apart f.succ_clear
            f.pred_clear (f.succ_apart.0) (f.pred_apart.0);
      tail =
          put_tail-other (l_tail l) n (last_of l ns) h (l_tail l) (λ r. omega (arith, r)) far
            (λ r. (f.pred_apart.1) (sym r)) (λ r. (f.succ_apart.1) (sym r))
          ∙ k.tail;
      head_clear =
          Clear-append l ns n (l_tail l) k.head_clear (λ r. (f.succ_apart.0) (sym r))
            (λ r. (f.pred_apart.0) (sym r));
      tail_clear =
          Clear-append (l_tail l) ns n (l_tail l) k.tail_clear (λ r. (f.succ_apart.1) (sym r))
            (λ r. (f.pred_apart.1) (sym r));
      apart = Apart-append ns n (l_tail l) k.apart f.succ_clear f.pred_clear;
    }

-- In a list, `l_tailpred` names the last node.
tailpred-last : (l : ℕ) (ns : List ℕ) (h : Heap) → IsList h l ns → h (l_tailpred l) ≡ last_of l ns
tailpred-last l ns h k =
    let same : l_tailpred l ≡ n_pred (l_tail l) = omega arith in
    ap h same ∙ Linked-last h l ns (l_tail l) k.linked

tailpred-other : (l x : ℕ) (ns : List ℕ) → Clear x ns (l_tail l) → x ≢ l_tailpred l
tailpred-other l x ns c r = Clear-end x ns (l_tail l) c (omega (arith, r))

-- `add_tail` and `list_append` each put a fresh node behind the nodes of the list, and leave the same memory.
pub add_tail-IsList :
    (l n : ℕ) (ns : List ℕ) (h : Heap)
    → IsList h l ns
    → Fresh n l ns
    → IsList (add_tail l n h) l (ns ++ n ∷ []) × (list_append l n h ≡ add_tail l n h)
add_tail-IsList l n ns h k f =
    let last_node = tailpred-last l ns h k in
    let succ_other = tailpred-other l n ns f.succ_clear in
    let e =
      add_tail-put l n (last_of l ns) h last_node succ_other
        (tailpred-other l (n_pred n) ns f.pred_clear) in
    (
      subst (λ g. IsList g l (ns ++ n ∷ [])) (sym e) (put_tail-IsList l n ns h k f),
      list_append-add_tail-put l n (last_of l ns) h last_node succ_other ∙ sym e,
    )
