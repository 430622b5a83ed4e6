-- ===== src/Support/Lists.antt =====
-- The lists of src/support.h and src/support.c: `new_list`, `add_head`, `add_tail`, `remove`, `list_new` and `list_append`. Memory is a
-- function from the addresses of pointers to pointers. A node has two of them, `n_succ` and `n_pred`, and
-- a list three, `l_head`, `l_tail` and `l_tailpred`; each end of a list serves as a node.
pub mod Linked
pub mod Tail
use ub2lb.Prelude.{ℕ, zero, suc, ◌+◌, Bool, ◌==◌, if◌then◌else◌, ◌≡◌, ◌≢◌, refl, arith}

abbrev pub Heap : Type 0
Heap = ℕ → ℕ

unfoldable pub store : ℕ → ℕ → Heap → Heap
store p v h x = if x == p then v else h x

-- `n->n_succ` and `l->l_head` stand first, `n->n_pred` and `l->l_tail` second, `l->l_tailpred` third.
abbrev pub n_pred : ℕ → ℕ
n_pred n = n + 1

abbrev pub l_tail : ℕ → ℕ
l_tail l = l + 1

abbrev pub l_tailpred : ℕ → ℕ
l_tailpred l = l + 2

unfoldable pub new_list : ℕ → Heap → Heap
new_list l h = store l (l_tail l) (store (l_tail l) 0 (store (l_tailpred l) l h))

unfoldable pub add_head : ℕ → ℕ → Heap → Heap
add_head l n h =
    let h1 = store n (h l) h in
    let h2 = store (n_pred n) l h1 in let h3 = store (n_pred (h2 l)) n h2 in store l n h3

unfoldable pub add_tail : ℕ → ℕ → Heap → Heap
add_tail l n h =
    let h1 = store n (l_tail l) h in
    let h2 = store (n_pred n) (h1 (l_tailpred l)) h1 in
    let h3 = store (h2 (l_tailpred l)) n h2 in store (l_tailpred l) n h3

unfoldable pub remove : ℕ → Heap → Heap
remove n h = let h1 = store (h (n_pred n)) (h n) h in store (n_pred (h1 n)) (h1 (n_pred n)) h1

-- `self` is what `malloc` returns.
unfoldable pub list_new : ℕ → Heap → Heap
list_new self h = store (l_tailpred self) self (store (l_tail self) 0 (store self (l_tail self) h))

unfoldable pub list_append : ℕ → ℕ → Heap → Heap
list_append self node h =
    let h1 = store node (l_tail self) h in
    let h2 = store (n_pred node) (h1 (l_tailpred self)) h1 in
    let h3 = store (h2 (n_pred node)) node h2 in store (l_tailpred self) node h3
