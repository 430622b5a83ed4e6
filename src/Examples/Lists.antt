-- ===== src/Examples/Lists.antt =====
-- A list at address 100, with nodes at 200 and 300.
use ub2lb.Prelude.{◌≡◌, [], ◌∷◌, arith}
use ub2lb.Support.Lists.{Heap, add_head, add_tail, new_list, list_append}
use ub2lb.Support.Lists.Linked.{IsList, Fresh, new_list-IsList, add_head-IsList}
use ub2lb.Support.Lists.Tail.{add_tail-IsList}

abbrev memory : Heap
memory x = 7

first-Fresh : Fresh 200 100 []
first-Fresh = record {
  succ_clear = λ e. omega (arith, e);
  pred_clear = λ e. omega (arith, e);
  succ_apart = (λ e. omega (arith, e), λ e. omega (arith, e));
  pred_apart = (λ e. omega (arith, e), λ e. omega (arith, e));
}

second-Fresh : Fresh 300 100 (200 ∷ [])
second-Fresh = record {
  succ_clear = (λ e. omega (arith, e), λ e. omega (arith, e), λ e. omega (arith, e));
  pred_clear = (λ e. omega (arith, e), λ e. omega (arith, e), λ e. omega (arith, e));
  succ_apart = (λ e. omega (arith, e), λ e. omega (arith, e));
  pred_apart = (λ e. omega (arith, e), λ e. omega (arith, e));
}

abbrev one_node : Heap
one_node = add_head 100 200 (new_list 100 memory)

add_tail-IsList_example :
    IsList (add_tail 100 300 one_node) 100 (200 ∷ 300 ∷ [])
    × (list_append 100 300 one_node ≡ add_tail 100 300 one_node)
add_tail-IsList_example =
    add_tail-IsList 100 300 (200 ∷ []) one_node
      (add_head-IsList 100 200 [] (new_list 100 memory) (new_list-IsList 100 memory) first-Fresh)
      second-Fresh
