-- ===== src/RbTree/Examples.antt =====
-- The theorems on the red-black tree at concrete trees.
use mzx.Base.{ℕ, ◌≡◌, refl, none, some, [], ◌∷◌, ltb, if◌then◌else◌, ◌==◌, arith}
use mzx.Order.{ltb-IsWeakOrder}
use mzx.Run.{ok, Returns}
use mzx.RbTree.Store.{red, black, left, right}
use mzx.RbTree.Insert.{RbTree, insert, insert_equal}
use mzx.RbTree.Search.{step, find, upper_bound}
use mzx.RbTree.Shape.{leaf, node, Context}
use mzx.RbTree.Sequence.{insert_ordered}
use mzx.RbTree.Refines.{Represents, Outcome, insert-Represents, insert_equal-Represents}
use mzx.RbTree.Visit.{next_of, facing, step-Represents}
use mzx.RbTree.Lookup.{equal_to}
use mzx.RbTree.Queries.{greater_inside, find-Represents, upper_bound-Represents}

abbrev name_of : ℕ → ℕ
name_of x = x

-- 5 above 3
abbrev two_nodes : RbTree
two_nodes = record {
  store = record {
    parent_color = λ x.
        if x == 5
        then record { parent = none; color = black }
        else record { parent = some 5; color = red };
    child = λ d x. elim d [ left ↦ if x == 5 then some 3 else none | right ↦ none ];
    root = some 5;
  };
  length = 2;
}

two_nodes-Represents : Represents ltb two_nodes (3 ∷ 5 ∷ [])
two_nodes-Represents = record {
  shape = node black (node red leaf 3 leaf) 5 leaf;
  held = (refl, refl, (refl, refl, refl, refl), refl);
  in_order = refl;
  red_black = ((1, (0, refl, (refl, refl, refl, refl), refl)), refl);
  counted = refl;
  sorted = ((refl, tt), (tt, tt));
  apart = λ k. ground arith;
}

insert-Represents_example :
    Returns
      (Outcome ltb name_of ltb-IsWeakOrder 4 two_nodes (3 ∷ 5 ∷ []))
      (insert ltb name_of 4 two_nodes)
insert-Represents_example =
    insert-Represents ltb name_of ltb-IsWeakOrder 4 two_nodes (3 ∷ 5 ∷ []) two_nodes-Represents refl

insert_equal-Represents_example :
    Returns
      (λ t. Represents ltb t (insert_ordered ltb 4 (3 ∷ 5 ∷ [])))
      (insert_equal ltb name_of 4 two_nodes)
insert_equal-Represents_example =
    insert_equal-Represents ltb name_of ltb-IsWeakOrder 4 two_nodes (3 ∷ 5 ∷ [])
      two_nodes-Represents refl

find-Represents_example :
    find ltb name_of 3 two_nodes.store 5 ≡ ok (equal_to ltb name_of 5 (3 ∷ 5 ∷ []))
find-Represents_example =
    find-Represents ltb name_of ltb-IsWeakOrder two_nodes (3 ∷ 5 ∷ []) two_nodes-Represents 5

upper_bound-Represents_example :
    upper_bound ltb name_of 3 two_nodes.store 3 ≡ ok (greater_inside ltb name_of 3 (3 ∷ 5 ∷ []))
upper_bound-Represents_example =
    upper_bound-Represents ltb name_of ltb-IsWeakOrder two_nodes (3 ∷ 5 ∷ []) two_nodes-Represents 3

step-Represents_example :
    step 3 right two_nodes.store 3 ≡ ok (next_of 3 (facing right (3 ∷ 5 ∷ [])))
step-Represents_example =
    step-Represents ltb two_nodes (3 ∷ 5 ∷ []) two_nodes-Represents right 3 (ground arith)

-- 3 is a new red child of the black 5
abbrev above_three : Context
above_three = record { side = left; color = black; name = 5; sibling = leaf } ∷ []
