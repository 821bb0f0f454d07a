-- ===== src/RbTree/Tests.antt =====
-- Concrete runs of the red-black tree.
use mzx.Base.{ℕ, zero, suc, ◌+◌, ◌≡◌, refl, Option, none, some, List, [], ◌∷◌, ltb}
use mzx.Run.{Run, ok, ◌>>=◌}
use mzx.RbTree.Store.{red, left, right, is_linked, rotate_set_parents, blacken_at, set_parent_color}
use mzx.RbTree.Insert.{RbTree, insert, read_link, write_link, insert_round}
use mzx.RbTree.Search.{begin, step, upper_bound, lower_bound}
use mzx.RbTree.Erase.{erase, erase_key}

abbrev name_of : ℕ → ℕ
name_of x = x

abbrev empty : RbTree
empty = record {
  store = record {
    parent_color = λ x. record { parent = some x; color = red };
    child = λ d x. none;
    root = none;
  };
  length = 0;
}

abbrev insert_all : List ℕ → RbTree → Run RbTree
insert_all [] tree = ok tree
insert_all (x ∷ l) tree = insert ltb name_of x tree >>= λ (t, _). insert_all l t

abbrev walk : ℕ → RbTree → Option ℕ → Run (List ℕ)
walk zero tree p = ok []
walk (suc n) tree none = ok []
walk (suc n) tree (some x) = do q ← step 9 right tree.store x; l ← walk n tree q; ok (x ∷ l)

abbrev forward : RbTree → Run (List ℕ)
forward tree = begin 9 left tree.store >>= λ p. walk 9 tree p

insert_all_test :
    (insert_all (5 ∷ 3 ∷ 9 ∷ 1 ∷ 7 ∷ 3 ∷ 2 ∷ 8 ∷ []) empty >>= forward)
    ≡ ok (1 ∷ 2 ∷ 3 ∷ 5 ∷ 7 ∷ 8 ∷ 9 ∷ [])
unfolding insert erase erase_key begin step read_link write_link insert_round is_linked
    rotate_set_parents blacken_at set_parent_color
insert_all_test = refl

-- the left child of an erased node with two children becomes its own left child
erase_test :
    (insert_all (2 ∷ 1 ∷ 3 ∷ []) empty >>= λ t.
    erase 2 t >>= λ (u, next). ok (u.store.child left 1))
    ≡ ok (some 1)
unfolding insert erase erase_key begin step read_link write_link insert_round is_linked
    rotate_set_parents blacken_at set_parent_color
erase_test = refl

-- an erased leaf
erase_leaf_test :
    (insert_all (2 ∷ 1 ∷ 3 ∷ 4 ∷ []) empty >>= λ t. erase 4 t >>= λ (u, _). forward u)
    ≡ ok (1 ∷ 2 ∷ 3 ∷ [])
unfolding insert erase erase_key begin step read_link write_link insert_round is_linked
    rotate_set_parents blacken_at set_parent_color
erase_leaf_test = refl

-- a black leaf: the sibling is lifted
erase_black_test :
    (insert_all (2 ∷ 1 ∷ 3 ∷ 4 ∷ []) empty >>= λ t. erase 1 t >>= λ (u, _). forward u)
    ≡ ok (2 ∷ 3 ∷ 4 ∷ [])
unfolding insert erase erase_key begin step read_link write_link insert_round is_linked
    rotate_set_parents blacken_at set_parent_color
erase_black_test = refl

-- no key is equal to 1, and all nodes are erased
erase_key_test :
    (insert_all (5 ∷ 6 ∷ []) empty >>= λ t.
    erase_key ltb name_of 1 t >>= λ (u, len). ok (u.length + len))
    ≡ ok 2
unfolding insert erase erase_key begin step read_link write_link insert_round is_linked
    rotate_set_parents blacken_at set_parent_color lower_bound upper_bound
erase_key_test = refl
