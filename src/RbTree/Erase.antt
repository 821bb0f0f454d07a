-- ===== src/RbTree/Erase.antt =====
-- RBTreeNode::Erase and RBTree::Erase.
use mzx.Base.{ℕ, zero, suc, ◌+◌, ◌-◌, ◌%◌, ◌^◌, Bool, Option, none, some, if◌then◌else◌}
use mzx.Run.{Run, ok, abort, out_of_fuel, ◌>>=◌}
use mzx.RbTree.Store.{
  red, black, Side, left, right, other, Store, same, deref, is_red, is_red_color, parent_of,
  set_parent_color, copy_parent_color, set_parent, set_black, blacken_at, set_child, change_child,
  rotate_set_parents,
}
use mzx.RbTree.Insert.{RbTree}
use mzx.RbTree.Search.{step, lower_bound, upper_bound}

-- the `do ... while (tmp)`, on fuel: the last `parent` and `successor`
unfoldable pub find_successor : ℕ → ℕ → ℕ → Store → Run (ℕ × ℕ)
find_successor zero parent successor s = out_of_fuel
find_successor (suc fuel) parent successor s = elim (s.child left successor) [
  | none ↦ ok (parent, successor)
  | some tmp ↦ find_successor fuel successor tmp s
]

-- a node with both children; here `tmp` is node->Left(), so `if (!tmp)` is never taken
unfoldable pub unlink_both : ℕ → ℕ → ℕ → ℕ → Store → Run (Store × Option ℕ)
unfolding find_successor set_parent_color copy_parent_color set_parent set_child change_child
unlink_both fuel node tmp child s = do
  (parent, successor) ← find_successor fuel child tmp s
  let child2 = s.child right successor
  let t =
      set_parent child (some successor)
        (set_child right successor (some child) (set_child left parent child2 s))
  tmp ← deref (t.child left node)
  let u = set_parent tmp (some successor) (set_child left successor (some tmp) t)
  let pc = u.parent_color node
  let v = change_child node (some successor) pc.parent u
  ok (elim child2 [
    | none ↦ (copy_parent_color successor pc v, if is_red v successor then none else some parent)
    | some x ↦ (set_parent_color x (some parent) black (copy_parent_color successor pc v), none)
  ])

-- the node with a child on the side `d` at most, and the value of `rebalance`
unfoldable pub unlink_one : ℕ → Option ℕ → Store → Store × Option ℕ
unfolding copy_parent_color change_child
unlink_one node child s =
    let pc = s.parent_color node in
    let t = change_child node child pc.parent s in
    elim child [
      | none ↦ (t, if is_red_color pc.color then none else pc.parent)
      | some x ↦ (copy_parent_color x pc t, none)
    ]

-- the code up to `if (rebalance)`
unfoldable pub unlink : ℕ → ℕ → Store → Run (Store × Option ℕ)
unfolding unlink_both unlink_one
unlink fuel node s =
    let child = s.child right node in
    elim (s.child left node) [
      | none ↦ ok (unlink_one node child s)
      | some tmp ↦ elim child [
        | none ↦
            let pc = s.parent_color node in
            ok (change_child node (some tmp) pc.parent (copy_parent_color tmp pc s), none)
        | some c ↦ unlink_both fuel node tmp c s
      ]
    ]

-- how a round of the loop ends
pub data EraseRound : Type 0 where
  again : Option ℕ → ℕ → Store → EraseRound
  done : Store → EraseRound

-- `if (sibling->IsRed())`, where `node` is the child of `parent` on the side `d`
unfoldable pub lift_sibling : Side → ℕ → ℕ → Store → Run (Store × ℕ)
unfolding set_parent_color set_child rotate_set_parents
lift_sibling d parent sibling s = do
  tmp1 ← deref (s.child d sibling)
  let t = set_child d sibling (some parent) (set_child (other d) parent (some tmp1) s)
  ok (rotate_set_parents parent sibling red (set_parent_color tmp1 (some parent) black t), tmp1)

-- the end of the loop's body, from `tmp2 = sibling->Left();`
unfoldable pub lower_parent : Side → ℕ → ℕ → ℕ → Store → Store
unfolding set_parent_color set_child set_parent rotate_set_parents
lower_parent d parent sibling tmp1 s =
    let tmp2 = s.child d sibling in
    let t =
      set_parent_color tmp1 (some sibling) black
        (set_child d sibling (some parent) (set_child (other d) parent tmp2 s)) in
    let u : Store = elim tmp2 [ none ↦ t | some x ↦ set_parent x (some parent) t ] in
    rotate_set_parents parent sibling black u

-- the round from `tmp1 = sibling->Right();`
unfoldable pub balance_sibling : Side → ℕ → ℕ → Store → EraseRound
unfolding set_parent_color set_child set_black blacken_at lower_parent
balance_sibling d parent sibling s =
    let recolored = set_parent_color sibling (some parent) red s in
    let shorter : EraseRound = elim (parent_of recolored parent) [
      | none ↦ done recolored
      | some up ↦ again (some parent) up recolored
    ] in
    let both_black =
      if is_red recolored parent then done (set_black parent recolored) else shorter in
    let inner_red = λ (tmp2 : ℕ).
      let tmp1 = s.child (other d) tmp2 in
      let t = blacken_at tmp1 (some sibling) (
        set_child (other d) parent (some tmp2)
          (set_child (other d) tmp2 (some sibling) (set_child d sibling tmp1 s))) in
      done (lower_parent d parent tmp2 sibling t) in
    let inner : EraseRound = elim (s.child d sibling) [
      | none ↦ both_black
      | some tmp2 ↦ if is_red s tmp2 then inner_red tmp2 else both_black
    ] in
    elim (s.child (other d) sibling) [
      | none ↦ inner
      | some tmp1 ↦ if is_red s tmp1 then done (lower_parent d parent sibling tmp1 s) else inner
    ]

unfoldable pub erase_round : Option ℕ → ℕ → Store → Run EraseRound
unfolding lift_sibling balance_sibling
erase_round node parent s = do
  let d = if same node (s.child right parent) then right else left
  sibling ← deref (s.child (other d) parent)
  (t, sibling) ← (if is_red s sibling then lift_sibling d parent sibling s else ok (s, sibling))
  ok (balance_sibling d parent sibling t)

-- the `while (true)`, on fuel
unfoldable pub erase_loop : ℕ → Option ℕ → ℕ → Store → Run Store
unfolding erase_round
erase_loop zero child parent s = out_of_fuel
erase_loop (suc fuel) child parent s = erase_round child parent s >>= λ r. elim r [
  | again node' parent' t ↦ erase_loop fuel node' parent' t
  | done t ↦ ok t
]

-- RBTreeNode::Erase
unfoldable pub erase_node : ℕ → ℕ → Store → Run Store
unfolding unlink erase_loop
erase_node fuel node s = do
  (t, rebalance) ← unlink fuel node s
  elim rebalance [ none ↦ ok t | some parent ↦ erase_loop fuel none parent t ]

-- Erase(node): the tree and the next node; length_ wraps around
unfoldable pub erase : ℕ → RbTree → Run (RbTree × Option ℕ)
unfolding step erase_node
erase node tree = do
  tmp ← step (suc tree.length) right tree.store node
  s ← erase_node (suc tree.length) node tree.store
  ok (record { store = s; length = (tree.length + 2 ^ 64 - 1) % 2 ^ 64 }, tmp)

-- the loop of Erase(key), on fuel
unfoldable pub erase_range : ℕ → Option ℕ → Option ℕ → ℕ → RbTree → Run (RbTree × ℕ)
unfolding erase
erase_range zero node_begin node_end len tree = out_of_fuel
erase_range (suc fuel) node_begin node_end len tree =
    let more : Run (RbTree × ℕ) = elim node_begin [
      | none ↦ abort
      | some node ↦ erase node tree >>= λ (t, next). erase_range fuel next node_end (len + 1) t
    ] in
    if same node_begin node_end then ok (tree, len) else more

-- Erase(key): the tree and the number of erased nodes
module _ {ℓ} {K : Type ℓ} (key_comp : K → K → Bool) (key_of_node : ℕ → K) where
  unfoldable pub erase_key : K → RbTree → Run (RbTree × ℕ)
  unfolding erase_range
  erase_key key tree = do
    node_begin ← lower_bound key_comp key_of_node (suc tree.length) tree.store key
    let whole : Run (RbTree × ℕ) = do
      node_end ← upper_bound key_comp key_of_node (suc tree.length) tree.store key
      erase_range (suc tree.length) node_begin node_end 0 tree
    if same node_begin none then ok (tree, 0) else whole
