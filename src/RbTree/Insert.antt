-- ===== src/RbTree/Insert.antt =====
-- RBTreeNode::Insert, RBTree::Insert and RBTree::InsertEqual.
use mzx.Base.{ℕ, zero, suc, ◌+◌, Bool, true, false, not, Option, none, some, if◌then◌else◌}
use mzx.Run.{Run, ok, out_of_fuel, ◌>>=◌}
use mzx.RbTree.Store.{
  red, black, Side, left, right, other, Store, same, deref, is_red, parent_of, set_parent_color,
  blacken_at, set_child, rotate_set_parents,
}

-- how a round of the loop ends
pub data Round : Type 0 where
  again : ℕ → Option ℕ → Store → Round
  stop : Store → Round

-- `tmp->SetParentColor(gparent, Color::Black); ... continue;`
unfoldable pub recolor : ℕ → ℕ → ℕ → Store → Round
recolor uncle parent gparent s =
    let t =
      set_parent_color parent (some gparent) black
        (set_parent_color uncle (some gparent) black s) in
    let up = parent_of t gparent in again gparent up (set_parent_color gparent up red t)

-- the body of `if (node == tmp)`, where `parent` is the child of its parent on the side `d`
unfoldable pub turn_inner : Side → ℕ → ℕ → Store → Store
turn_inner d node parent s =
    let tmp = s.child d node in
    set_parent_color parent (some node) red (
      blacken_at tmp (some parent)
        (set_child d node (some parent) (set_child (other d) parent tmp s)))

-- what follows it
unfoldable pub turn_outer : Side → ℕ → ℕ → Option ℕ → Store → Store
turn_outer d parent gparent tmp s = rotate_set_parents gparent parent red (
    blacken_at tmp (some gparent)
      (set_child (other d) parent (some gparent) (set_child d gparent tmp s)))

unfoldable pub rotate : Side → ℕ → ℕ → ℕ → Store → Store
unfolding turn_inner turn_outer
rotate d node parent gparent s =
    let tmp = s.child (other d) parent in
    let t = turn_inner d node parent s in
    if same (some node) tmp
    then turn_outer d node gparent (t.child (other d) node) t
    else turn_outer d parent gparent tmp s

-- what follows `uncle = ...`, where `parent` is the child of `gparent` on the side `d`
unfoldable pub insert_side : Option ℕ → Side → ℕ → ℕ → ℕ → Store → Round
unfolding recolor rotate
insert_side none d node parent gparent s = stop (rotate d node parent gparent s)
insert_side (some uncle) d node parent gparent s =
    if is_red s uncle then recolor uncle parent gparent s else stop (rotate d node parent gparent s)

-- the round of a red parent
unfoldable pub insert_round : ℕ → ℕ → Store → Run Round
unfolding insert_side
insert_round node parent s = do
  gparent ← deref (parent_of s parent)
  let d = if same (some parent) (s.child right gparent) then right else left
  ok (insert_side (s.child (other d) gparent) d node parent gparent s)

-- the `while (true)`, on fuel
unfoldable pub insert_loop : ℕ → ℕ → Option ℕ → Store → Run Store
insert_loop zero node parent s = out_of_fuel
insert_loop (suc fuel) node none s = ok (set_parent_color node none black s)
insert_loop (suc fuel) node (some parent) s =
    let next : Run Store = insert_round node parent s >>= λ r. elim r [
      | again node' parent' t ↦ insert_loop fuel node' parent' t
      | stop t ↦ ok t
    ] in
    if is_red s parent then next else ok s

-- a RBTreeNode**
pub data Link : Type 0 where
  at_root : Link
  at_child : Side → ℕ → Link

unfoldable pub read_link : Link → Store → Option ℕ
read_link at_root s = s.root
read_link (at_child d x) s = s.child d x

unfoldable pub write_link : Link → Option ℕ → Store → Store
unfolding set_child
write_link at_root p s = record s { root = p }
write_link (at_child d x) p s = set_child d x p s

-- RBTreeNode::Insert
unfoldable pub insert_node : ℕ → ℕ → Option ℕ → Link → Store → Run Store
insert_node fuel node parent link s = insert_loop fuel node parent (
    write_link link (some node)
      (set_child right node none (set_child left node none (set_parent_color node parent red s))))

-- RBTree
pub record RbTree : Type 0 where
  pub store : Store
  pub length : ℕ

module _ {ℓ} {K : Type ℓ} (key_comp : K → K → Bool) (key_of_node : ℕ → K) where
  -- the `while (*link)`, on fuel: the last `parent`, `link` and `check_node`
  unfoldable pub find_link :
      ℕ → ℕ → Store → Option ℕ → Link → Option ℕ → Run (Option ℕ × Link × Option ℕ)
  find_link zero node s parent link check_node = out_of_fuel
  find_link (suc fuel) node s parent link check_node = elim (read_link link s) [
    | none ↦ ok (parent, link, check_node)
    | some p ↦
        let less = key_comp (key_of_node node) (key_of_node p) in
        find_link fuel node s (some p) (at_child (if less then left else right) p)
          (if less then check_node else some p)
  ]

  unfoldable pub insert : ℕ → RbTree → Run (RbTree × Bool)
  unfolding find_link insert_node insert_loop
  insert node tree = do
    (parent, link, check_node) ← find_link (suc tree.length) node tree.store none at_root none
    let done : Run (RbTree × Bool) =
        insert_node (suc tree.length) node parent link tree.store >>= λ s.
        ok (record { store = s; length = tree.length + 1 }, true)
    elim check_node [
      | none ↦ done
      | some c ↦
          if not (key_comp (key_of_node c) (key_of_node node)) then ok (tree, false) else done
    ]

  unfoldable pub insert_equal : ℕ → RbTree → Run RbTree
  unfolding find_link insert_node insert_loop
  insert_equal node tree = do
    (parent, link, check_node) ← find_link (suc tree.length) node tree.store none at_root none
    s ← insert_node (suc tree.length) node parent link tree.store
    ok (record { store = s; length = tree.length + 1 })
