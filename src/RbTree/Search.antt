-- ===== src/RbTree/Search.antt =====
-- RBTree's searches, and RBTreeNode::Next and Prev.
use mzx.Base.{ℕ, zero, suc, Bool, not, Option, none, some, if◌then◌else◌}
use mzx.Run.{Run, ok, out_of_fuel, ◌>>=◌}
use mzx.RbTree.Store.{Side, left, right, other, Store, same, parent_of, is_linked}

-- `while (node->Left()) node = node->Left();` and its mirror image, on fuel
unfoldable pub outermost : ℕ → Side → Store → ℕ → Run ℕ
outermost zero d s node = out_of_fuel
outermost (suc fuel) d s node = elim (s.child d node) [
  | none ↦ ok node
  | some next ↦ outermost fuel d s next
]

-- Begin, with the side `left`, and RBegin, with the side `right`
unfoldable pub begin : ℕ → Side → Store → Run (Option ℕ)
begin fuel d s = elim s.root [
  | none ↦ ok none
  | some node ↦ outermost fuel d s node >>= λ x. ok (some x)
]

-- `while ((parent = node->Parent()) && node == parent->Right()) node = parent;` and its mirror image
unfoldable pub climb : ℕ → Side → Store → ℕ → Run (Option ℕ)
climb zero d s node = out_of_fuel
climb (suc fuel) d s node = elim (parent_of s node) [
  | none ↦ ok none
  | some parent ↦
      let up = climb fuel d s parent in
      if same (some node) (s.child d parent) then up else ok (some parent)
]

-- Next, with the side `right`, and Prev, with the side `left`
unfoldable pub step : ℕ → Side → Store → ℕ → Run (Option ℕ)
unfolding outermost climb
step fuel d s node =
    let inside : Run (Option ℕ) = elim (s.child d node) [
      | none ↦ climb fuel d s node
      | some below ↦ outermost fuel (other d) s below >>= λ x. ok (some x)
    ] in
    if is_linked s node then inside else ok none

module _ {ℓ} {K : Type ℓ} (key_comp : K → K → Bool) (key_of_node : ℕ → K) where
  -- the loop of LowerBound and Find, on fuel
  unfoldable pub lower_loop : ℕ → Store → K → Option ℕ → Option ℕ → Run (Option ℕ)
  lower_loop zero s key found p = out_of_fuel
  lower_loop (suc fuel) s key found none = ok found
  lower_loop (suc fuel) s key found (some x) =
      let less = key_comp (key_of_node x) key in
      lower_loop fuel s key (if not less then some x else found)
        (s.child (if not less then left else right) x)

  unfoldable pub lower_bound : ℕ → Store → K → Run (Option ℕ)
  unfolding lower_loop
  lower_bound fuel s key = lower_loop fuel s key none s.root

  unfoldable pub find : ℕ → Store → K → Run (Option ℕ)
  unfolding lower_loop
  find fuel s key = lower_loop fuel s key none s.root >>= λ found. ok (elim found [
    | none ↦ none
    | some x ↦ if not (key_comp key (key_of_node x)) then some x else none
  ])

  -- the loop of UpperBound, on fuel
  unfoldable pub upper_loop : ℕ → Store → K → Option ℕ → Option ℕ → Run (Option ℕ)
  upper_loop zero s key found p = out_of_fuel
  upper_loop (suc fuel) s key found none = ok found
  upper_loop (suc fuel) s key found (some x) =
      let less = key_comp key (key_of_node x) in
      upper_loop fuel s key (if less then found else some x)
        (s.child (if less then left else right) x)

  unfoldable pub upper_bound : ℕ → Store → K → Run (Option ℕ)
  unfolding upper_loop step
  upper_bound fuel s key = upper_loop fuel s key none s.root >>= λ found. elim found [
    | none ↦ ok none
    | some x ↦ if key_comp key (key_of_node x) then ok (some x) else step fuel right s x
  ]
