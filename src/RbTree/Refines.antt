-- ===== src/RbTree/Refines.antt =====
-- RBTree::Insert and RBTree::InsertEqual, as operations on the sequence of the nodes.
use mathlib.Core.Path.{subst}
use mzx.Base.{
  ℕ, suc, ◌+◌, ◌≤◌, ◌<◌, ◌≡◌, refl, Bool, true, false, not, Option, none, List, [], ◌∷◌, ◌++◌, ◌==◌,
  if◌then◌else◌, arith, ◌∙◌, sym, ap, Bool-cases, Option-cases, inl, inr,
}
use mzx.Array.{length}
use mzx.Order.{IsWeakOrder}
use mzx.Run.{ok, ◌>>=◌, Returns, returns, weaken, and_then, on_test}
use mzx.RbTree.Store.{red, Store}
use mzx.RbTree.Insert.{RbTree, at_root, read_link, insert, insert_equal, insert_node, find_link}
use mzx.RbTree.Shape.{Tree, leaf, node, Context, count, count_above, IsTree, above}
use mzx.RbTree.Repair.{repair}
use mzx.RbTree.Around.{depth}
use mzx.RbTree.Balance.{IsRedBlack}
use mzx.RbTree.Recolored.{repair-IsRedBlack}
use mzx.RbTree.Inorder.{order, order-repair}
use mzx.RbTree.Sequence.{
  IsOrdered, insert_ordered, insert_ordered-IsOrdered, floor, has_equal, is_equal, is_equal-floor,
}
use mzx.RbTree.Descent.{
  size, link_of, goes_before, descend, find_link-descend, depth-descend, count-descend,
  IsAround-descend, BalancedAround-descend, RootBlack-descend, order-descend, last_passed-floor,
}
use mzx.RbTree.Place.{insert_node-repair}

abbrev pub count_in : ℕ → List ℕ → ℕ
count_in k [] = 0
count_in k (x ∷ l) = (if k == x then 1 else 0) + count_in k l

pub count_in-append : (k : ℕ) (a b : List ℕ) → count_in k (a ++ b) ≡ count_in k a + count_in k b
count_in-append k [] b = ground arith
count_in-append k (x ∷ a) b = ground (arith, count_in-append k a b)

pub count_in-order : (k : ℕ) (t : Tree) → count_in k (order t) ≡ count k t
unfolding count
count_in-order k leaf = refl
count_in-order k (node c l x r) =
    ground
      (arith, count_in-append k (order l) (x ∷ order r), count_in-order k l, count_in-order k r)

length-append : (a b : List ℕ) → length (a ++ b) ≡ length a + length b
unfolding length
length-append [] b = ground arith
length-append (x ∷ a) b = ground (arith, length-append a b)

pub length-order : (t : Tree) → length (order t) ≡ size t
unfolding length size
length-order leaf = refl
length-order (node c l x r) =
    ground (arith, length-append (order l) (x ∷ order r), length-order l, length-order r)

module _ (less : ℕ → ℕ → Bool) where
  count_in-insert :
      (k x : ℕ) (l : List ℕ)
      → count_in k (insert_ordered less x l) ≡ (if k == x then 1 else 0) + count_in k l
  unfolding insert_ordered
  count_in-insert k x [] = refl
  count_in-insert k x (y ∷ l) = elim (Bool-cases (less x y)) [
    | inl h ↦ rw h refl
    | inr h ↦ rw h (let n = count_in-insert k x l in ground (arith, n))
  ]

  apart-insert :
      (x : ℕ) (l : List ℕ)
      → ((k : ℕ) → count_in k l ≤ 1)
      → count_in x l ≡ 0
      → (k : ℕ) → count_in k (insert_ordered less x l) ≤ 1
  apart-insert x l one out k = rw (count_in-insert k x l) (elim (Bool-cases (k == x)) [
    | inl e ↦
        let q : k ≡ x = ground arith in
        let z = ap (λ m. count_in m l) q in rw e (omega (arith, z, out))
    | inr e ↦ let n = one k in rw e (omega (arith, n))
  ])

  length-insert : (x : ℕ) (l : List ℕ) → length (insert_ordered less x l) ≡ length l + 1
  unfolding insert_ordered length
  length-insert x [] = ground arith
  length-insert x (y ∷ l) = elim (Bool-cases (less x y)) [
    | inl h ↦ rw h (ground arith)
    | inr h ↦ rw h (let n = length-insert x l in ground (arith, n))
  ]

  -- the state holds a red-black tree of the nodes `l`, which are sorted and all different
  pub record Represents (tree : RbTree) (l : List ℕ) : Type 0 where
    pub shape : Tree
    pub held : IsTree tree.store none tree.store.root shape
    pub in_order : order shape ≡ l
    pub red_black : IsRedBlack shape
    pub counted : tree.length ≡ length l
    pub sorted : IsOrdered less l
    pub apart : (k : ℕ) → count_in k l ≤ 1

module _ {ℓ} {K : Type ℓ} (key_comp : K → K → Bool) (key_of_node : ℕ → K)
    (weak : IsWeakOrder key_comp) where
  abbrev before : ℕ → ℕ → Bool
  before = goes_before key_comp key_of_node

  weak_names : IsWeakOrder before
  weak_names = record {
    asymm = λ a b. weak.asymm (key_of_node a) (key_of_node b);
    trans = λ a b c. weak.trans (key_of_node a) (key_of_node b) (key_of_node c);
  }

  abbrev Place : ℕ → Tree → Context
  Place x t = descend key_comp key_of_node x [] t

  -- the node `x` is put where the search has ended
  insert_node-Represents :
      (x : ℕ) (tree : RbTree) (l : List ℕ) (r : Represents before tree l)
      → count_in x l ≡ 0
      → Returns
          (λ (s : Store).
            Represents before
              (record { store = s; length = tree.length + 1 })
              (insert_ordered before x l))
          (insert_node
            (suc tree.length)
            x
            (above (Place x r.shape))
            (link_of (Place x r.shape))
            tree.store)
  insert_node-Represents x tree l r out =
      let up = Place x r.shape in
      let names : (k : ℕ) → count_above k up ≡ count_in k l = λ k.
        count-descend key_comp key_of_node x k r.shape
        ∙ (sym (count_in-order k r.shape) ∙ ap (count_in k) r.in_order) in
      let room : depth up < suc tree.length =
        let n = depth-descend key_comp key_of_node x r.shape in
        let m = length-order r.shape in
        let q = r.counted ∙ ap length (sym r.in_order) in omega (arith, n, m, q) in
      let sorted = subst (IsOrdered before) (sym r.in_order) r.sorted in
      let (w, e, q) = order-descend key_comp key_of_node x weak_names r.shape [] sorted in
      weaken
        (insert_node-repair (suc tree.length) tree.store up x room
          (RootBlack-descend key_comp key_of_node x r.shape r.red_black.1)
          (λ k. rw (names k) (r.apart k)) (names x ∙ out)
          (IsAround-descend key_comp key_of_node x tree.store r.shape r.held))
        λ s v. record {
          shape = repair up (node red leaf x leaf);
          held = v;
          in_order =
              order-repair up leaf x leaf
              ∙ (ap order e ∙ (q ∙ ap (insert_ordered before x) r.in_order));
          red_black =
              repair-IsRedBlack up 0 leaf x leaf
                (RootBlack-descend key_comp key_of_node x r.shape r.red_black.1)
                (refl, refl, refl, refl)
                (BalancedAround-descend key_comp key_of_node x r.shape r.red_black.0);
          counted = let n = length-insert before x l in let m = r.counted in omega (arith, n, m);
          sorted = insert_ordered-IsOrdered before weak_names x l r.sorted;
          apart = λ k. apart-insert before x l r.apart out k;
        }

  found :
      (x : ℕ) (tree : RbTree) (l : List ℕ) (r : Represents before tree l)
      → find_link key_comp key_of_node (suc tree.length) x tree.store none at_root none
        ≡ ok (above (Place x r.shape), link_of (Place x r.shape), floor before x none l)
  unfolding read_link
  found x tree l r =
      let room : size r.shape < suc tree.length =
        let m = length-order r.shape in
        let q = r.counted ∙ ap length (sym r.in_order) in omega (arith, m, q) in
      let sorted = subst (IsOrdered before) (sym r.in_order) r.sorted in
      find_link-descend key_comp key_of_node x tree.store none r.shape [] none (suc tree.length)
        room r.held
      ∙ ap (λ (c : Option ℕ). ok (above (Place x r.shape), link_of (Place x r.shape), c))
          (last_passed-floor key_comp key_of_node x weak_names r.shape none sorted
            ∙ ap (floor before x none) r.in_order)

  -- In a tree that represents the nodes `l`, with a strict weak order as Compare, InsertEqual of a
  -- node that is not in it returns, and the tree then represents `l` with the node in front of the
  -- first one that goes after it.
  pub insert_equal-Represents :
      (x : ℕ) (tree : RbTree) (l : List ℕ)
      → Represents before tree l
      → count_in x l ≡ 0
      → Returns
          (λ (t : RbTree). Represents before t (insert_ordered before x l))
          (insert_equal key_comp key_of_node x tree)
  unfolding insert_equal
  insert_equal-Represents x tree l r out =
      rw (found x tree l r) (and_then (insert_node-Represents x tree l r out) λ s v. returns v)

  -- what Insert promises: the node is added unless a key is equal
  abbrev pub Outcome : ℕ → RbTree → List ℕ → RbTree × Bool → Type 0
  Outcome x tree l (t, added) =
      (added ≡ not (has_equal before x l))
      × (added ≡ false → t ≡ tree)
      × (added ≡ true → Represents before t (insert_ordered before x l))

  added_one :
      (x : ℕ) (tree : RbTree) (l : List ℕ) (r : Represents before tree l)
      → count_in x l ≡ 0
      → has_equal before x l ≡ false
      → Returns (Outcome x tree l) (
          insert_node
            (suc tree.length)
            x
            (above (Place x r.shape))
            (link_of (Place x r.shape))
            tree.store
          >>= λ s. ok (record { store = s; length = tree.length + 1 }, true))
  added_one x tree l r out h =
      and_then (insert_node-Represents x tree l r out)
        λ s v. returns (rw h refl, λ q. absurd (ground arith), λ q. v)

  -- In a tree that represents the nodes `l`, with a strict weak order as Compare, Insert of a node
  -- that is not in it returns. It returns false exactly when some node of `l` has an equal key,
  -- and the tree is then the same as before; when it returns true, the tree represents `l` with
  -- the node in front of the first one that goes after it: sorted, red-black, and one longer.
  pub insert-Represents :
      (x : ℕ) (tree : RbTree) (l : List ℕ)
      → Represents before tree l
      → count_in x l ≡ 0
      → Returns (Outcome x tree l) (insert key_comp key_of_node x tree)
  unfolding insert
  insert-Represents x tree l r out =
      let e = is_equal-floor before weak_names x l r.sorted in
      rw (found x tree l r) (elim (Option-cases (floor before x none l)) [
        | inl q ↦ rw q (added_one x tree l r out (sym e ∙ ap (is_equal before weak_names x) q))
        | inr (c, q) ↦
            let same = sym e ∙ ap (is_equal before weak_names x) q in
            rw q (
              on_test (not (before c x))
                (λ h. returns (rw (same, h) refl, λ _. refl, λ w. absurd (ground arith)))
                (λ h. added_one x tree l r out (same ∙ h)))
      ])
