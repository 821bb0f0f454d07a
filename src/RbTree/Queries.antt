-- ===== src/RbTree/Queries.antt =====
-- What LowerBound, Find and UpperBound return for a tree.
use mathlib.Core.Path.{subst}
use mzx.Base.{
  ℕ, suc, ◌≤◌, ◌<◌, ◌≡◌, refl, Bool, true, false, not, Option, none, some, List, [], ◌∷◌,
  if◌then◌else◌, arith, ◌∙◌, sym, ap, Bool-cases, inl, inr,
}
use mzx.Array.{length}
use mzx.Order.{IsWeakOrder}
use mzx.Run.{ok}
use mzx.RbTree.Store.{right}
use mzx.RbTree.Insert.{RbTree}
use mzx.RbTree.Search.{lower_loop, lower_bound, find, upper_loop, upper_bound, step}
use mzx.RbTree.Inorder.{order}
use mzx.RbTree.Sequence.{IsOrdered, IsAfter}
use mzx.RbTree.Descent.{size, goes_before}
use mzx.RbTree.Refines.{Represents, count_in, length-order}
use mzx.RbTree.Visit.{next_of, step-Represents}
use mzx.RbTree.Lookup.{lower, equal_to, upper, lower_loop_lem, upper_loop_lem}

next_skip :
    (w y : ℕ) (l : List ℕ)
    → count_in w (y ∷ l) ≤ 1
    → 0 < count_in w l
    → next_of w (y ∷ l) ≡ next_of w l
next_skip w y l one some_w = ground arith

module _ {ℓ} {K : Type ℓ} (key_comp : K → K → Bool) (key_of_node : ℕ → K) where
  -- the first node whose key is greater
  unfoldable pub greater : K → List ℕ → Option ℕ
  greater key [] = none
  greater key (y ∷ l) =
      let rest = greater key l in if key_comp key (key_of_node y) then some y else rest

  -- the first node whose key is greater, but nothing if this is the first of all nodes
  abbrev pub greater_inside : K → List ℕ → Option ℕ
  greater_inside key [] = none
  greater_inside key (y ∷ l) = if key_comp key (key_of_node y) then none else greater key l

  abbrev not_greater : K → Option ℕ → Option ℕ
  not_greater key none = none
  not_greater key (some x) = if not (key_comp key (key_of_node x)) then some x else none

  module _ (weak : IsWeakOrder key_comp) where
    abbrev before : ℕ → ℕ → Bool
    before = goes_before key_comp key_of_node

    none_equal :
        (key : K) (y : ℕ) (l : List ℕ)
        → IsAfter before y l
        → key_comp key (key_of_node y) ≡ true
        → equal_to key_comp key_of_node key l ≡ none
    unfolding equal_to
    none_equal key y [] a h = refl
    none_equal key y (z ∷ l) (e, a) h =
        let later : key_comp key (key_of_node z) ≡ true =
          let t = weak.trans (key_of_node y) (key_of_node z) key in ground (arith, t, e, h) in
        rw (later, none_equal key y l a h) (ground arith)

    lower-equal_to :
        (key : K) (l : List ℕ)
        → IsOrdered before l
        → not_greater key (lower key_comp key_of_node key none l)
          ≡ equal_to key_comp key_of_node key l
    unfolding lower equal_to
    lower-equal_to key [] o = refl
    lower-equal_to key (y ∷ l) (a, o) = elim (Bool-cases (key_comp (key_of_node y) key)) [
      | inl h ↦ rw h (lower-equal_to key l o)
      | inr h ↦ elim (Bool-cases (key_comp key (key_of_node y))) [
        | inl g ↦ rw (h, g, none_equal key y l a g) refl
        | inr g ↦ rw (h, g) refl
      ]
    ]

    -- the last node that is not greater, and the one that follows it
    upper-greater :
        (key : K) (y : ℕ) (l : List ℕ)
        → ((k : ℕ) → count_in k (y ∷ l) ≤ 1)
        → key_comp key (key_of_node y) ≡ false
        → (w : ℕ) × (upper key_comp key_of_node key (some y) l ≡ some w)
          × (next_of w (y ∷ l) ≡ greater key l)
          × (0 < count_in w (y ∷ l))
          × (key_comp key (key_of_node w) ≡ false)
    unfolding upper greater
    upper-greater key y [] one h = (y, refl, ground arith, ground arith, h)
    upper-greater key y (z ∷ l) one h = elim (Bool-cases (key_comp key (key_of_node z))) [
      | inl g ↦ rw g (y, refl, ground arith, ground arith, h)
      | inr g ↦
          let (w, e, n, some_w, q) =
            upper-greater key z l (λ k. let m = one k in omega (arith, m)) g in
          rw g (w, e, next_skip w y (z ∷ l) (one w) some_w ∙ n, ground arith, q)
    ]

    module _ (tree : RbTree) (l : List ℕ) (rep : Represents before tree l) where
      room : size rep.shape < suc tree.length
      room =
          let n = length-order rep.shape in
          let m = rep.counted in let q = ap length rep.in_order in omega (arith, n, m, q)

      sorted : IsOrdered before (order rep.shape)
      sorted = rw rep.in_order rep.sorted

      lowest :
          (key : K)
          → lower_loop key_comp key_of_node (suc tree.length) tree.store key none tree.store.root
            ≡ ok (lower key_comp key_of_node key none l)
      lowest key =
          lower_loop_lem key_comp key_of_node weak tree.store key rep.shape none tree.store.root
            none (suc tree.length) room rep.held sorted
          ∙ ap (λ (q : List ℕ). ok (lower key_comp key_of_node key none q)) rep.in_order

      -- In a tree that represents the nodes `l`, with a strict weak order as Compare, LowerBound
      -- returns the first node of `l` whose key is not less than the given one, or nullptr.
      pub lower_bound-Represents :
          (key : K)
          → lower_bound key_comp key_of_node (suc tree.length) tree.store key
            ≡ ok (lower key_comp key_of_node key none l)
      unfolding lower_bound
      lower_bound-Represents key = lowest key

      -- In a tree that represents the nodes `l`, with a strict weak order as Compare, Find returns
      -- the first node of `l` with an equal key, or nullptr.
      pub find-Represents :
          (key : K)
          → find key_comp key_of_node (suc tree.length) tree.store key
            ≡ ok (equal_to key_comp key_of_node key l)
      unfolding find
      find-Represents key =
          rw (lowest key) (ap (λ (q : Option ℕ). ok q) (lower-equal_to key l rep.sorted))

      highest :
          (key : K)
          → upper_loop key_comp key_of_node (suc tree.length) tree.store key none tree.store.root
            ≡ ok (upper key_comp key_of_node key none l)
      highest key =
          upper_loop_lem key_comp key_of_node weak tree.store key rep.shape none tree.store.root
            none (suc tree.length) room rep.held sorted
          ∙ ap (λ (q : List ℕ). ok (upper key_comp key_of_node key none q)) rep.in_order

      -- what follows the loop of UpperBound
      upper_end :
          (key : K) (m : List ℕ)
          → m ≡ l
          → (elim (upper key_comp key_of_node key none m) [
            | none ↦ ok none
            | some x ↦
                if key_comp key (key_of_node x)
                then ok (some x)
                else step (suc tree.length) right tree.store x
          ])
            ≡ ok (greater_inside key m)
      unfolding upper
      upper_end key [] e = refl
      upper_end key (y ∷ m) e = elim (Bool-cases (key_comp key (key_of_node y))) [
        | inl h ↦ rw h refl
        | inr h ↦
            let (w, q, n, some_w, last) =
              upper-greater key y m (λ k. subst (λ v. count_in k v ≤ 1) (sym e) (rep.apart k)) h in
            rw (h, q, last)
              (step-Represents before tree l rep right w (subst (λ v. 0 < count_in w v) e some_w)
                ∙ ap (λ (o : Option ℕ). ok o) (ap (next_of w) (sym e) ∙ n))
      ]

      -- In a tree that represents the nodes `l`, with a strict weak order as Compare, UpperBound
      -- returns the first node of `l` whose key is greater, but nullptr where this is the first
      -- node of `l`.
      pub upper_bound-Represents :
          (key : K)
          → upper_bound key_comp key_of_node (suc tree.length) tree.store key
            ≡ ok (greater_inside key l)
      unfolding upper_bound
      upper_bound-Represents key = rw (highest key) (upper_end key l refl)
