-- ===== src/RbTree/Lookup.antt =====
-- LowerBound, Find and UpperBound on the sequence of the nodes.
use mzx.Base.{
  ℕ, zero, suc, ◌<◌, ◌≡◌, refl, Bool, true, false, not, ◌&&◌, Option, none, some, List, [], ◌∷◌,
  ◌++◌, if◌then◌else◌, arith, ◌∙◌, sym, ap, Bool-cases, inl, inr,
}
use mzx.Order.{IsWeakOrder}
use mzx.Run.{ok}
use mzx.RbTree.Store.{left, right, Store}
use mzx.RbTree.Search.{lower_loop, upper_loop}
use mzx.RbTree.Shape.{Tree, leaf, node, IsTree}
use mzx.RbTree.Inorder.{order}
use mzx.RbTree.Sequence.{IsOrdered, IsAfter, IsOrdered-append}
use mzx.RbTree.Descent.{size, goes_before}

module _ {ℓ} {K : Type ℓ} (key_comp : K → K → Bool) (key_of_node : ℕ → K) where
  -- the first node whose key is not less than `key`, or `d`
  unfoldable pub lower : K → Option ℕ → List ℕ → Option ℕ
  lower key d [] = d
  lower key d (y ∷ l) =
      let rest = lower key d l in if not (key_comp (key_of_node y) key) then some y else rest

  -- the first node whose key is equal
  unfoldable pub equal_to : K → List ℕ → Option ℕ
  equal_to key [] = none
  equal_to key (y ∷ l) =
      let rest = equal_to key l in
      if not (key_comp (key_of_node y) key) && not (key_comp key (key_of_node y))
      then some y
      else rest

  -- the last node before the first one whose key is greater, or `d`
  unfoldable pub upper : K → Option ℕ → List ℕ → Option ℕ
  upper key d [] = d
  upper key d (y ∷ l) =
      let rest = upper key (some y) l in if key_comp key (key_of_node y) then d else rest

  lower-front :
      (key : K) (d : Option ℕ) (a : List ℕ) (y : ℕ) (b : List ℕ)
      → key_comp (key_of_node y) key ≡ false
      → lower key d (a ++ y ∷ b) ≡ lower key (some y) a
  unfolding lower
  lower-front key d [] y b h = rw h refl
  lower-front key d (z ∷ a) y b h = rw (lower-front key d a y b h) refl

  upper-front :
      (key : K) (d : Option ℕ) (a : List ℕ) (y : ℕ) (b : List ℕ)
      → key_comp key (key_of_node y) ≡ true
      → upper key d (a ++ y ∷ b) ≡ upper key d a
  unfolding upper
  upper-front key d [] y b h = rw h refl
  upper-front key d (z ∷ a) y b h = rw (upper-front key (some z) a y b h) refl

  module _ (weak : IsWeakOrder key_comp) where
    abbrev before : ℕ → ℕ → Bool
    before = goes_before key_comp key_of_node

    after_of :
        (z : ℕ) (a : List ℕ) (y : ℕ) (b : List ℕ)
        → IsAfter before z (a ++ y ∷ b)
        → before y z ≡ false
    after_of z [] y b (h, _) = h
    after_of z (w ∷ a) y b (_, h) = after_of z a y b h

    less_front :
        (key : K) (z y : ℕ)
        → before y z ≡ false
        → key_comp (key_of_node y) key ≡ true
        → key_comp (key_of_node z) key ≡ true
    less_front key z y e h =
        let t = weak.trans key (key_of_node z) (key_of_node y) in ground (arith, t, e, h)

    lower-back :
        (key : K) (d : Option ℕ) (a : List ℕ) (y : ℕ) (b : List ℕ)
        → IsOrdered before (a ++ y ∷ b)
        → key_comp (key_of_node y) key ≡ true
        → lower key d (a ++ y ∷ b) ≡ lower key d b
    unfolding lower
    lower-back key d [] y b s h = rw h refl
    lower-back key d (z ∷ a) y b (s, rest) h =
        rw (less_front key z y (after_of z a y b s) h, lower-back key d a y b rest h) refl

    upper-back :
        (key : K) (d : Option ℕ) (a : List ℕ) (y : ℕ) (b : List ℕ)
        → IsOrdered before (a ++ y ∷ b)
        → key_comp key (key_of_node y) ≡ false
        → upper key d (a ++ y ∷ b) ≡ upper key (some y) b
    unfolding upper
    upper-back key d [] y b s h = rw h refl
    upper-back key d (z ∷ a) y b (s, rest) h =
        rw
          (
            weak.trans (key_of_node z) (key_of_node y) key (after_of z a y b s) h,
            upper-back key (some z) a y b rest h,
          )
          refl

    pub lower_loop_lem :
        (s : Store) (key : K) (t : Tree) (parent p d : Option ℕ) (fuel : ℕ)
        → size t < fuel
        → IsTree s parent p t
        → IsOrdered before (order t)
        → lower_loop key_comp key_of_node fuel s key d p ≡ ok (lower key d (order t))
    unfolding lower_loop lower size
    lower_loop_lem s key t parent p d zero enough v o = absurd (ground arith)
    lower_loop_lem s key leaf parent p d (suc fuel) enough v o = rw v refl
    lower_loop_lem s key (node c l y r) parent p d (suc fuel) enough (e, _, a, b) o =
        let (ol, or) = IsOrdered-append before (order l) y (order r) o in
        elim (Bool-cases (key_comp (key_of_node y) key)) [
          | inl h ↦
              rw (e, h)
                (lower_loop_lem s key r (some y) (s.child right y) d fuel (ground arith) b or
                  ∙ ap (λ (q : Option ℕ). ok q) (sym (lower-back key d (order l) y (order r) o h)))
          | inr h ↦
              rw (e, h)
                (lower_loop_lem s key l (some y) (s.child left y) (some y) fuel (ground arith) a ol
                  ∙ ap (λ (q : Option ℕ). ok q) (sym (lower-front key d (order l) y (order r) h)))
        ]

    pub upper_loop_lem :
        (s : Store) (key : K) (t : Tree) (parent p d : Option ℕ) (fuel : ℕ)
        → size t < fuel
        → IsTree s parent p t
        → IsOrdered before (order t)
        → upper_loop key_comp key_of_node fuel s key d p ≡ ok (upper key d (order t))
    unfolding upper_loop upper size
    upper_loop_lem s key t parent p d zero enough v o = absurd (ground arith)
    upper_loop_lem s key leaf parent p d (suc fuel) enough v o = rw v refl
    upper_loop_lem s key (node c l y r) parent p d (suc fuel) enough (e, _, a, b) o =
        let (ol, or) = IsOrdered-append before (order l) y (order r) o in
        elim (Bool-cases (key_comp key (key_of_node y))) [
          | inl h ↦
              rw (e, h)
                (upper_loop_lem s key l (some y) (s.child left y) d fuel (ground arith) a ol
                  ∙ ap (λ (q : Option ℕ). ok q) (sym (upper-front key d (order l) y (order r) h)))
          | inr h ↦
              rw (e, h)
                (upper_loop_lem s key r (some y) (s.child right y) (some y) fuel (ground arith) b or
                  ∙ ap (λ (q : Option ℕ). ok q) (sym (upper-back key d (order l) y (order r) o h)))
        ]
