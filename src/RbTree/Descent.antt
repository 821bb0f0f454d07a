-- ===== src/RbTree/Descent.antt =====
-- The search for the place of a new node.
use mathlib.Core.Path.{subst}
use mzx.Base.{
  ℕ, zero, suc, ◌+◌, ◌≤◌, ◌<◌, ◌≡◌, refl, sym, ◌∙◌, ap, Bool, true, false, Option, none, some, [],
  ◌∷◌, ◌++◌, if◌then◌else◌, arith, Bool-cases, inl, inr,
}
use mzx.Order.{IsWeakOrder}
use mzx.Run.{ok}
use mzx.RbTree.Store.{Color, red, black, left, right, Store, is_red_color}
use mzx.RbTree.Insert.{Link, at_root, at_child, read_link, find_link}
use mzx.RbTree.Shape.{Tree, leaf, node, Context, plug, count, count_above, IsTree, IsAround, above}
use mzx.RbTree.Repair.{red_root}
use mzx.RbTree.Around.{depth, RootBlack}
use mzx.RbTree.Balance.{IsBalanced, BalancedAround, red_above}
use mzx.RbTree.Inorder.{order}
use mzx.RbTree.Sequence.{
  IsOrdered, IsOrdered-append, insert_ordered, insert_ordered-front, insert_ordered-back, floor,
  floor-front, floor-back,
}

unfoldable pub size : Tree → ℕ
size leaf = 0
size (node c l x r) = size l + size r + 1

-- the pointer into the hole
abbrev pub link_of : Context → Link
link_of [] = at_root
link_of (f ∷ up) = at_child f.side f.name

-- what the way down keeps of the colors
abbrev Fits : Context → Tree → Type 0
Fits q u =
    (n : ℕ) × (IsBalanced n u × (BalancedAround q n × (red_above q ≡ true → red_root u ≡ false)))

Fits-step :
    (q : Context) (c : Color) (l : Tree) (y : ℕ) (r : Tree)
    → Fits q (node c l y r)
    → Fits (record { side = left; color = c; name = y; sibling = r } ∷ q) l
      × Fits (record { side = right; color = c; name = y; sibling = l } ∷ q) r
Fits-step q red l y r (n, ((rl, rr, a, b), (around, h))) =
    let black_above : red_above q ≡ false = ground (arith, h) in
    (
      (n, (a, ((b, rr, black_above, around), λ e. rl))),
      (n, (b, ((a, rl, black_above, around), λ e. rr))),
    )
Fits-step q black l y r (n, ((m, e, a, b), (around, h))) =
    let outer = subst (BalancedAround q) e around in
    (
      (m, (a, ((b, outer), λ e. absurd (ground arith)))),
      (m, (b, ((a, outer), λ e. absurd (ground arith)))),
    )

abbrev TopBlack : Context → Tree → Type 0
TopBlack [] u = red_root u ≡ false
TopBlack (f ∷ q) u = RootBlack (f ∷ q)

color_of : (c : Color) → is_red_color c ≡ false → c ≡ black
color_of red h = absurd (ground arith)
color_of black h = refl

TopBlack-step :
    (q : Context) (c : Color) (l : Tree) (y : ℕ) (r : Tree)
    → TopBlack q (node c l y r)
    → TopBlack (record { side = left; color = c; name = y; sibling = r } ∷ q) l
      × TopBlack (record { side = right; color = c; name = y; sibling = l } ∷ q) r
TopBlack-step [] c l y r h = (color_of c h, color_of c h)
TopBlack-step (f ∷ q) c l y r h = (h, h)

root_only : (q : Context) → TopBlack q leaf → RootBlack q
root_only [] h = tt
root_only (f ∷ q) h = h

module _ {ℓ} {K : Type ℓ} (key_comp : K → K → Bool) (key_of_node : ℕ → K) where
  abbrev pub goes_before : ℕ → ℕ → Bool
  goes_before a b = key_comp (key_of_node a) (key_of_node b)

  module _ (x : ℕ) where
    -- the nodes around the leaf where `x` belongs
    unfoldable pub descend : Context → Tree → Context
    descend up leaf = up
    descend up (node c l y r) =
        let to_left = descend (record { side = left; color = c; name = y; sibling = r } ∷ up) l in
        let to_right = descend (record { side = right; color = c; name = y; sibling = l } ∷ up) r in
        if goes_before x y then to_left else to_right

    unfoldable pub last_passed : Option ℕ → Tree → Option ℕ
    last_passed c leaf = c
    last_passed c (node _ l y r) =
        let to_left = last_passed c l in
        let to_right = last_passed (some y) r in if goes_before x y then to_left else to_right

    pub find_link-descend :
        (s : Store) (parent : Option ℕ) (t : Tree) (up : Context) (c : Option ℕ) (fuel : ℕ)
        → size t < fuel
        → IsTree s parent (read_link (link_of up) s) t
        → find_link key_comp key_of_node fuel x s (above up) (link_of up) c
          ≡ ok (above (descend up t), link_of (descend up t), last_passed c t)
    unfolding find_link descend last_passed size read_link
    find_link-descend s parent t up c zero enough v = absurd (ground arith)
    find_link-descend s parent leaf up c (suc fuel) enough v = rw (find_link, v) refl
    find_link-descend s parent (node col l y r) up c (suc fuel) enough v =
        elim (Bool-cases (goes_before x y)) [
          | inl h ↦
              rw (find_link, v.0, h)
                (find_link-descend s (some y) l
                  (record { side = left; color = col; name = y; sibling = r } ∷ up) c fuel
                  (ground arith) v.2)
          | inr h ↦
              rw (find_link, v.0, h)
                (find_link-descend s (some y) r
                  (record { side = right; color = col; name = y; sibling = l } ∷ up) (some y) fuel
                  (ground arith) v.3)
        ]

    -- every fact of the tree that is kept on the way down holds around the leaf
    descend-induct :
        (P : Context → Tree → Type 0)
        → ((up : Context) (c : Color) (l : Tree) (y : ℕ) (r : Tree)
            → P up (node c l y r)
            → P (record { side = left; color = c; name = y; sibling = r } ∷ up) l
              × P (record { side = right; color = c; name = y; sibling = l } ∷ up) r)
        → (t : Tree) (up : Context) → P up t
        → P (descend up t) leaf
    unfolding descend
    descend-induct P step leaf up h = h
    descend-induct P step (node c l y r) up h =
        let (a, b) = step up c l y r h in
        elim (Bool-cases (goes_before x y)) [
          | inl e ↦ rw e (
              descend-induct P step l
                (record { side = left; color = c; name = y; sibling = r } ∷ up) a)
          | inr e ↦ rw e (
              descend-induct P step r
                (record { side = right; color = c; name = y; sibling = l } ∷ up) b)
        ]

    pub depth-descend : (t : Tree) → depth (descend [] t) ≤ size t
    unfolding size depth
    depth-descend t =
        let n =
          descend-induct (λ q u. depth q + size u ≤ size t)
            (λ q c l y r h. (ground arith, ground arith)) t [] (ground arith) in
        ground arith

    pub count-descend : (k : ℕ) (t : Tree) → count_above k (descend [] t) ≡ count k t
    unfolding count count_above
    count-descend k t =
        let n =
          descend-induct (λ q u. count_above k q + count k u ≡ count k t)
            (λ q c l y r h. (ground arith, ground arith)) t [] (ground arith) in
        ground arith

    pub IsAround-descend :
        (s : Store) (t : Tree) → IsTree s none s.root t → IsAround s (descend [] t) none
    IsAround-descend s t v =
        let (p, (a, e)) =
          descend-induct (λ q u. (p : Option ℕ) × (IsAround s q p × IsTree s (above q) p u))
            (λ q c l y r (p, (ar, (e, pc, a, b))).
              let hang = subst (IsAround s q) e ar in
              (
                (s.child left y, ((refl, pc, b, hang), a)),
                (s.child right y, ((refl, pc, a, hang), b)),
              ))
            t [] (s.root, (refl, v)) in
        subst (IsAround s (descend [] t)) e a

    pub BalancedAround-descend :
        (t : Tree) → (m : ℕ) × IsBalanced m t → BalancedAround (descend [] t) 0
    BalancedAround-descend t (m, v) =
        let (n, (e, (a, _))) =
          descend-induct Fits Fits-step t [] (m, (v, (tt, λ h. absurd (ground arith)))) in
        subst (BalancedAround (descend [] t)) e a

    pub RootBlack-descend : (t : Tree) → red_root t ≡ false → RootBlack (descend [] t)
    RootBlack-descend t h = root_only (descend [] t) (descend-induct TopBlack TopBlack-step t [] h)

    -- the node at that leaf stands in the place of its key
    pub order-descend :
        (weak : IsWeakOrder goes_before) (t : Tree) (up : Context)
        → IsOrdered goes_before (order t)
        → (w : Tree) × (plug (descend up t) (node red leaf x leaf) ≡ plug up w)
          × (order w ≡ insert_ordered goes_before x (order t))
    unfolding descend insert_ordered
    order-descend weak leaf up s = (node red leaf x leaf, refl, refl)
    order-descend weak (node c l y r) up s =
        let (sl, sr) = IsOrdered-append goes_before (order l) y (order r) s in
        elim (Bool-cases (goes_before x y)) [
          | inl h ↦
              let (w, e, q) =
                order-descend weak l (record { side = left; color = c; name = y; sibling = r } ∷ up)
                  sl in
              rw h (
                node c w y r,
                e,
                ap (λ q. q ++ y ∷ order r) q
                    ∙ sym (insert_ordered-front goes_before x (order l) y (order r) h),
              )
          | inr h ↦
              let (w, e, q) =
                order-descend weak r
                  (record { side = right; color = c; name = y; sibling = l } ∷ up) sr in
              rw h (
                node c l y w,
                e,
                ap (λ q. order l ++ y ∷ q) q
                    ∙ sym (insert_ordered-back goes_before weak x (order l) y (order r) s h),
              )
        ]

    pub last_passed-floor :
        (weak : IsWeakOrder goes_before) (t : Tree) (c : Option ℕ)
        → IsOrdered goes_before (order t)
        → last_passed c t ≡ floor goes_before x c (order t)
    unfolding last_passed floor
    last_passed-floor weak leaf c s = refl
    last_passed-floor weak (node d l y r) c s =
        let (sl, sr) = IsOrdered-append goes_before (order l) y (order r) s in
        elim (Bool-cases (goes_before x y)) [
          | inl h ↦ rw h (
              last_passed-floor weak l c sl
              ∙ sym (floor-front goes_before x c (order l) y (order r) h))
          | inr h ↦ rw h (
              last_passed-floor weak r (some y) sr
              ∙ sym (floor-back goes_before weak x c (order l) y (order r) s h))
        ]
