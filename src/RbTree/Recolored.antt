-- ===== src/RbTree/Recolored.antt =====
-- The colors after an insertion.
use mathlib.Core.Path.{subst}
use mzx.Base.{ℕ, ◌+◌, ◌≡◌, refl, sym, ◌∙◌, ap, Bool, true, false, [], ◌∷◌, if◌then◌else◌, arith}
use mzx.RbTree.Store.{Color, red, black, Side, left, right, other, same_side, is_red_color}
use mzx.RbTree.Shape.{Tree, node, join, Frame, Context, plug}
use mzx.RbTree.Writes.{paint}
use mzx.RbTree.Repair.{pick, red_root, turned, recolored, repair}
use mzx.RbTree.Around.{RootBlack, RootBlack-tail, join-node}
use mzx.RbTree.Balance.{
  IsBalanced, BalancedFrame, BalancedAround, black_join, red_join, red_root-join, plug-IsBalanced,
  paint_black, paint_red, red_root-paint, IsRedBlack,
}

pick-IsBalanced :
    (n : ℕ) (d : Side) (l : Tree) (x : ℕ) (r : Tree)
    → IsBalanced n (node red l x r)
    → IsBalanced n (pick d l r) × (red_root (pick d l r) ≡ false)
pick-IsBalanced n left l x r (p, q, a, b) = (a, p)
pick-IsBalanced n right l x r (p, q, a, b) = (b, q)

on_either : (P : Tree → Type 0) (q : Bool) (a b : Tree) → P a → P b → P (if q then a else b)
on_either P true a b p q = p
on_either P false a b p q = q

turned-IsBalanced :
    (f g : Frame) (n : ℕ) (l : Tree) (x : ℕ) (r : Tree)
    → g.color ≡ black
    → IsBalanced n (node red l x r)
    → IsBalanced n f.sibling × (red_root f.sibling ≡ false)
    → IsBalanced n g.sibling × (red_root g.sibling ≡ false)
    → IsBalanced (n + 1) (turned f g (node red l x r))
      × (red_root (turned f g (node red l x r)) ≡ false)
turned-IsBalanced f g n l x r c v (vf, rf) (vg, rg) =
    let (near, near_black) = pick-IsBalanced n g.side l x r v in
    let (far, far_black) = pick-IsBalanced n (other g.side) l x r v in
    rw
      (
        c,
        paint_black f.sibling rf,
        paint_black (pick g.side l r) near_black,
        paint_black (pick (other g.side) l r) far_black,
      )
      (on_either (λ t. IsBalanced (n + 1) t × (red_root t ≡ false)) (same_side f.side g.side)
        (join g.side black (node red l x r) f.name (join g.side red f.sibling g.name g.sibling))
        (join g.side black (join g.side red f.sibling f.name (pick g.side l r)) x
          (join g.side red (pick (other g.side) l r) g.name g.sibling))
        (
          black_join n g.side (node red l x r) f.name (join g.side red f.sibling g.name g.sibling) v
              (red_join n g.side f.sibling g.name g.sibling vf rf vg rg),
          red_root-join g.side black (node red l x r) f.name
              (join g.side red f.sibling g.name g.sibling),
        )
        (
          black_join n g.side (join g.side red f.sibling f.name (pick g.side l r)) x
              (join g.side red (pick (other g.side) l r) g.name g.sibling)
              (red_join n g.side f.sibling f.name (pick g.side l r) vf rf near near_black)
              (red_join n g.side (pick (other g.side) l r) g.name g.sibling far far_black vg rg),
          red_root-join g.side black (join g.side red f.sibling f.name (pick g.side l r)) x
              (join g.side red (pick (other g.side) l r) g.name g.sibling),
        ))

red_root-plug :
    (f : Frame) (up : Context) (t : Tree) → RootBlack (f ∷ up) → red_root (plug (f ∷ up) t) ≡ false
red_root-plug f [] t top = red_root-join f.side f.color t f.name f.sibling ∙ ap is_red_color top
red_root-plug f (g ∷ up) t top = red_root-plug g up (join f.side f.color t f.name f.sibling) top

-- the tree around one with a black root
plug-IsRedBlack :
    (up : Context) (n : ℕ) (t : Tree)
    → RootBlack up
    → IsBalanced n t × (red_root t ≡ false)
    → BalancedAround up n
    → IsRedBlack (plug up t)
plug-IsRedBlack [] n t top (v, h) b = ((n, v), h)
plug-IsRedBlack (f ∷ up) n t top (v, h) b =
    (plug-IsBalanced (f ∷ up) n t v (rw h refl) b, red_root-plug f up t top)

red_case :
    (e : Side) (c : Color) (g : ℕ) (u : Tree) (up : Context) (n : ℕ)
    → is_red_color c ≡ false
    → BalancedFrame c n u up (BalancedAround up)
    → (c ≡ black) × IsBalanced n u × BalancedAround up (n + 1)
red_case e red g u up n h b = absurd (ground arith)
red_case e black g u up n h (v, b) = (refl, v, b)

-- the repair of a balanced tree below a red or a black node
repair-two :
    (d : Side) (cf : Color) (p : ℕ) (b : Tree) (g : Frame) (up : Context) (n : ℕ) (l : Tree) (x : ℕ)
    (r : Tree)
    → ((m : ℕ) (l : Tree) (x : ℕ) (r : Tree)
        → IsBalanced m (node red l x r)
        → BalancedAround up m
        → IsRedBlack (repair up (node red l x r)))
    → RootBlack (g ∷ up)
    → IsBalanced n (node red l x r)
    → BalancedAround (record { side = d; color = cf; name = p; sibling = b } ∷ g ∷ up) n
    → IsRedBlack
        (repair (record { side = d; color = cf; name = p; sibling = b } ∷ g ∷ up) (node red l x r))
unfolding repair
repair-two d black p b g up n l x r ih top v around = (
  plug-IsBalanced (record { side = d; color = black; name = p; sibling = b } ∷ g ∷ up) n
      (node red l x r) v refl around,
  red_root-plug (record { side = d; color = black; name = p; sibling = b }) (g ∷ up)
      (node red l x r) top,
)
repair-two d red p b g up n l x r ih top v (vb, rb, rg, rest) =
    let (c, vu, outer) = red_case g.side g.color g.name g.sibling up n rg rest in
    by_uncle (red_root g.sibling) refl c vu outer
  where
    by_uncle :
        (q : Bool)
        → red_root g.sibling ≡ q
        → g.color ≡ black
        → IsBalanced n g.sibling
        → BalancedAround up (n + 1)
        → IsRedBlack (
            if q
            then repair up (
                recolored
                  (record { side = d; color = red; name = p; sibling = b })
                  g
                  (node red l x r))
            else plug up (
                turned
                  (record { side = d; color = red; name = p; sibling = b })
                  g
                  (node red l x r)))
    by_uncle true h c vu outer =
        let low = join d black (node red l x r) p b in
        subst (λ t. IsRedBlack (repair up t)) (join-node g.side red low g.name (paint g.sibling))
          (ih (n + 1) (pick g.side low (paint g.sibling)) g.name
            (pick (other g.side) low (paint g.sibling))
            (subst (IsBalanced (n + 1)) (sym (join-node g.side red low g.name (paint g.sibling))) (
              red_join (n + 1) g.side low g.name (paint g.sibling)
                (black_join n d (node red l x r) p b v vb)
                (red_root-join d black (node red l x r) p b) (paint_red n g.sibling h vu)
                (red_root-paint g.sibling)))
            outer)
    by_uncle false h c vu outer =
        plug-IsRedBlack up (n + 1)
          (turned (record { side = d; color = red; name = p; sibling = b }) g (node red l x r))
          (RootBlack-tail g up top)
          (turned-IsBalanced (record { side = d; color = red; name = p; sibling = b }) g n l x r c v
            (vb, rb) (vu, h))
          outer

-- the repaired tree
pub repair-IsRedBlack :
    (up : Context) (n : ℕ) (l : Tree) (x : ℕ) (r : Tree)
    → RootBlack up
    → IsBalanced n (node red l x r)
    → BalancedAround up n
    → IsRedBlack (repair up (node red l x r))
unfolding repair paint
repair-IsRedBlack [] n l x r top (_, _, a, b) around = ((n + 1, (n, refl, a, b)), refl)
repair-IsRedBlack (f ∷ []) n l x r top v around = (
  plug-IsBalanced (f ∷ []) n (node red l x r) v (rw top refl) around,
  red_root-plug f [] (node red l x r) top,
)
repair-IsRedBlack (f ∷ g ∷ up) n l x r top v around =
    repair-two f.side f.color f.name f.sibling g up n l x r
      (λ m l x r. repair-IsRedBlack up m l x r (RootBlack-tail g up top)) top v around
