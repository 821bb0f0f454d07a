-- ===== src/RbTree/Balance.antt =====
-- The colors of a tree: no red node has a red child, and every path to a leaf meets the same number
-- of black nodes.
use mzx.Base.{ℕ, ◌+◌, ◌≡◌, refl, ◌∙◌, ap, Bool, true, false, ◌&&◌, [], ◌∷◌, arith}
use mzx.RbTree.Store.{Color, red, black, Side, left, right, is_red_color}
use mzx.RbTree.Shape.{Tree, leaf, node, join, Context, plug}
use mzx.RbTree.Writes.{paint}
use mzx.RbTree.Repair.{red_root}

-- every path to a leaf meets `n` black nodes
abbrev pub IsBalanced : ℕ → Tree → Type 0
IsBalanced n leaf = n ≡ 0
IsBalanced n (node red l x r) =
    (red_root l ≡ false) × (red_root r ≡ false) × IsBalanced n l × IsBalanced n r
IsBalanced n (node black l x r) = (m : ℕ) × (n ≡ m + 1) × IsBalanced m l × IsBalanced m r

abbrev pub red_above : Context → Bool
red_above [] = false
red_above (f ∷ up) = is_red_color f.color

-- the nodes around a hole for a tree whose paths meet `n` black nodes
abbrev pub BalancedFrame : Color → ℕ → Tree → Context → (ℕ → Type 0) → Type 0
BalancedFrame red n sib up rest =
    IsBalanced n sib × (red_root sib ≡ false) × (red_above up ≡ false) × rest n
BalancedFrame black n sib up rest = IsBalanced n sib × rest (n + 1)

abbrev pub BalancedAround : Context → ℕ → Type 0
BalancedAround [] n = Unit
BalancedAround (f ∷ up) n = BalancedFrame f.color n f.sibling up (BalancedAround up)

pub black_join :
    (n : ℕ) (d : Side) (a : Tree) (x : ℕ) (b : Tree)
    → IsBalanced n a
    → IsBalanced n b
    → IsBalanced (n + 1) (join d black a x b)
black_join n left a x b p q = (n, refl, p, q)
black_join n right a x b p q = (n, refl, q, p)

pub red_join :
    (n : ℕ) (d : Side) (a : Tree) (x : ℕ) (b : Tree)
    → IsBalanced n a
    → red_root a ≡ false
    → IsBalanced n b
    → red_root b ≡ false
    → IsBalanced n (join d red a x b)
red_join n left a x b p rp q rq = (rp, rq, p, q)
red_join n right a x b p rp q rq = (rq, rp, q, p)

pub red_root-join :
    (d : Side) (c : Color) (a : Tree) (x : ℕ) (b : Tree)
    → red_root (join d c a x b) ≡ is_red_color c
red_root-join left c a x b = refl
red_root-join right c a x b = refl

-- a tree with a black root, or one below a black node
plug-join :
    (d : Side) (c : Color) (x : ℕ) (sib : Tree) (up : Context) (n : ℕ) (t : Tree)
    → IsBalanced n t
    → red_root t && is_red_color c ≡ false
    → BalancedFrame c n sib up (BalancedAround up)
    → (m : ℕ) × IsBalanced m (join d c t x sib)
      × BalancedAround up m
      × (is_red_color c && red_above up ≡ false)
plug-join d red x sib up n t v h (p, rp, ra, rest) =
    (n, red_join n d t x sib v (ground (arith, h)) p rp, rest, ra)
plug-join d black x sib up n t v h (p, rest) = (n + 1, black_join n d t x sib v p, rest, refl)

-- the whole tree around a balanced one
pub plug-IsBalanced :
    (up : Context) (n : ℕ) (t : Tree)
    → IsBalanced n t
    → red_root t && red_above up ≡ false
    → BalancedAround up n
    → (m : ℕ) × IsBalanced m (plug up t)
plug-IsBalanced [] n t v h b = (n, v)
plug-IsBalanced (f ∷ up) n t v h b =
    let (m, w, rest, above) = plug-join f.side f.color f.name f.sibling up n t v h b in
    plug-IsBalanced up m (join f.side f.color t f.name f.sibling) w
      (ap (λ q. q && red_above up) (red_root-join f.side f.color t f.name f.sibling) ∙ above) rest

pub paint_black : (t : Tree) → red_root t ≡ false → paint t ≡ t
unfolding paint
paint_black leaf h = refl
paint_black (node black l x r) h = refl
paint_black (node red l x r) h = absurd (ground arith)

pub paint_red :
    (n : ℕ) (t : Tree) → red_root t ≡ true → IsBalanced n t → IsBalanced (n + 1) (paint t)
unfolding paint
paint_red n leaf h v = absurd (ground arith)
paint_red n (node black l x r) h v = absurd (ground arith)
paint_red n (node red l x r) h (_, _, a, b) = (n, refl, a, b)

pub red_root-paint : (t : Tree) → red_root (paint t) ≡ false
unfolding paint
red_root-paint leaf = refl
red_root-paint (node c l x r) = refl

-- the whole tree is balanced, with a black root
abbrev pub IsRedBlack : Tree → Type 0
IsRedBlack t = ((m : ℕ) × IsBalanced m t) × (red_root t ≡ false)
