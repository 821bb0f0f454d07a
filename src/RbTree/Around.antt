-- ===== src/RbTree/Around.antt =====
-- What the insertion's loop asks of the nodes around a hole.
use mzx.Base.{ℕ, ◌+◌, ◌≤◌, ◌≡◌, refl, [], ◌∷◌}
use mzx.RbTree.Store.{Color, black, Side, left, right, other}
use mzx.RbTree.Shape.{Tree, node, join, Frame, Context, count, count_above}
use mzx.RbTree.Repair.{pick}

-- the outermost node around the hole is black
abbrev pub RootBlack : Context → Type 0
RootBlack [] = Unit
RootBlack (f ∷ []) = f.color ≡ black
RootBlack (f ∷ g ∷ up) = RootBlack (g ∷ up)

pub RootBlack-tail : (f : Frame) (up : Context) → RootBlack (f ∷ up) → RootBlack up
RootBlack-tail f [] h = tt
RootBlack-tail f (g ∷ up) h = h

unfoldable pub depth : Context → ℕ
depth [] = 0
depth (f ∷ up) = depth up + 1

abbrev pub Unique : Context → Tree → Type 0
Unique up t = (k : ℕ) → count_above k up + count k t ≤ 1

pub join-node :
    (d : Side) (c : Color) (a : Tree) (x : ℕ) (b : Tree)
    → node c (pick d a b) x (pick (other d) a b) ≡ join d c a x b
join-node left c a x b = refl
join-node right c a x b = refl
