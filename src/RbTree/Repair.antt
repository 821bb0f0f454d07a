-- ===== src/RbTree/Repair.antt =====
-- What the insertion does to the tree that the store represents.
use mzx.Base.{Bool, false, [], ◌∷◌, if◌then◌else◌}
use mzx.RbTree.Store.{red, black, Side, left, right, other, same_side, is_red_color}
use mzx.RbTree.Shape.{Tree, leaf, node, join, Frame, Context, plug}
use mzx.RbTree.Writes.{paint}

abbrev pub pick : Side → Tree → Tree → Tree
pick left l r = l
pick right l r = r

abbrev pub red_root : Tree → Bool
red_root leaf = false
red_root (node c l x r) = is_red_color c

-- the tree `t` hangs at the red `f`, and this at `g`: what takes the place of `g`
abbrev pub turned : Frame → Frame → Tree → Tree
turned f g leaf = leaf
turned f g (node c l x r) =
    if same_side f.side g.side
    then join g.side g.color (node c l x r) f.name
        (join g.side red (paint f.sibling) g.name g.sibling)
    else join g.side g.color (join g.side red f.sibling f.name (paint (pick g.side l r))) x
        (join g.side red (paint (pick (other g.side) l r)) g.name g.sibling)

-- a red uncle: both become black, and `g` becomes the red tree to go on with
abbrev pub recolored : Frame → Frame → Tree → Tree
recolored f g t = join g.side red (join f.side black t f.name f.sibling) g.name (paint g.sibling)

unfoldable pub repair : Context → Tree → Tree
repair [] t = paint t
repair (f ∷ []) t = plug (f ∷ []) t
repair (f ∷ g ∷ up) t =
    let rest = repair up (recolored f g t) in
    if is_red_color f.color
    then (if red_root g.sibling then rest else plug up (turned f g t))
    else plug (f ∷ g ∷ up) t
