-- ===== src/RbTree/Loop.antt =====
-- The insertion's loop turns the tree in the store into the repaired tree.
use mathlib.Core.Path.{subst}
use mzx.Base.{ℕ, zero, suc, refl, Option, none, [], ◌∷◌, arith, ◌∙◌, sym, ap}
use mzx.Run.{returns}
use mzx.RbTree.Store.{Color, red, black, Side, ParentColor, is_red_color, set_parent_color}
use mzx.RbTree.Insert.{insert_loop}
use mzx.RbTree.Shape.{Tree, leaf, node, Context, count_above, IsTree}
use mzx.RbTree.Writes.{paint, set_parent_color-IsTree, set_parent_color-root}
use mzx.RbTree.Repair.{repair}
use mzx.RbTree.Rounds.{insert_round-none, insert_round-black}
use mzx.RbTree.Around.{RootBlack, RootBlack-tail, depth}
use mzx.RbTree.Passes.{Repairs, insert_loop-black, outside, loop_rotate, loop_recolor}

two_up :
    (d : Side) (cf : Color) (p : ℕ) (b : Tree) (e : Side) (c : Color) (g : ℕ) (u : Tree)
    (up : Context)
    → RootBlack (
        record { side = d; color = cf; name = p; sibling = b }
        ∷ record { side = e; color = c; name = g; sibling = u }
        ∷ up)
    → RootBlack up
two_up d cf p b e c g u up h =
    RootBlack-tail (record { side = e; color = c; name = g; sibling = u }) up h

-- two frames
insert_loop-two :
    (d : Side) (cf : Color) (p : ℕ) (b : Tree) (e : Side) (c : Color) (g : ℕ) (u : Tree)
    (up : Context)
    → Repairs up
    → Repairs (
        record { side = d; color = cf; name = p; sibling = b }
        ∷ record { side = e; color = c; name = g; sibling = u }
        ∷ up)
unfolding repair depth
insert_loop-two d black p b e c g u up ih zero l r x s enough top few (around, v) =
    absurd (ground arith)
insert_loop-two d black p b e c g u up ih (suc fuel) l r x s enough top few (around, v) =
    insert_loop-black (record { side = d; color = black; name = p; sibling = b })
      (record { side = e; color = c; name = g; sibling = u } ∷ up) fuel (node red l x r) x s refl
      around v
insert_loop-two d red p b e c g u up ih zero l r x s enough top few (around, v) =
    absurd (ground arith)
insert_loop-two d red p b e c g leaf up ih (suc fuel) l r x s enough top few (around, v) =
    loop_rotate d e c p g x l r b up s leaf fuel few around v (
      insert_round-none e x p g leaf s (ap (λ (pc : ParentColor). pc.parent) around.1) around.3.0
        (outside d e c p g x l r b up s leaf few) around.3.2 around.3.2)
insert_loop-two d red p b e c g (node black ul y ur) up ih (suc fuel) l r x s enough top few
      (around, v) =
    loop_rotate d e c p g x l r b up s (node black ul y ur) fuel few around v (
      insert_round-black e x p g (node black ul y ur) s
        (ap (λ (pc : ParentColor). pc.parent) around.1) around.3.0
        (outside d e c p g x l r b up s (node black ul y ur) few) around.3.2 y around.3.2.0
        (ap (λ (pc : ParentColor). is_red_color pc.color) around.3.2.1))
insert_loop-two d red p b e c g (node red ul y ur) up ih (suc fuel) l r x s enough top few
      (around, v) =
    loop_recolor d e c p g x l r b up s ul ur y fuel ih (ground arith)
      (two_up d red p b e c g (node red ul y ur) up top) few around v

-- Let a store hold a red node with two trees below it, inside a tree `up` whose outermost node is
-- black, with no node twice, and let the fuel be more than the depth of `up`. Then the loop of
-- RBTreeNode::Insert at that node returns, and from the root on the new store holds the repaired
-- tree, with every parent and color as it says.
pub insert_loop-repair : (up : Context) → Repairs up
unfolding insert_loop repair depth count_above set_parent_color paint
insert_loop-repair [] zero l r x s enough top few (around, v) = absurd (ground arith)
insert_loop-repair [] (suc fuel) l r x s enough top few (around, v) =
    let t = set_parent_color x none black s in
    let one =
      set_parent_color-IsTree s none none red black l x r (λ k. let n = few k in ground arith) v in
    returns (
      subst (λ (q : Option ℕ). IsTree t none q (node black l x r))
        (sym (set_parent_color-root s x none black ∙ around)) one)
insert_loop-repair (f ∷ []) zero l r x s enough top few (around, v) = absurd (ground arith)
insert_loop-repair (f ∷ []) (suc fuel) l r x s enough top few (around, v) =
    insert_loop-black f [] fuel (node red l x r) x s (rw top refl) around v
insert_loop-repair (f ∷ g ∷ up) fuel l r x s enough top few held =
    insert_loop-two f.side f.color f.name f.sibling g.side g.color g.name g.sibling up
      (insert_loop-repair up) fuel l r x s enough top few held
