-- ===== src/RbTree/Rotate.antt =====
-- The rotations of the insertion, on the tree around the new node.
use mathlib.Core.Path.{subst}
use mzx.Base.{
  ℕ, ◌+◌, ◌≤◌, ◌<◌, ◌≡◌, ◌≢◌, refl, true, false, Option, some, ◌==◌, if◌then◌else◌, arith, ◌∙◌, inl,
  inr, sym, ◌⊎◌,
}
use mzx.RbTree.Store.{Color, red, Side, left, right, other, same, Store}
use mzx.RbTree.Insert.{turn_inner, rotate}
use mzx.RbTree.Shape.{
  Tree, leaf, node, join, Context, count, count-join, count_above, IsTree, IsAround, IsTree-cong,
  IsAround-cong, Agree, above,
}
use mzx.RbTree.Writes.{paint, count-paint}
use mzx.RbTree.TurnInner.{turn_inner-Agree, turn_inner-IsTree, turn_inner-child, turn_inner-root}
use mzx.RbTree.TurnOuter.{turn_outer_lem}
use mzx.RbTree.Repair.{pick, turned}

-- a pointer to a tree that does not hold `x` is not `x`
pub not_root :
    (s : Store) (parent p : Option ℕ) (t : Tree) (x : ℕ)
    → IsTree s parent p t
    → count x t ≡ 0
    → same (some x) p ≡ false
unfolding count
not_root s parent p leaf x v z = rw v
not_root s parent p (node c l y r) x (e, _, _, _) z = rw e (ground arith)

-- the names of the two nodes and of the trees are all different
abbrev pub Apart : ℕ → ℕ → ℕ → Tree → Tree → Tree → Tree → Context → Type 0
Apart x p g l r b u up =
    (k : ℕ)
    → (if k == x then 1 else 0)
        + ((if k == p then 1 else 0)
            + ((if k == g then 1 else 0)
                + (count k l + (count k r + (count k b + (count k u + count_above k up))))))
      ≤ 1

-- the new state is around the tree
abbrev pub Holds : Store → Context → ℕ → Tree → Type 0
Holds s up x t = IsAround s up (some x) × IsTree s (above up) (some x) t

rotate-outer :
    (d : Side) (c : Color) (p g x : ℕ) (l r b u : Tree) (up : Context) (s : Store)
    → Apart x p g l r b u up
    → IsAround s up (some g)
    → s.parent_color g ≡ record { parent = above up; color = c }
    → IsTree s (some p) (s.child d p) (node red l x r)
    → IsTree s (some p) (s.child (other d) p) b
    → IsTree s (some g) (s.child (other d) g) u
    → Holds (rotate d x p g s) up p (join d c (node red l x r) p (join d red (paint b) g u))
unfolding rotate count
rotate-outer d c p g x l r b u up s apart around at_g tn tb tu =
    let few = apart x in
    rw (not_root s (some p) (s.child (other d) p) b x tb (ground arith)) (
      turn_outer_lem d p g (s.child (other d) p) (some p) s up c (node red l x r) b u
        (λ k. omega (arith, apart k)) around at_g tn tb tu)

pick-IsTree :
    (s : Store) (d : Side) (parent p : Option ℕ) (c : Color) (l : Tree) (x : ℕ) (r : Tree)
    → IsTree s parent p (node c l x r)
    → IsTree s (some x) (s.child d x) (pick d l r)
pick-IsTree s left parent p c l x r (_, _, a, b) = a
pick-IsTree s right parent p c l x r (_, _, a, b) = b

count-pick :
    (k : ℕ) (d : Side) (l r : Tree)
    → count k (pick d l r) + count k (pick (other d) l r) ≡ count k l + count k r
count-pick k left l r = refl
count-pick k right l r = omega arith

rotate-inner :
    (d : Side) (c : Color) (p g x : ℕ) (l r b u : Tree) (up : Context) (s : Store)
    → Apart x p g l r b u up
    → IsAround s up (some g)
    → s.parent_color g ≡ record { parent = above up; color = c }
    → IsTree s (some p) (s.child (other d) p) (node red l x r)
    → IsTree s (some p) (s.child d p) b
    → IsTree s (some g) (s.child (other d) g) u
    → Holds (rotate d x p g s) up x (
        join d c
          (join d red b p (paint (pick d l r)))
          x
          (join d red (paint (pick (other d) l r)) g u))
unfolding rotate
rotate-inner d c p g x l r b u up s apart around at_g tn tb tu =
    let near = pick d l r in
    let far = pick (other d) l r in
    let sum = λ (k : ℕ). count-pick k d l r in
    let ta = pick-IsTree s d (some p) (s.child (other d) p) red l x r tn in
    let tf = pick-IsTree s (other d) (some p) (s.child (other d) p) red l x r tn in
    let t = turn_inner d x p s in
    let unique : (k : ℕ)
        → (if k == x then 1 else 0) + ((if k == p then 1 else 0) + (count k near + count k b)) ≤ 1 =
      λ k. omega (arith, apart k, sum k) in
    let keep : (k : ℕ) → k ≢ x → k ≢ p → count k near ≡ 0 → Agree s t k =
      turn_inner-Agree d x p s near b unique ta tb in
    let free : (k : ℕ)
        → (0 < count k far) ⊎ ((0 < count k u) ⊎ ((0 < count_above k up) ⊎ (k ≡ g)))
        → Agree s t k =
      λ k h.
        keep k (λ e. apart_x k (apart k) (sum k) h e) (λ e. apart_p k (apart k) (sum k) h e)
          (apart_near k (apart k) (sum k) h) in
    let hit : same (some x) (s.child (other d) p) ≡ true = rw tn.0 (ground arith) in
    rw hit (
      turn_outer_lem d x g (t.child (other d) x) (some x) t up c (join d red b p (paint near)) far u
        (λ k.
          omega (arith, apart k, sum k, count-join k d red b p (paint near), count-paint k near))
        (IsAround-cong s t up (some g) (λ k h. free k (inr (inr (inl h)))) (turn_inner-root d x p s)
          around)
        ((free g (inr (inr (inr refl)))).0 ∙ at_g) (turn_inner-IsTree d x p s near b unique ta tb)
        (subst (λ q. IsTree t (some x) q far) (sym (turn_inner-child d x p s near b unique ta tb))
          (IsTree-cong s t (some x) (s.child (other d) x) far (λ k h. free k (inl h)) tf))
        (subst (λ q. IsTree t (some g) q u) (sym ((free g (inr (inr (inr refl)))).1 (other d)))
          (IsTree-cong s t (some g) (s.child (other d) g) u (λ k h. free k (inr (inl h))) tu)))
  where
    Bound : ℕ → Type 0
    Bound k =
        (if k == x then 1 else 0)
          + ((if k == p then 1 else 0)
              + ((if k == g then 1 else 0)
                  + (count k l + (count k r + (count k b + (count k u + count_above k up))))))
        ≤ 1

    Held : ℕ → Type 0
    Held k =
        (0 < count k (pick (other d) l r)) ⊎ ((0 < count k u) ⊎ ((0 < count_above k up) ⊎ (k ≡ g)))

    Sum : ℕ → Type 0
    Sum k = count k (pick d l r) + count k (pick (other d) l r) ≡ count k l + count k r

    apart_x : (k : ℕ) → Bound k → Sum k → Held k → k ≢ x
    apart_x k few sum h e = absurd (ground arith)

    apart_p : (k : ℕ) → Bound k → Sum k → Held k → k ≢ p
    apart_p k few sum h e = absurd (ground arith)

    apart_near : (k : ℕ) → Bound k → Sum k → Held k → count k (pick d l r) ≡ 0
    apart_near k few sum h = ground arith

-- both rotations, with `p` on the side `e` of `g` and the new node on the side `d` of `p`
pub rotate_lem :
    (d e : Side) (c : Color) (p g x : ℕ) (l r b u : Tree) (up : Context) (s : Store)
    → Apart x p g l r b u up
    → IsAround s up (some g)
    → s.parent_color g ≡ record { parent = above up; color = c }
    → IsTree s (some p) (s.child d p) (node red l x r)
    → IsTree s (some p) (s.child (other d) p) b
    → IsTree s (some g) (s.child (other e) g) u
    → (n : ℕ) × Holds (rotate e x p g s) up n (
        turned
          (record { side = d; color = red; name = p; sibling = b })
          (record { side = e; color = c; name = g; sibling = u })
          (node red l x r))
rotate_lem left left c p g x l r b u up s a around at_g tn tb tu =
    (p, rotate-outer left c p g x l r b u up s a around at_g tn tb tu)
rotate_lem right right c p g x l r b u up s a around at_g tn tb tu =
    (p, rotate-outer right c p g x l r b u up s a around at_g tn tb tu)
rotate_lem right left c p g x l r b u up s a around at_g tn tb tu =
    (x, rotate-inner left c p g x l r b u up s a around at_g tn tb tu)
rotate_lem left right c p g x l r b u up s a around at_g tn tb tu =
    (x, rotate-inner right c p g x l r b u up s a around at_g tn tb tu)
