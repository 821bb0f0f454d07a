-- ===== src/RbTree/Visit.antt =====
-- The tree's iteration on the sequence of its nodes: Begin and RBegin are its ends, Next and Prev
-- the neighbours.
use mathlib.Core.List.{append_assoc, append-nil}
use mathlib.Core.Path.{subst}
use mzx.Base.{
  ℕ, suc, ◌+◌, ◌≤◌, ◌<◌, ◌≡◌, refl, Bool, Option, none, some, List, [], ◌∷◌, ◌++◌, ◌==◌,
  if◌then◌else◌, arith, ◌∙◌, sym, ap, Bool-cases, inl, inr,
}
use mzx.Array.{length}
use mzx.Run.{ok, ◌>>=◌}
use mzx.RbTree.Store.{Color, Side, left, right, other, Store}
use mzx.RbTree.Insert.{RbTree}
use mzx.RbTree.Search.{outermost, begin, step}
use mzx.RbTree.Shape.{
  Tree, leaf, node, Context, plug, count, count_above, count-plug, IsTree, IsAround, above,
}
use mzx.RbTree.Repair.{pick}
use mzx.RbTree.Around.{depth}
use mzx.RbTree.Inorder.{order}
use mzx.RbTree.Descent.{size}
use mzx.RbTree.Steps.{walk, walk-node, walk-plug, after, ahead, head, outermost_lem, step_lem}
use mzx.RbTree.Refines.{Represents, count_in, count_in-append, count_in-order, length-order}

-- the place of a node of the tree
locate :
    (s : Store) (t : Tree) (up : Context) (p : Option ℕ) (x : ℕ)
    → 0 < count x t
    → IsAround s up p
    → IsTree s (above up) p t
    → (q : Context) × (c : Color) × (l : Tree) × (r : Tree) × (plug q (node c l x r) ≡ plug up t)
      × (depth q + size (node c l x r) ≤ depth up + size t)
      × IsAround s q (some x)
      × IsTree s (above q) (some x) (node c l x r)
unfolding count depth size
locate s leaf up p x some_x around v = absurd (ground arith)
locate s (node c l y r) up p x some_x around (e, pc, a, b) =
    let hang = subst (IsAround s up) e around in
    elim (Bool-cases (x == y)) [
      | inl h ↦
          let same : y ≡ x = ground arith in
          subst
            (λ z.
              (q : Context) × (d : Color) × (l' : Tree) × (r' : Tree) × (plug q (node d l' z r')
                ≡ plug up (node c l y r))
              × (depth q + size (node d l' z r') ≤ depth up + size (node c l y r))
              × IsAround s q (some z)
              × IsTree s (above q) (some z) (node d l' z r'))
            same (up, c, l, r, refl, ground arith, hang, (refl, pc, a, b))
      | inr h ↦ elim (Bool-cases (count x l == 0)) [
        | inl z ↦
            let (q, d, l', r', e', small, ar, w) =
              locate s r (record { side = right; color = c; name = y; sibling = l } ∷ up)
                (s.child right y) x (ground arith) (refl, pc, a, hang) b in
            (q, d, l', r', e', ground arith, ar, w)
        | inr z ↦
            let (q, d, l', r', e', small, ar, w) =
              locate s l (record { side = left; color = c; name = y; sibling = r } ∷ up)
                (s.child left y) x (ground arith) (refl, pc, b, hang) a in
            (q, d, l', r', e', ground arith, ar, w)
      ]
    ]

-- the element that follows `x`
abbrev pub next_of : ℕ → List ℕ → Option ℕ
next_of x [] = none
next_of x (y ∷ l) = if x == y then head l else next_of x l

next_of-append : (x : ℕ) (a b : List ℕ) → count_in x a ≡ 0 → next_of x (a ++ x ∷ b) ≡ head b
next_of-append x [] b z = ground arith
next_of-append x (y ∷ a) b z = ground (arith, next_of-append x a b)

abbrev backward : List ℕ → List ℕ
backward [] = []
backward (x ∷ l) = backward l ++ x ∷ []

-- the sequence in the direction `d`
abbrev pub facing : Side → List ℕ → List ℕ
facing right l = l
facing left l = backward l

backward-append : (a b : List ℕ) → backward (a ++ b) ≡ backward b ++ backward a
backward-append [] b = sym (append-nil (backward b))
backward-append (x ∷ a) b =
    ap (λ l. l ++ x ∷ []) (backward-append a b) ∙ append_assoc (backward b) (backward a) (x ∷ [])

walk-facing : (d : Side) (t : Tree) → walk d t ≡ facing d (order t)
walk-facing right t = refl
walk-facing left leaf = refl
walk-facing left (node c l x r) =
    rw (backward-append (order l) (x ∷ order r), walk-facing left l, walk-facing left r)
      (simp append_assoc refl)

count_in-facing : (k : ℕ) (d : Side) (l : List ℕ) → count_in k (facing d l) ≡ count_in k l
count_in-facing k right l = refl
count_in-facing k left [] = refl
count_in-facing k left (x ∷ l) =
    ground (arith, count_in-append k (backward l) (x ∷ []), count_in-facing k left l)

begin_at :
    (d : Side) (s : Store) (t : Tree) (fuel : ℕ) (p : Option ℕ)
    → size t < fuel
    → IsTree s none p t
    → (elim p [ none ↦ ok none | some x ↦ outermost fuel d s x >>= λ y. ok (some y) ])
      ≡ ok (head (walk (other d) t))
begin_at left s leaf fuel p enough v = rw v refl
begin_at right s leaf fuel p enough v = rw v refl
begin_at d s (node c l x r) fuel p enough v =
    let (y, rest, e, q) = outermost_lem d s none c l x r fuel enough (refl, v.1, v.2, v.3) in
    rw (v.0, q, e) refl

begin_lem :
    (d : Side) (s : Store) (t : Tree) (fuel : ℕ)
    → size t < fuel
    → IsTree s none s.root t
    → begin fuel d s ≡ ok (head (walk (other d) t))
unfolding begin
begin_lem d s t fuel enough v = begin_at d s t fuel s.root enough v

module _ (less : ℕ → ℕ → Bool) (tree : RbTree) (l : List ℕ) (rep : Represents less tree l) where
  names : (k : ℕ) → count k rep.shape ≡ count_in k l
  names k = sym (count_in-order k rep.shape) ∙ ap (count_in k) rep.in_order

  room : size rep.shape ≡ tree.length
  room =
      let n = length-order rep.shape in
      let m = rep.counted in let q = ap length rep.in_order in omega (arith, n, m, q)

  facing-shape : (d : Side) → walk d rep.shape ≡ facing d l
  facing-shape d = walk-facing d rep.shape ∙ ap (facing d) rep.in_order

  -- the sequence around a node
  next_at :
      (d : Side) (q : Context) (c : Color) (a : Tree) (x : ℕ) (b : Tree)
      → plug q (node c a x b) ≡ rep.shape
      → next_of x (facing d l) ≡ head (walk d (pick d a b) ++ after d q)
  next_at d q c a x b e =
      let front = ahead d q ++ walk d (pick (other d) a b) in
      let back = walk d (pick d a b) ++ after d q in
      let whole : facing d l ≡ front ++ x ∷ back =
        sym (facing-shape d)
        ∙ (ap (walk d) (sym e)
            ∙ (walk-plug d q (node c a x b)
                ∙ (rw (walk-node d c a x b) (simp append_assoc refl)))) in
      let few : count_in x (front ++ x ∷ back) ≤ 1 =
        subst (λ w. count_in x w ≤ 1) whole (rw (count_in-facing x d l) (rep.apart x)) in
      ap (next_of x) whole
      ∙ next_of-append x front back (let n = count_in-append x front (x ∷ back) in ground arith)

  -- In a tree that represents the nodes `l`, Next of each node returns the node after it in `l`,
  -- and Prev the node after it in the reverse of `l`, or nullptr where there is none.
  pub step-Represents :
      (d : Side) (x : ℕ)
      → 0 < count_in x l
      → step (suc tree.length) d tree.store x ≡ ok (next_of x (facing d l))
  unfolding count_above depth
  step-Represents d x inside =
      let (q, c, a, b, e, small, around, v) =
        locate tree.store rep.shape [] tree.store.root x (rw (names x) inside) refl rep.held in
      step_lem d tree.store q c a x b (suc tree.length) (let n = room in omega (arith, n, small))
        (λ k.
          let n = count-plug k q (node c a x b) in
          let m = ap (count k) e in
          let f = names k in let one = rep.apart k in omega (arith, n, m, f, one))
        around v
      ∙ ap (λ (o : Option ℕ). ok o) (sym (next_at d q c a x b e))

  -- In a tree that represents the nodes `l`, Begin returns the first node of `l` and RBegin the
  -- first node of the reverse of `l`, or nullptr for no nodes.
  pub begin-Represents :
      (d : Side) → begin (suc tree.length) d tree.store ≡ ok (head (facing (other d) l))
  begin-Represents d =
      begin_lem d tree.store rep.shape (suc tree.length) (let n = room in omega (arith, n)) rep.held
      ∙ ap (λ (w : List ℕ). ok (head w)) (facing-shape (other d))
