-- ===== src/RbTree/Steps.antt =====
-- Begin, RBegin, Next and Prev go through the nodes in order.
use mathlib.Core.List.{append_assoc, append-nil}
use mzx.Base.{
  ℕ, zero, suc, ◌+◌, ◌≤◌, ◌<◌, ◌≡◌, refl, true, false, Option, none, some, List, [], ◌∷◌, ◌++◌,
  ◌==◌, if◌then◌else◌, arith, ◌∙◌, sym, ap,
}
use mzx.Run.{Run, ok, ◌>>=◌}
use mzx.RbTree.Store.{
  Color, Side, left, right, other, Store, ParentColor, parent_of, same, is_linked,
}
use mzx.RbTree.Search.{outermost, climb, step}
use mzx.RbTree.Shape.{
  Tree, leaf, node, join, Context, plug, count, count_above, IsTree, IsAround, above,
}
use mzx.RbTree.Repair.{pick}
use mzx.RbTree.Rotate.{not_root}
use mzx.RbTree.Around.{depth, Unique}
use mzx.RbTree.Inorder.{order}
use mzx.RbTree.Descent.{size}

-- the nodes in the direction `d`
abbrev pub walk : Side → Tree → List ℕ
walk right t = order t
walk left leaf = []
walk left (node c l x r) = walk left r ++ x ∷ walk left l

pub walk-node :
    (d : Side) (c : Color) (l : Tree) (x : ℕ) (r : Tree)
    → walk d (node c l x r) ≡ walk d (pick (other d) l r) ++ x ∷ walk d (pick d l r)
walk-node left c l x r = refl
walk-node right c l x r = refl

-- the nodes around the hole that come after it and before it
abbrev pub after : Side → Context → List ℕ
after d [] = []
after left (f ∷ up) = elim f.side [
  | left ↦ after left up
  | right ↦ f.name ∷ walk left f.sibling ++ after left up
]
after right (f ∷ up) = elim f.side [
  | right ↦ after right up
  | left ↦ f.name ∷ order f.sibling ++ after right up
]

abbrev pub head : List ℕ → Option ℕ
head [] = none
head (x ∷ l) = some x

-- the outermost node on the side `e` is the first one in the other direction
pub outermost_lem :
    (e : Side) (s : Store) (parent : Option ℕ) (c : Color) (l : Tree) (x : ℕ) (r : Tree) (fuel : ℕ)
    → size (node c l x r) < fuel
    → IsTree s parent (some x) (node c l x r)
    → (y : ℕ) × (rest : List ℕ) × (walk (other e) (node c l x r) ≡ y ∷ rest)
      × (outermost fuel e s x ≡ ok y)
unfolding outermost size
outermost_lem e s parent c l x r zero enough v = absurd (ground arith)
outermost_lem left s parent c leaf x r (suc fuel) enough (_, _, a, b) =
    (x, order r, refl, rw (outermost, a) refl)
outermost_lem right s parent c l x leaf (suc fuel) enough (_, _, a, b) =
    (x, walk left l, refl, rw (outermost, b) refl)
outermost_lem left s parent c (node d l y r') x r (suc fuel) enough (_, _, a, b) =
    let (z, rest, e, q) =
      outermost_lem left s (some x) d l y r' fuel (ground arith) (refl, a.1, a.2, a.3) in
    (z, rest ++ x ∷ order r, ap (λ w. w ++ x ∷ order r) e, rw (outermost, a.0) q)
outermost_lem right s parent c l x (node d l' y r) (suc fuel) enough (_, _, a, b) =
    let (z, rest, e, q) =
      outermost_lem right s (some x) d l' y r fuel (ground arith) (refl, b.1, b.2, b.3) in
    (z, rest ++ x ∷ walk left l, ap (λ w. w ++ x ∷ walk left l) e, rw (outermost, b.0) q)

-- one round of the climb from the hole of the frame
climb_frame :
    (d g : Side) (s : Store) (p : ℕ) (c : Color) (b : Tree) (up : Context) (x : ℕ)
    (upper : Run (Option ℕ))
    → s.child g p ≡ some x
    → IsTree s (some p) (s.child (other g) p) b
    → count x b ≡ 0
    → upper ≡ ok (head (after d up))
    → (if same (some x) (s.child d p) then upper else ok (some p))
      ≡ ok (head (after d (record { side = g; color = c; name = p; sibling = b } ∷ up)))
climb_frame left left s p c b up x upper e v out q =
    let hit : same (some x) (s.child left p) ≡ true = rw e (ground arith) in rw hit q
climb_frame right right s p c b up x upper e v out q =
    let hit : same (some x) (s.child right p) ≡ true = rw e (ground arith) in rw hit q
climb_frame left right s p c b up x upper e v out q =
    rw (not_root s (some p) (s.child left p) b x v out) refl
climb_frame right left s p c b up x upper e v out q =
    rw (not_root s (some p) (s.child right p) b x v out) refl

climb_lem :
    (d : Side) (s : Store) (up : Context) (x fuel : ℕ)
    → depth up < fuel
    → ((k : ℕ) → (if k == x then 1 else 0) + count_above k up ≤ 1)
    → parent_of s x ≡ above up
    → IsAround s up (some x)
    → climb fuel d s x ≡ ok (head (after d up))
unfolding climb depth count_above
climb_lem d s up x zero enough one parent around = absurd (ground arith)
climb_lem d s [] x (suc fuel) enough one parent around = rw (climb, parent) refl
climb_lem d s (f ∷ up) x (suc fuel) enough one parent (e, pc, sib, around) =
    rw (climb, parent)
      (climb_frame d f.side s f.name f.color f.sibling up x (climb fuel d s f.name) e sib
        (held (count x f.sibling) (count_above x up) (one x))
        (climb_lem d s up f.name fuel (ground arith)
          (λ k. lower k (count k f.sibling) (count_above k up) (one k))
          (ap (λ (q : ParentColor). q.parent) pc) around))
  where
    held :
        (m n : ℕ)
        → (if x == x then 1 else 0) + ((if x == f.name then 1 else 0) + (m + n)) ≤ 1
        → m ≡ 0
    held m n h = ground arith

    lower :
        (k m n : ℕ)
        → (if k == x then 1 else 0) + ((if k == f.name then 1 else 0) + (m + n)) ≤ 1
        → (if k == f.name then 1 else 0) + n ≤ 1
    lower k m n h = omega (arith, h)

linked :
    (s : Store) (up : Context) (x : ℕ)
    → parent_of s x ≡ above up
    → count_above x up ≡ 0
    → is_linked s x ≡ true
unfolding is_linked count_above
linked s [] x parent out = rw parent refl
linked s (f ∷ up) x parent out =
    let other : same (some f.name) (some x) ≡ false = ground arith in rw (parent, other) refl

-- into the tree below the node, or up from it
inside :
    (d : Side) (s : Store) (t : Tree) (x : ℕ) (later : List ℕ) (fuel : ℕ) (up : Run (Option ℕ))
    (p : Option ℕ)
    → size t < fuel
    → IsTree s (some x) p t
    → up ≡ ok (head later)
    → (elim p [ none ↦ up | some below ↦ outermost fuel (other d) s below >>= λ y. ok (some y) ])
      ≡ ok (head (walk d t ++ later))
inside left s leaf x later fuel up p enough v q = rw v q
inside right s leaf x later fuel up p enough v q = rw v q
inside left s (node c l y r) x later fuel up p enough v q =
    let (z, rest, e, w) =
      outermost_lem right s (some x) c l y r fuel enough (refl, v.1, v.2, v.3) in
    rw (v.0, w, e) refl
inside right s (node c l y r) x later fuel up p enough v q =
    let (z, rest, e, w) = outermost_lem left s (some x) c l y r fuel enough (refl, v.1, v.2, v.3) in
    rw (v.0, w, e) refl

pick-IsTree :
    (s : Store) (d : Side) (parent p : Option ℕ) (c : Color) (l : Tree) (x : ℕ) (r : Tree)
    → IsTree s parent p (node c l x r)
    → IsTree s (some x) (s.child d x) (pick d l r)
pick-IsTree s left parent p c l x r (_, _, a, b) = a
pick-IsTree s right parent p c l x r (_, _, a, b) = b

size-pick : (d : Side) (l r : Tree) → size (pick d l r) ≤ size l + size r
size-pick left l r = ground arith
size-pick right l r = ground arith

-- `step` from a node of the tree
pub step_lem :
    (d : Side) (s : Store) (up : Context) (c : Color) (l : Tree) (x : ℕ) (r : Tree) (fuel : ℕ)
    → depth up + size (node c l x r) ≤ fuel
    → Unique up (node c l x r)
    → IsAround s up (some x)
    → IsTree s (above up) (some x) (node c l x r)
    → step fuel d s x ≡ ok (head (walk d (pick d l r) ++ after d up))
unfolding step size count
step_lem d s up c l x r fuel enough one around v =
    let parent = ap (λ (q : ParentColor). q.parent) v.1 in
    let outer =
      climb_lem d s up x fuel (ground arith)
        (λ k. few k (count k l) (count k r) (count_above k up) (one k)) parent around in
    rw (linked s up x parent (out (count x l) (count x r) (count_above x up) (one x))) (
      inside d s (pick d l r) x (after d up) fuel (climb fuel d s x) (s.child d x)
        (let n = size-pick d l r in ground arith) (pick-IsTree s d (above up) (some x) c l x r v)
        outer)
  where
    few :
        (k m n q : ℕ)
        → q + ((if k == x then 1 else 0) + (m + n)) ≤ 1
        → (if k == x then 1 else 0) + q ≤ 1
    few k m n q h = omega (arith, h)

    out : (m n q : ℕ) → q + ((if x == x then 1 else 0) + (m + n)) ≤ 1 → q ≡ 0
    out m n q h = ground arith

-- the nodes before the hole
abbrev pub ahead : Side → Context → List ℕ
ahead d [] = []
ahead left (f ∷ up) = elim f.side [
  | left ↦ ahead left up ++ walk left f.sibling ++ f.name ∷ []
  | right ↦ ahead left up
]
ahead right (f ∷ up) = elim f.side [
  | right ↦ ahead right up ++ order f.sibling ++ f.name ∷ []
  | left ↦ ahead right up
]

pub walk-plug :
    (d : Side) (up : Context) (t : Tree)
    → walk d (plug up t) ≡ ahead d up ++ (walk d t ++ after d up)
walk-plug d [] t = sym (append-nil (walk d t))
walk-plug d (f ∷ up) t =
    walk-plug d up (join f.side f.color t f.name f.sibling)
    ∙ frame d f.side f.color f.name f.sibling
  where
    frame :
        (d g : Side) (c : Color) (p : ℕ) (b : Tree)
        → ahead d up ++ (walk d (join g c t p b) ++ after d up)
          ≡ ahead d (record { side = g; color = c; name = p; sibling = b } ∷ up)
            ++ (walk d t ++ after d (record { side = g; color = c; name = p; sibling = b } ∷ up))
    frame left left c p b = simp append_assoc refl
    frame left right c p b = simp append_assoc refl
    frame right left c p b = simp append_assoc refl
    frame right right c p b = simp append_assoc refl
