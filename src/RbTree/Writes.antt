-- ===== src/RbTree/Writes.antt =====
-- What a write to a store leaves as it was.
use mathlib.Core.Path.{subst}
use mzx.Base.{
  ℕ, ◌≤◌, ◌<◌, ◌≡◌, ◌≢◌, refl, Option, none, some, [], ◌∷◌, arith, ◌∙◌, Bool-cases, inl, inr, sym,
  ◌⊎◌,
}
use mzx.RbTree.Store.{
  Color, black, Side, left, right, other, same, Store, ParentColor, copy_parent_color,
  set_parent_color, set_child, blacken_at, change_child,
}
use mzx.RbTree.Shape.{
  Tree, leaf, node, Context, count, count_above, IsTree, IsAround, IsTree-cong, IsAround-cong,
  Agree, above,
}

pub Agree-trans : (s t u : Store) (k : ℕ) → Agree s t k → Agree t u k → Agree s u k
Agree-trans s t u k (p, f) (q, g) = (q ∙ p, λ d. g d ∙ f d)

pub set_child-Agree :
    (s : Store) (d : Side) (x : ℕ) (p : Option ℕ) (k : ℕ) → k ≢ x → Agree s (set_child d x p s) k
unfolding set_child
set_child-Agree s d x p k ne = (refl, λ e. ground arith)

pub set_child_self :
    (s : Store) (d : Side) (x : ℕ) (p : Option ℕ) → (set_child d x p s).child d x ≡ p
unfolding set_child
set_child_self s left x p = ground arith
set_child_self s right x p = ground arith

pub set_child-other :
    (s : Store) (d : Side) (x y : ℕ) (p : Option ℕ)
    → (set_child d x p s).child (other d) y ≡ s.child (other d) y
unfolding set_child
set_child-other s left x y p = refl
set_child-other s right x y p = refl

pub copy_parent_color-Agree :
    (s : Store) (x : ℕ) (pc : ParentColor) (k : ℕ) → k ≢ x → Agree s (copy_parent_color x pc s) k
unfolding copy_parent_color
copy_parent_color-Agree s x pc k ne = (ground arith, λ e. refl)

pub set_parent_color-Agree :
    (s : Store) (x : ℕ) (p : Option ℕ) (c : Color) (k : ℕ)
    → k ≢ x
    → Agree s (set_parent_color x p c s) k
unfolding set_parent_color
set_parent_color-Agree s x p c = copy_parent_color-Agree s x (record { parent = p; color = c })

-- the root of the tree becomes black
unfoldable pub paint : Tree → Tree
paint leaf = leaf
paint (node c l x r) = node black l x r

pub count-paint : (k : ℕ) (t : Tree) → count k (paint t) ≡ count k t
unfolding paint count
count-paint k leaf = refl
count-paint k (node c l x r) = refl

pub blacken_at-Agree :
    (s : Store) (parent p to : Option ℕ) (t : Tree) (k : ℕ)
    → IsTree s parent p t
    → count k t ≡ 0
    → Agree s (blacken_at p to s) k
unfolding blacken_at count
blacken_at-Agree s parent p to leaf k v z = rw v (refl, λ d. refl)
blacken_at-Agree s parent p to (node c l x r) k (e, pc, a, b) z =
    rw e (set_parent_color-Agree s x to black k (ground arith))

-- the parent and the color of the root of a tree are set
pub set_parent_color-IsTree :
    (s : Store) (parent to : Option ℕ) (c e : Color) (l : Tree) (x : ℕ) (r : Tree)
    → ((k : ℕ) → count k (node c l x r) ≤ 1)
    → IsTree s parent (some x) (node c l x r)
    → IsTree (set_parent_color x to e s) to (some x) (node e l x r)
unfolding count set_parent_color copy_parent_color
set_parent_color-IsTree s parent to c e l x r one (_, pc, a, b) =
    let u = set_parent_color x to e s in
    let apart = λ (k : ℕ) (ne : k ≢ x). set_parent_color-Agree s x to e k ne in
    (
      refl,
      ground arith,
      IsTree-cong s u (some x) (s.child left x) l (λ k h. apart k (other_than k (one k) (inl h))) a,
      IsTree-cong s u (some x) (s.child right x) r (λ k h. apart k (other_than k (one k) (inr h)))
          b,
    )
  where
    other_than : (k : ℕ) → count k (node c l x r) ≤ 1 → (0 < count k l) ⊎ (0 < count k r) → k ≢ x
    other_than k few some_ same_ = absurd (ground arith)

pub blacken_at-IsTree :
    (s : Store) (parent p to : Option ℕ) (t : Tree)
    → ((k : ℕ) → count k t ≤ 1)
    → IsTree s parent p t
    → IsTree (blacken_at p to s) to p (paint t)
unfolding blacken_at paint
blacken_at-IsTree s parent p to leaf one v = v
blacken_at-IsTree s parent p to (node c l x r) one (e, pc, a, b) =
    subst (λ q. IsTree (blacken_at q to s) to q (node black l x r)) (sym e)
      (set_parent_color-IsTree s parent to c black l x r one (refl, pc, a, b))

-- ChangeChild of a node that is the child on the side `d`
change_child-set_child :
    (s : Store) (d : Side) (y x : ℕ) (p : Option ℕ) (sib : Tree)
    → s.child d y ≡ some x
    → count x sib ≡ 0
    → IsTree s (some y) (s.child (other d) y) sib
    → change_child x p (some y) s ≡ set_child d y p s
unfolding change_child count
change_child-set_child s left y x p sib e z v = ground arith
change_child-set_child s right y x p leaf e z v = ground arith
change_child-set_child s right y x p (node c l w r) e z (q, _, _, _) = ground arith

-- ChangeChild redirects the pointer into the hole
pub change_child-IsAround :
    (s : Store) (up : Context) (x : ℕ) (p : Option ℕ)
    → ((k : ℕ) → count_above k up ≤ 1)
    → count_above x up ≡ 0
    → IsAround s up (some x)
    → IsAround (change_child x p (above up) s) up p
unfolding change_child count_above
change_child-IsAround s [] x p one out v = refl
change_child-IsAround s (f ∷ up) x p one out (e, pc, sib, a) =
    let u = set_child f.side f.name p s in
    let apart = λ (k : ℕ) (ne : k ≢ f.name). set_child-Agree s f.side f.name p k ne in
    subst (λ t. IsAround t (f ∷ up) p)
      (sym (change_child-set_child s f.side f.name x p f.sibling e (ground arith) sib))
      (
        here,
        pc,
        rw there (
            IsTree-cong s u (some f.name) (s.child (other f.side) f.name) f.sibling
              (λ k h. apart k (other_than k (one k) (inl h))) sib),
        IsAround-cong s u up (some f.name) (λ k h. apart k (other_than k (one k) (inr h))) refl a,
      )
  where
    other_than :
        (k : ℕ)
        → count_above k (f ∷ up) ≤ 1
        → (0 < count k f.sibling) ⊎ (0 < count_above k up)
        → k ≢ f.name
    other_than k few some_ same_ = absurd (ground arith)

    here : (set_child f.side f.name p s).child f.side f.name ≡ p
    here = set_child_self s f.side f.name p

    there :
        (set_child f.side f.name p s).child (other f.side) f.name ≡ s.child (other f.side) f.name
    there = set_child-other s f.side f.name f.name p

pub set_parent_color_self :
    (s : Store) (x : ℕ) (p : Option ℕ) (c : Color)
    → (set_parent_color x p c s).parent_color x ≡ record { parent = p; color = c }
unfolding set_parent_color copy_parent_color
set_parent_color_self s x p c = ground arith

pub set_child-opposite :
    (s : Store) (d : Side) (x y : ℕ) (p : Option ℕ)
    → (set_child (other d) x p s).child d y ≡ s.child d y
unfolding set_child
set_child-opposite s left x y p = refl
set_child-opposite s right x y p = refl

pub blacken_at-child : (s : Store) (p to : Option ℕ) → (blacken_at p to s).child ≡ s.child
unfolding blacken_at set_parent_color copy_parent_color
blacken_at-child s none to = refl
blacken_at-child s (some x) to = refl

pub set_parent_color-child :
    (s : Store) (x : ℕ) (p : Option ℕ) (c : Color) → (set_parent_color x p c s).child ≡ s.child
unfolding set_parent_color copy_parent_color
set_parent_color-child s x p c = refl

pub copy_parent_color-child :
    (s : Store) (x : ℕ) (pc : ParentColor) → (copy_parent_color x pc s).child ≡ s.child
unfolding copy_parent_color
copy_parent_color-child s x pc = refl

pub copy_parent_color_self :
    (s : Store) (x : ℕ) (pc : ParentColor) → (copy_parent_color x pc s).parent_color x ≡ pc
unfolding copy_parent_color
copy_parent_color_self s x pc = ground arith

pub copy_parent_color-root :
    (s : Store) (x : ℕ) (pc : ParentColor) → (copy_parent_color x pc s).root ≡ s.root
unfolding copy_parent_color
copy_parent_color-root s x pc = refl

pub set_parent_color-root :
    (s : Store) (x : ℕ) (p : Option ℕ) (c : Color) → (set_parent_color x p c s).root ≡ s.root
unfolding set_parent_color copy_parent_color
set_parent_color-root s x p c = refl

pub blacken_at-root : (s : Store) (p to : Option ℕ) → (blacken_at p to s).root ≡ s.root
unfolding blacken_at set_parent_color copy_parent_color
blacken_at-root s none to = refl
blacken_at-root s (some x) to = refl

-- ChangeChild touches no node but the parent
pub change_child-Agree :
    (s : Store) (up : Context) (x : ℕ) (p : Option ℕ) (k : ℕ)
    → count_above k up ≡ 0
    → Agree s (change_child x p (above up) s) k
unfolding change_child count_above
change_child-Agree s [] x p k z = (refl, λ d. refl)
change_child-Agree s (f ∷ up) x p k z = elim (Bool-cases (same (s.child left f.name) (some x))) [
  | inl e ↦ rw e (set_child-Agree s left f.name p k (ground arith))
  | inr e ↦ rw e (set_child-Agree s right f.name p k (ground arith))
]
