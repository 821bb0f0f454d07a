-- ===== src/RbTree/Shape.antt =====
-- The trees that a store represents, and a tree around a hole.
use mzx.Base.{
  ℕ, ◌+◌, ◌<◌, ◌≡◌, refl, Option, none, some, List, [], ◌∷◌, ◌==◌, if◌then◌else◌, arith, ◌∙◌,
}
use mzx.RbTree.Store.{Color, Side, left, right, other, Store}

pub data Tree : Type 0 where
  leaf : Tree
  node : Color → Tree → ℕ → Tree → Tree

-- `a` on the side `d`, and `b` on the other one
abbrev pub join : Side → Color → Tree → ℕ → Tree → Tree
join left c a x b = node c a x b
join right c a x b = node c b x a

-- a node above the hole, which is its child on the side `side`
pub record Frame : Type 0 where
  pub side : Side
  pub color : Color
  pub name : ℕ
  pub sibling : Tree

-- the nodes above the hole, the nearest first
abbrev pub Context : Type 0
Context = List Frame

abbrev pub plug : Context → Tree → Tree
plug [] t = t
plug (f ∷ up) t = plug up (join f.side f.color t f.name f.sibling)

unfoldable pub count : ℕ → Tree → ℕ
count k leaf = 0
count k (node c l x r) = (if k == x then 1 else 0) + (count k l + count k r)

unfoldable pub count_above : ℕ → Context → ℕ
count_above k [] = 0
count_above k (f ∷ up) = (if k == f.name then 1 else 0) + (count k f.sibling + count_above k up)

pub count-join :
    (k : ℕ) (d : Side) (c : Color) (a : Tree) (x : ℕ) (b : Tree)
    → count k (join d c a x b) ≡ (if k == x then 1 else 0) + (count k a + count k b)
unfolding count
count-join k left c a x b = refl
count-join k right c a x b = ground arith

pub count-plug :
    (k : ℕ) (up : Context) (t : Tree) → count k (plug up t) ≡ count_above k up + count k t
unfolding count_above
count-plug k [] t = ground arith
count-plug k (f ∷ up) t = ground (
  arith,
  count-plug k up (join f.side f.color t f.name f.sibling),
  count-join k f.side f.color t f.name f.sibling,
)

-- the pointer `p`, in a node with the parent `parent`, leads to the tree
abbrev pub IsTree : Store → Option ℕ → Option ℕ → Tree → Type 0
IsTree s parent p leaf = p ≡ none
IsTree s parent p (node c l x r) =
    (p ≡ some x)
    × (s.parent_color x ≡ record { parent = parent; color = c })
    × IsTree s (some x) (s.child left x) l
    × IsTree s (some x) (s.child right x) r

-- the parent of the hole
abbrev pub above : Context → Option ℕ
above [] = none
above (f ∷ up) = some f.name

-- the pointer into the hole is `p`
abbrev pub IsAround : Store → Context → Option ℕ → Type 0
IsAround s [] p = s.root ≡ p
IsAround s (f ∷ up) p =
    (s.child f.side f.name ≡ p)
    × (s.parent_color f.name ≡ record { parent = above up; color = f.color })
    × IsTree s (some f.name) (s.child (other f.side) f.name) f.sibling
    × IsAround s up (some f.name)

pub IsTree-join :
    (s : Store) (parent p : Option ℕ) (d : Side) (c : Color) (a : Tree) (x : ℕ) (b : Tree)
    → p ≡ some x
    → s.parent_color x ≡ record { parent = parent; color = c }
    → IsTree s (some x) (s.child d x) a
    → IsTree s (some x) (s.child (other d) x) b
    → IsTree s parent p (join d c a x b)
IsTree-join s parent p left c a x b e pc l r = (e, pc, l, r)
IsTree-join s parent p right c a x b e pc l r = (e, pc, r, l)

pub IsTree-plug :
    (s : Store) (up : Context) (p : Option ℕ) (t : Tree)
    → IsAround s up p
    → IsTree s (above up) p t
    → IsTree s none s.root (plug up t)
IsTree-plug s [] p t a v = rw a v
IsTree-plug s (f ∷ up) p t (e, pc, sib, a) v =
    IsTree-plug s up (some f.name) (join f.side f.color t f.name f.sibling) a (
      IsTree-join s (above up) (some f.name) f.side f.color t f.name f.sibling refl pc (rw e v) sib)

-- the fields of one node are the same in both stores
abbrev pub Agree : Store → Store → ℕ → Type 0
Agree s t k = (t.parent_color k ≡ s.parent_color k) × ((d : Side) → t.child d k ≡ s.child d k)

pub IsTree-cong :
    (s u : Store) (parent p : Option ℕ) (t : Tree)
    → ((k : ℕ) → 0 < count k t → Agree s u k)
    → IsTree s parent p t
    → IsTree u parent p t
unfolding count
IsTree-cong s u parent p leaf same v = v
IsTree-cong s u parent p (node c l x r) same (e, pc, a, b) =
    let (q, kids) = same x (ground arith) in
    (
      e,
      q ∙ pc,
      rw (kids left) (IsTree-cong s u (some x) (s.child left x) l (λ k h. same k (ground arith)) a),
      rw (kids right)
          (IsTree-cong s u (some x) (s.child right x) r (λ k h. same k (ground arith)) b),
    )

pub IsAround-cong :
    (s u : Store) (up : Context) (p : Option ℕ)
    → ((k : ℕ) → 0 < count_above k up → Agree s u k)
    → u.root ≡ s.root
    → IsAround s up p
    → IsAround u up p
unfolding count_above
IsAround-cong s u [] p same e v = e ∙ v
IsAround-cong s u (f ∷ up) p same e (h, pc, sib, a) =
    let (q, kids) = same f.name (ground arith) in
    (
      kids f.side ∙ h,
      q ∙ pc,
      rw (kids (other f.side)) (
          IsTree-cong s u (some f.name) (s.child (other f.side) f.name) f.sibling
            (λ k h. same k (ground arith)) sib),
      IsAround-cong s u up (some f.name) (λ k h. same k (ground arith)) e a,
    )
