-- ===== src/RbTree/Store.antt =====
-- RBTreeNode: the fields of all nodes, and what sets them.
use mzx.Base.{ℕ, Bool, true, false, ◌&&◌, Option, none, some, ◌==◌, if◌then◌else◌}
use mzx.Run.{Run, ok, fault}

pub data Color : Type 0 where
  red black : Color

pub data Side : Type 0 where
  left right : Side

abbrev pub other : Side → Side
other left = right
other right = left

pub record ParentColor : Type 0 where
  pub parent : Option ℕ
  pub color : Color

pub record Store : Type 0 where
  pub parent_color : ℕ → ParentColor
  pub child : Side → ℕ → Option ℕ
  pub root : Option ℕ

abbrev pub same_side : Side → Side → Bool
same_side left left = true
same_side right right = true
same_side d e = false

-- the comparison of two pointers
abbrev pub same : Option ℕ → Option ℕ → Bool
same none none = true
same (some x) (some y) = x == y
same p q = false

abbrev pub is_red_color : Color → Bool
is_red_color red = true
is_red_color black = false

-- the access through a pointer
abbrev pub deref : Option ℕ → Run ℕ
deref none = fault
deref (some x) = ok x

abbrev pub is_red : Store → ℕ → Bool
is_red s x = is_red_color (s.parent_color x).color

abbrev pub parent_of : Store → ℕ → Option ℕ
parent_of s x = (s.parent_color x).parent

-- `p && p->IsRed()`
abbrev pub red_at : Store → Option ℕ → Bool
red_at s none = false
red_at s (some x) = is_red s x

unfoldable pub is_linked : Store → ℕ → Bool
is_linked s x = if same (parent_of s x) (some x) && is_red s x then false else true

-- SetParentColor(pc)
unfoldable pub copy_parent_color : ℕ → ParentColor → Store → Store
copy_parent_color x pc s = record s { parent_color = λ y. if y == x then pc else s.parent_color y }

-- SetParentColor(parent, color)
unfoldable pub set_parent_color : ℕ → Option ℕ → Color → Store → Store
unfolding copy_parent_color
set_parent_color x parent color = copy_parent_color x (record { parent = parent; color = color })

-- `if (p) p->SetParentColor(parent, Color::Black);`
unfoldable pub blacken_at : Option ℕ → Option ℕ → Store → Store
unfolding set_parent_color
blacken_at none parent s = s
blacken_at (some x) parent s = set_parent_color x parent black s

unfoldable pub set_parent : ℕ → Option ℕ → Store → Store
unfolding set_parent_color
set_parent x parent s = set_parent_color x parent (s.parent_color x).color s

unfoldable pub set_black : ℕ → Store → Store
unfolding set_parent_color
set_black x s = set_parent_color x (parent_of s x) black s

-- SetLeft and SetRight
unfoldable pub set_child : Side → ℕ → Option ℕ → Store → Store
set_child d x p s = record s { child = λ e y. if same_side e d && (y == x) then p else s.child e y }

unfoldable pub change_child : ℕ → Option ℕ → Option ℕ → Store → Store
unfolding set_child
change_child x new_node parent s = elim parent [
  | none ↦ record s { root = new_node }
  | some p ↦
      if same (s.child left p) (some x)
      then set_child left p new_node s
      else set_child right p new_node s
]

unfoldable pub rotate_set_parents : ℕ → ℕ → Color → Store → Store
unfolding copy_parent_color set_parent_color change_child
rotate_set_parents x new_node color s =
    change_child x (some new_node) (parent_of s x)
      (set_parent_color x (some new_node) color (copy_parent_color new_node (s.parent_color x) s))
