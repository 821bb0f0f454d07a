-- ===== src/RbTree/Place.antt =====
-- RBTreeNode::Insert: the writes that come before its loop, and the whole of it.
use mathlib.Core.Path.{subst}
use mzx.Base.{
  ℕ, ◌+◌, ◌≤◌, ◌<◌, ◌≡◌, ◌≢◌, refl, Option, none, some, [], ◌∷◌, ◌==◌, if◌then◌else◌, arith, ◌∙◌,
  sym, ap, ◌⊎◌, inl, inr, Bool-cases,
}
use mzx.Run.{Returns}
use mzx.RbTree.Store.{
  red, left, right, other, Store, set_parent_color, copy_parent_color, set_child,
}
use mzx.RbTree.Insert.{write_link, insert_node}
use mzx.RbTree.Shape.{
  leaf, node, Context, count, count_above, IsTree, IsAround, Agree, IsTree-cong, IsAround-cong,
  above,
}
use mzx.RbTree.Writes.{set_child-Agree, set_child_self, set_child-other}
use mzx.RbTree.Repair.{repair}
use mzx.RbTree.Rotate.{Holds}
use mzx.RbTree.Around.{depth, RootBlack, Unique}
use mzx.RbTree.Loop.{insert_loop-repair}
use mzx.RbTree.Descent.{link_of}

-- the state with the fields of the new node `x` set
abbrev fresh_node : ℕ → Option ℕ → Store → Store
fresh_node x parent s =
    set_child right x none (set_child left x none (set_parent_color x parent red s))

fresh_node-Agree :
    (s : Store) (x : ℕ) (parent : Option ℕ) (k : ℕ) → k ≢ x → Agree s (fresh_node x parent s) k
unfolding set_child set_parent_color copy_parent_color
fresh_node-Agree s x parent k ne = (ground arith, λ d. ground arith)

fresh_node-IsTree :
    (s : Store) (x : ℕ) (parent : Option ℕ)
    → IsTree (fresh_node x parent s) parent (some x) (node red leaf x leaf)
unfolding set_child set_parent_color copy_parent_color
fresh_node-IsTree s x parent = (refl, ground arith, ground arith, ground arith)

fresh_node-root : (s : Store) (x : ℕ) (parent : Option ℕ) → (fresh_node x parent s).root ≡ s.root
unfolding set_child set_parent_color copy_parent_color
fresh_node-root s x parent = refl

absent : (x y n : ℕ) → (if x == y then 1 else 0) + n ≡ 0 → x ≢ y
absent x y n z q = absurd (ground arith)

apart_first : (k y a b : ℕ) → (if k == y then 1 else 0) + (a + b) ≤ 1 → (0 < a) ⊎ (0 < b) → k ≢ y
apart_first k y a b one h q = absurd (ground arith)

-- the link to the new node
write_link-Holds :
    (s : Store) (up : Context) (x : ℕ)
    → ((k : ℕ) → count_above k up ≤ 1)
    → count_above x up ≡ 0
    → IsAround s up none
    → IsTree s (above up) (some x) (node red leaf x leaf)
    → Holds (write_link (link_of up) (some x) s) up x (node red leaf x leaf)
unfolding write_link count_above
write_link-Holds s [] x one out around v = (refl, v)
write_link-Holds s (f ∷ up) x one out (e, pc, sib, a) (_, px, l, r) =
    let u = set_child f.side f.name (some x) s in
    let apart = absent x f.name (count x f.sibling + count_above x up) out in
    let (qx, kids) = set_child-Agree s f.side f.name (some x) x apart in
    let keep : (k : ℕ) → k ≢ f.name → Agree s u k = set_child-Agree s f.side f.name (some x) in
    (
      (
        set_child_self s f.side f.name (some x),
        pc,
        subst (λ q. IsTree u (some f.name) q f.sibling)
            (sym (set_child-other s f.side f.name f.name (some x)))
            (IsTree-cong s u (some f.name) (s.child (other f.side) f.name) f.sibling
              (λ k h.
                keep k
                  (apart_first k f.name (count k f.sibling) (count_above k up) (one k) (inl h)))
              sib),
        IsAround-cong s u up (some f.name)
            (λ k h.
              keep k (apart_first k f.name (count k f.sibling) (count_above k up) (one k) (inr h)))
            refl a,
      ),
      (refl, px, kids left ∙ l, kids right ∙ r),
    )

new_Unique :
    (up : Context) (x : ℕ)
    → ((k : ℕ) → count_above k up ≤ 1)
    → count_above x up ≡ 0
    → Unique up (node red leaf x leaf)
unfolding count
new_Unique up x one out k =
    let n = one k in
    elim (Bool-cases (k == x)) [
      | inl e ↦ rw e (
          let q : k ≡ x = ground arith in
          let z = ap (λ m. count_above m up) q in omega (arith, z, out))
      | inr e ↦ rw e (omega (arith, n))
    ]

pub insert_node-repair :
    (fuel : ℕ) (s : Store) (up : Context) (x : ℕ)
    → depth up < fuel
    → RootBlack up
    → ((k : ℕ) → count_above k up ≤ 1)
    → count_above x up ≡ 0
    → IsAround s up none
    → Returns
        (λ (u : Store). IsTree u none u.root (repair up (node red leaf x leaf)))
        (insert_node fuel x (above up) (link_of up) s)
unfolding insert_node
insert_node-repair fuel s up x enough top one out around =
    insert_loop-repair up fuel leaf leaf x
      (write_link (link_of up) (some x) (fresh_node x (above up) s)) enough top
      (new_Unique up x one out)
      (write_link-Holds (fresh_node x (above up) s) up x one out
        (IsAround-cong s (fresh_node x (above up) s) up none
          (λ k h. fresh_node-Agree s x (above up) k (λ q. held k h q))
          (fresh_node-root s x (above up)) around)
        (fresh_node-IsTree s x (above up)))
  where
    held : (k : ℕ) → 0 < count_above k up → k ≢ x
    held k h q = absurd (ground arith)
