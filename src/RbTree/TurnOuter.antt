-- ===== src/RbTree/TurnOuter.antt =====
-- The turn of an outer child.
use mathlib.Core.Path.{subst}
use mzx.Base.{
  ℕ, ◌+◌, ◌≤◌, ◌<◌, ◌≡◌, ◌≢◌, refl, Option, some, ◌==◌, if◌then◌else◌, arith, ◌∙◌, inl, inr, sym,
  ap, ◌⊎◌,
}
use mzx.RbTree.Store.{
  Color, red, Side, other, Store, ParentColor, copy_parent_color, set_parent_color, set_child,
  blacken_at, change_child, rotate_set_parents,
}
use mzx.RbTree.Insert.{turn_outer}
use mzx.RbTree.Shape.{
  Tree, join, Context, count, count_above, IsTree, IsAround, IsTree-cong, IsAround-cong,
  IsTree-join, Agree, above,
}
use mzx.RbTree.Writes.{
  Agree-trans, set_child-Agree, set_child_self, set_child-other, copy_parent_color-Agree,
  set_parent_color-Agree, paint, count-paint, blacken_at-Agree, blacken_at-IsTree,
  change_child-IsAround, change_child-Agree, set_parent_color_self, set_child-opposite,
  blacken_at-child, set_parent_color-child, copy_parent_color-child, copy_parent_color_self,
  set_parent_color-root, copy_parent_color-root, blacken_at-root,
}

-- `parent`, with the tree `n` on the side `d`, takes the place of `gparent`, which becomes its child on
-- the other side and takes over the tree `b` at `tmp`
module _ (d : Side) (p g : ℕ) (tmp from : Option ℕ) (s : Store) (up : Context) (c : Color)
    (n b u : Tree)
    (unique : (k : ℕ)
      → (if k == p then 1 else 0)
          + ((if k == g then 1 else 0) + (count k n + (count k b + (count k u + count_above k up))))
        ≤ 1)
    (around : IsAround s up (some g))
    (at_g : s.parent_color g ≡ record { parent = above up; color = c })
    (tn : IsTree s (some p) (s.child d p) n) (tb : IsTree s from tmp b)
    (tu : IsTree s (some g) (s.child (other d) g) u) where
  abbrev o1 : Store
  o1 = set_child d g tmp s

  abbrev o2 : Store
  o2 = set_child (other d) p (some g) o1

  abbrev o3 : Store
  o3 = blacken_at tmp (some g) o2

  abbrev o4 : Store
  o4 = copy_parent_color p (o3.parent_color g) o3

  abbrev o5 : Store
  o5 = set_parent_color g (some p) red o4

  abbrev o6 : Store
  o6 = change_child g (some p) (above up) o5

  -- a name of a tree or of the context
  abbrev Held : ℕ → Type 0
  Held k = (0 < count k n) ⊎ ((0 < count k b) ⊎ ((0 < count k u) ⊎ (0 < count_above k up)))

  not_p : (k : ℕ) → Held k → k ≢ p
  not_p k h e = let few = unique k in absurd (ground arith)

  not_g : (k : ℕ) → Held k → k ≢ g
  not_g k h e = let few = unique k in absurd (ground arith)

  p_not_g : p ≢ g
  p_not_g e = let few = unique p in absurd (ground arith)

  out_b : (k : ℕ) → (k ≡ p) ⊎ (k ≡ g) → count k b ≡ 0
  out_b k h = let few = unique k in ground arith

  out_up : (k : ℕ) → (k ≡ p) ⊎ (k ≡ g) → count_above k up ≡ 0
  out_up k h = let few = unique k in ground arith

  o2-Agree : (k : ℕ) → k ≢ p → k ≢ g → Agree s o2 k
  o2-Agree k kp kg =
      Agree-trans s o1 o2 k (set_child-Agree s d g tmp k kg)
        (set_child-Agree o1 (other d) p (some g) k kp)

  b2 : IsTree o2 from tmp b
  b2 =
      IsTree-cong s o2 from tmp b
        (λ k h. o2-Agree k (not_p k (inr (inl h))) (not_g k (inr (inl h)))) tb

  o3-Agree : (k : ℕ) → count k b ≡ 0 → Agree o2 o3 k
  o3-Agree k z = blacken_at-Agree o2 from tmp (some g) b k b2 z

  o5-Agree : (k : ℕ) → k ≢ p → k ≢ g → Agree o3 o5 k
  o5-Agree k kp kg =
      Agree-trans o3 o4 o5 k (copy_parent_color-Agree o3 p (o3.parent_color g) k kp)
        (set_parent_color-Agree o4 g (some p) red k kg)

  before_Agree : (k : ℕ) → k ≢ p → k ≢ g → count k b ≡ 0 → Agree s o5 k
  before_Agree k kp kg kb =
      Agree-trans s o2 o5 k (o2-Agree k kp kg)
        (Agree-trans o2 o3 o5 k (o3-Agree k kb) (o5-Agree k kp kg))

  o6-Agree : (k : ℕ) → count_above k up ≡ 0 → Agree o5 o6 k
  o6-Agree k z = change_child-Agree o5 up g (some p) k z

  around6 : IsAround o6 up (some p)
  unfolding set_child
  around6 =
      change_child-IsAround o5 up g (some p) (λ k. omega (arith, unique k)) (out_up g (inr refl))
        (IsAround-cong s o5 up (some g)
          (λ k h.
            before_Agree k (not_p k (inr (inr (inr h)))) (not_g k (inr (inr (inr h))))
              (omega (arith, unique k)))
          o5-root around)
    where
      o5-root : o5.root ≡ s.root
      o5-root =
          set_parent_color-root o4 g (some p) red
          ∙ copy_parent_color-root o3 p (o3.parent_color g)
          ∙ blacken_at-root o2 tmp (some g)

  n6 : IsTree o6 (some p) (s.child d p) n
  n6 =
      IsTree-cong s o6 (some p) (s.child d p) n
        (λ k h.
          Agree-trans s o5 o6 k
            (before_Agree k (not_p k (inl h)) (not_g k (inl h)) (omega (arith, unique k)))
            (o6-Agree k (omega (arith, unique k))))
        tn

  u6 : IsTree o6 (some g) (s.child (other d) g) u
  u6 =
      IsTree-cong s o6 (some g) (s.child (other d) g) u
        (λ k h.
          Agree-trans s o5 o6 k
            (before_Agree k (not_p k (inr (inr (inl h)))) (not_g k (inr (inr (inl h))))
              (omega (arith, unique k)))
            (o6-Agree k (omega (arith, unique k))))
        tu

  b6 : IsTree o6 (some g) tmp (paint b)
  b6 =
      IsTree-cong o3 o6 (some g) tmp (paint b)
        (λ k h.
          let has : 0 < count k b = rw (count-paint k b) at h in
          Agree-trans o3 o5 o6 k (o5-Agree k (not_p k (inr (inl has))) (not_g k (inr (inl has))))
            (o6-Agree k (omega (arith, unique k))))
        (blacken_at-IsTree o2 from tmp (some g) b (λ k. omega (arith, unique k)) b2)

  -- the fields of the two nodes
  kids : o5.child ≡ o2.child
  kids =
      set_parent_color-child o4 g (some p) red
      ∙ (copy_parent_color-child o3 p (o3.parent_color g) ∙ blacken_at-child o2 tmp (some g))

  kids6 : (k : ℕ) → (k ≡ p) ⊎ (k ≡ g) → (e : Side) → o6.child e k ≡ o2.child e k
  kids6 k h e = (o6-Agree k (out_up k h)).1 e ∙ ap (λ (f : Side → ℕ → Option ℕ). f e k) kids

  at_p : o6.child d p ≡ s.child d p
  at_p =
      kids6 p (inl refl) d
      ∙ (set_child-opposite o1 d p p (some g) ∙ (set_child-Agree s d g tmp p p_not_g).1 d)

  at_p_other : o6.child (other d) p ≡ some g
  at_p_other = kids6 p (inl refl) (other d) ∙ set_child_self o1 (other d) p (some g)

  at_g_side : o6.child d g ≡ tmp
  at_g_side =
      kids6 g (inr refl) d ∙ (set_child-opposite o1 d p g (some g) ∙ set_child_self s d g tmp)

  at_g_other : o6.child (other d) g ≡ s.child (other d) g
  at_g_other =
      kids6 g (inr refl) (other d)
      ∙ ((set_child-Agree o1 (other d) p (some g) g (λ e. p_not_g (sym e))).1 (other d)
          ∙ set_child-other s d g g tmp)

  at_g_color : o3.parent_color g ≡ record { parent = above up; color = c }
  unfolding set_child
  at_g_color = (o3-Agree g (out_b g (inr refl))).0 ∙ at_g

  p_color : o6.parent_color p ≡ record { parent = above up; color = c }
  p_color =
      (o6-Agree p (out_up p (inl refl))).0
      ∙ ((set_parent_color-Agree o4 g (some p) red p p_not_g).0
          ∙ (copy_parent_color_self o3 p (o3.parent_color g) ∙ at_g_color))

  g_color : o6.parent_color g ≡ record { parent = some p; color = red }
  g_color = (o6-Agree g (out_up g (inr refl))).0 ∙ set_parent_color_self o4 g (some p) red

  turned : IsTree o6 (above up) (some p) (join d c n p (join d red (paint b) g u))
  turned =
      IsTree-join o6 (above up) (some p) d c n p (join d red (paint b) g u) refl p_color
        (subst (λ q. IsTree o6 (some p) q n) (sym at_p) n6)
        (IsTree-join o6 (some p) (o6.child (other d) p) d red (paint b) g u at_p_other g_color
          (subst (λ q. IsTree o6 (some g) q (paint b)) (sym at_g_side) b6)
          (subst (λ q. IsTree o6 (some g) q u) (sym at_g_other) u6))

  turn_outer-o6 : turn_outer d p g tmp s ≡ o6
  unfolding turn_outer rotate_set_parents
  turn_outer-o6 =
      ap (λ (q : Option ℕ). change_child g (some p) q o5)
        (ap (λ (pc : ParentColor). pc.parent) at_g_color)

  pub turn_outer_lem :
      IsAround (turn_outer d p g tmp s) up (some p)
      × IsTree
          (turn_outer d p g tmp s)
          (above up)
          (some p)
          (join d c n p (join d red (paint b) g u))
  turn_outer_lem =
      subst
        (λ t.
          IsAround t up (some p)
          × IsTree t (above up) (some p) (join d c n p (join d red (paint b) g u)))
        (sym turn_outer-o6) (around6, turned)
