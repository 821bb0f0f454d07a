-- ===== src/RbTree/TurnInner.antt =====
-- The turn of an inner child.
use mathlib.Core.Path.{subst}
use mzx.Base.{ℕ, ◌+◌, ◌≤◌, ◌<◌, ◌≡◌, ◌≢◌, some, ◌==◌, if◌then◌else◌, arith, ◌∙◌, inl, inr, sym, ◌⊎◌}
use mzx.RbTree.Store.{red, Side, other, Store, set_parent_color, set_child, blacken_at}
use mzx.RbTree.Insert.{turn_inner}
use mzx.RbTree.Shape.{Tree, join, count, IsTree, IsTree-cong, IsTree-join, Agree}
use mzx.RbTree.Writes.{
  Agree-trans, set_child-Agree, set_child_self, set_child-other, set_parent_color-Agree, paint,
  count-paint, blacken_at-Agree, blacken_at-IsTree, set_parent_color_self, set_child-opposite,
  blacken_at-child, set_parent_color-child, set_parent_color-root, blacken_at-root,
}

pub turn_inner-root : (d : Side) (n p : ℕ) (s : Store) → (turn_inner d n p s).root ≡ s.root
unfolding turn_inner set_child
turn_inner-root d n p s =
    let s2 = set_child d n (some p) (set_child (other d) p (s.child d n) s) in
    set_parent_color-root (blacken_at (s.child d n) (some p) s2) p (some n) red
    ∙ blacken_at-root s2 (s.child d n) (some p)

-- `if (node == tmp)`: `parent`, with the tree `b` on the side `d`, becomes the child of `node` on
-- that side and takes over its tree `a`
module _ (d : Side) (n p : ℕ) (s : Store) (a b : Tree)
    (unique : (k : ℕ)
      → (if k == n then 1 else 0) + ((if k == p then 1 else 0) + (count k a + count k b)) ≤ 1)
    (ta : IsTree s (some n) (s.child d n) a) (tb : IsTree s (some p) (s.child d p) b) where
  abbrev i1 : Store
  i1 = set_child (other d) p (s.child d n) s

  abbrev i2 : Store
  i2 = set_child d n (some p) i1

  abbrev i3 : Store
  i3 = blacken_at (s.child d n) (some p) i2

  abbrev i4 : Store
  i4 = set_parent_color p (some n) red i3

  i2-Agree : (k : ℕ) → k ≢ n → k ≢ p → Agree s i2 k
  i2-Agree k kn kp =
      Agree-trans s i1 i2 k (set_child-Agree s (other d) p (s.child d n) k kp)
        (set_child-Agree i1 d n (some p) k kn)

  not_n : (k : ℕ) → (0 < count k a) ⊎ (0 < count k b) → k ≢ n
  not_n k h e = let few = unique k in absurd (ground arith)

  not_p : (k : ℕ) → (0 < count k a) ⊎ (0 < count k b) → k ≢ p
  not_p k h e = let few = unique k in absurd (ground arith)

  p_not_n : p ≢ n
  p_not_n e = let few = unique p in absurd (ground arith)

  out : (k : ℕ) → (k ≡ n) ⊎ (k ≡ p) → count k a ≡ 0
  out k h = let few = unique k in ground arith

  a2 : IsTree i2 (some n) (s.child d n) a
  a2 =
      IsTree-cong s i2 (some n) (s.child d n) a
        (λ k h. i2-Agree k (not_n k (inl h)) (not_p k (inl h))) ta

  i3-Agree : (k : ℕ) → count k a ≡ 0 → Agree i2 i3 k
  i3-Agree k z = blacken_at-Agree i2 (some n) (s.child d n) (some p) a k a2 z

  i4-Agree : (k : ℕ) → k ≢ p → Agree i3 i4 k
  i4-Agree k ne = set_parent_color-Agree i3 p (some n) red k ne

  turn_Agree : (k : ℕ) → k ≢ n → k ≢ p → count k a ≡ 0 → Agree s i4 k
  turn_Agree k kn kp ka =
      Agree-trans s i2 i4 k (i2-Agree k kn kp)
        (Agree-trans i2 i3 i4 k (i3-Agree k ka) (i4-Agree k kp))

  kids : i4.child ≡ i2.child
  kids = set_parent_color-child i3 p (some n) red ∙ blacken_at-child i2 (s.child d n) (some p)

  a4 : IsTree i4 (some p) (s.child d n) (paint a)
  a4 =
      IsTree-cong i3 i4 (some p) (s.child d n) (paint a)
        (λ k h. i4-Agree k (not_p k (inl (rw (count-paint k a) at h))))
        (blacken_at-IsTree i2 (some n) (s.child d n) (some p) a (λ k. omega (arith, unique k)) a2)

  b4 : IsTree i4 (some p) (s.child d p) b
  b4 =
      IsTree-cong s i4 (some p) (s.child d p) b
        (λ k h. turn_Agree k (not_n k (inr h)) (not_p k (inr h)) (omega (arith, unique k))) tb

  pub turn_inner-Agree : (k : ℕ) → k ≢ n → k ≢ p → count k a ≡ 0 → Agree s (turn_inner d n p s) k
  unfolding turn_inner
  turn_inner-Agree = turn_Agree

  at_p : i4.child d p ≡ s.child d p
  at_p =
      rw kids
        ((set_child-Agree i1 d n (some p) p p_not_n).1 d ∙ set_child-opposite s d p p (s.child d n))

  at_p_other : i4.child (other d) p ≡ s.child d n
  at_p_other =
      rw kids (set_child-other i1 d n p (some p) ∙ set_child_self s (other d) p (s.child d n))

  at_n : i4.child d n ≡ some p
  at_n = rw kids (set_child_self i1 d n (some p))

  pub turn_inner-IsTree :
      IsTree
        (turn_inner d n p s)
        (some n)
        ((turn_inner d n p s).child d n)
        (join d red b p (paint a))
  unfolding turn_inner
  turn_inner-IsTree =
      IsTree-join i4 (some n) (i4.child d n) d red b p (paint a) at_n
        (set_parent_color_self i3 p (some n) red)
        (subst (λ q. IsTree i4 (some p) q b) (sym at_p) b4)
        (subst (λ q. IsTree i4 (some p) q (paint a)) (sym at_p_other) a4)

  pub turn_inner-child : (turn_inner d n p s).child (other d) n ≡ s.child (other d) n
  unfolding turn_inner
  turn_inner-child = rw kids (
      set_child-other i1 d n n (some p)
      ∙ (set_child-Agree s (other d) p (s.child d n) n (λ e. p_not_n (sym e))).1 (other d))
