-- ===== src/RbTree/Rounds.antt =====
-- A round of the insertion's loop, on the tree around the new node.
use mathlib.Core.Path.{subst}
use mzx.Base.{
  ℕ, ◌+◌, ◌≤◌, ◌<◌, ◌≡◌, ◌≢◌, refl, true, false, Option, none, some, ◌==◌, if◌then◌else◌, arith,
  ◌∙◌, inl, inr, sym, ◌⊎◌, ap,
}
use mzx.Run.{ok}
use mzx.RbTree.Store.{
  Color, red, black, Side, left, right, other, same, Store, ParentColor, set_parent_color,
  parent_of, is_red,
}
use mzx.RbTree.Insert.{again, stop, recolor, rotate, insert_side, insert_round}
use mzx.RbTree.Shape.{
  Tree, node, join, Context, count, count_above, IsTree, IsAround, IsTree-cong, IsAround-cong,
  IsTree-join, Agree, above,
}
use mzx.RbTree.Writes.{
  Agree-trans, set_parent_color-Agree, set_parent_color-IsTree, set_parent_color-child,
  set_parent_color-root, set_parent_color_self,
}
use mzx.RbTree.Rotate.{not_root, Holds}

third :
    (y p g n : ℕ)
    → (if y == p then 1 else 0) + ((if y == g then 1 else 0) + ((if y == y then 1 else 0) + n)) ≤ 1
    → y ≢ g
third y p g n few q = absurd (ground arith)

-- a red uncle and parent: `t` hangs on the side `d` of `p`, and `p` on the side `e` of `g`
module _ (d e : Side) (c : Color) (p g y : ℕ) (t b ul ur : Tree) (up : Context) (s : Store)
    (apart : (k : ℕ)
      → (if k == p then 1 else 0)
          + ((if k == g then 1 else 0)
              + ((if k == y then 1 else 0)
                  + (count k t + (count k b + (count k ul + (count k ur + count_above k up))))))
        ≤ 1)
    (around : IsAround s up (some g))
    (at_g : s.parent_color g ≡ record { parent = above up; color = c })
    (p_at : s.child e g ≡ some p) (tt_ : IsTree s (some p) (s.child d p) t)
    (tb : IsTree s (some p) (s.child (other d) p) b)
    (tu : IsTree s (some g) (s.child (other e) g) (node red ul y ur)) where
  abbrev r1 : Store
  r1 = set_parent_color y (some g) black s

  abbrev r2 : Store
  r2 = set_parent_color p (some g) black r1

  abbrev pub recolored_store : Store
  recolored_store = set_parent_color g (above up) red r2

  abbrev Held : ℕ → Type 0
  Held k =
      (0 < count k t)
      ⊎ ((0 < count k b) ⊎ ((0 < count k ul) ⊎ ((0 < count k ur) ⊎ (0 < count_above k up))))

  not_y : (k : ℕ) → Held k → k ≢ y
  not_y k h q = let few = apart k in absurd (ground arith)

  not_p : (k : ℕ) → Held k → k ≢ p
  not_p k h q = let few = apart k in absurd (ground arith)

  not_g : (k : ℕ) → Held k → k ≢ g
  not_g k h q = let few = apart k in absurd (ground arith)

  p_not_g : p ≢ g
  p_not_g q = let few = apart p in absurd (ground arith)

  y_not_g : y ≢ g
  y_not_g =
      third y p g (count y t + (count y b + (count y ul + (count y ur + count_above y up))))
        (apart y)

  after1 : (k : ℕ) → k ≢ p → k ≢ g → Agree r1 recolored_store k
  after1 k kp kg =
      Agree-trans r1 r2 recolored_store k (set_parent_color-Agree r1 p (some g) black k kp)
        (set_parent_color-Agree r2 g (above up) red k kg)

  agree : (k : ℕ) → Held k → Agree s recolored_store k
  agree k h =
      Agree-trans s r1 recolored_store k (set_parent_color-Agree s y (some g) black k (not_y k h))
        (after1 k (not_p k h) (not_g k h))

  kids : recolored_store.child ≡ s.child
  kids =
      set_parent_color-child r2 g (above up) red
      ∙ (set_parent_color-child r1 p (some g) black ∙ set_parent_color-child s y (some g) black)

  kid : (f : Side) (k : ℕ) → recolored_store.child f k ≡ s.child f k
  kid f k = ap (λ (h : Side → ℕ → Option ℕ). h f k) kids

  uncle : IsTree recolored_store (some g) (s.child (other e) g) (node black ul y ur)
  unfolding count
  uncle =
      let v : IsTree s (some g) (some y) (node red ul y ur) = (refl, tu.1, tu.2, tu.3) in
      let one =
        set_parent_color-IsTree s (some g) (some g) red black ul y ur
          (λ k. let few = apart k in ground arith) v in
      subst (λ q. IsTree recolored_store (some g) q (node black ul y ur)) (sym tu.0)
        (IsTree-cong r1 recolored_store (some g) (some y) (node black ul y ur)
          (λ k h. after1 k (in_u k h (apart k)).0 (in_u k h (apart k)).1) one)
    where
      in_u :
          (k : ℕ)
          → 0 < count k (node black ul y ur)
          → (if k == p then 1 else 0)
              + ((if k == g then 1 else 0)
                  + ((if k == y then 1 else 0)
                      + (count k t + (count k b + (count k ul + (count k ur + count_above k up))))))
            ≤ 1
          → (k ≢ p) × (k ≢ g)
      in_u k h few = (λ q. absurd (ground arith), λ q. absurd (ground arith))

  at_p : recolored_store.parent_color p ≡ record { parent = some g; color = black }
  at_p =
      (set_parent_color-Agree r2 g (above up) red p p_not_g).0
      ∙ set_parent_color_self r1 p (some g) black

  pub recolored-Holds :
      Holds recolored_store up g (join e red (join d black t p b) g (node black ul y ur))
  recolored-Holds = (
    IsAround-cong s recolored_store up (some g) (λ k h. agree k (inr (inr (inr (inr h)))))
        (set_parent_color-root r2 g (above up) red
          ∙ (set_parent_color-root r1 p (some g) black ∙ set_parent_color-root s y (some g) black))
        around,
    IsTree-join recolored_store (above up) (some g) e red (join d black t p b) g
        (node black ul y ur) refl (set_parent_color_self r2 g (above up) red)
        (subst (λ q. IsTree recolored_store (some g) q (join d black t p b)) (sym (kid e g ∙ p_at))
          (IsTree-join recolored_store (some g) (some p) d black t p b refl at_p
            (subst (λ q. IsTree recolored_store (some p) q t) (sym (kid d p))
              (IsTree-cong s recolored_store (some p) (s.child d p) t (λ k h. agree k (inl h)) tt_))
            (subst (λ q. IsTree recolored_store (some p) q b) (sym (kid (other d) p))
              (IsTree-cong s recolored_store (some p) (s.child (other d) p) b
                (λ k h. agree k (inr (inl h))) tb))))
        (subst (λ q. IsTree recolored_store (some g) q (node black ul y ur)) (sym (kid (other e) g))
          uncle),
  )

  pub recolor-recolored_store : recolor y p g s ≡ again g (above up) recolored_store
  unfolding recolor
  recolor-recolored_store =
      ap (λ (q : Option ℕ). again g q (set_parent_color g q red r2))
        (ap (λ (pc : ParentColor). pc.parent)
          ((set_parent_color-Agree r1 p (some g) black g (λ q. p_not_g (sym q))).0
            ∙ ((set_parent_color-Agree s y (some g) black g (λ q. y_not_g (sym q))).0 ∙ at_g)))

-- the side of `g` that the round computes
side_found :
    (e : Side) (p g : ℕ) (u : Tree) (s : Store)
    → s.child e g ≡ some p
    → count p u ≡ 0
    → IsTree s (some g) (s.child (other e) g) u
    → (if same (some p) (s.child right g) then right else left) ≡ e
side_found right p g u s p_at out tu =
    let hit : same (some p) (s.child right g) ≡ true = rw p_at (ground arith) in rw hit refl
side_found left p g u s p_at out tu = rw (not_root s (some g) (s.child right g) u p tu out) refl

-- which branch a round takes
module _ (e : Side) (x p g : ℕ) (u : Tree) (s : Store) (parent : parent_of s p ≡ some g)
    (p_at : s.child e g ≡ some p) (out : count p u ≡ 0)
    (tu : IsTree s (some g) (s.child (other e) g) u) where
  at_side :
      (q : Option ℕ) → s.child (other e) g ≡ q → insert_round x p s ≡ ok (insert_side q e x p g s)
  unfolding insert_round
  at_side q h = rw parent (
      ap (λ (d : Side). ok (insert_side (s.child (other d) g) d x p g s))
        (side_found e p g u s p_at out tu)
      ∙ ap (λ (o : Option ℕ). ok (insert_side o e x p g s)) h)

  pub insert_round-recolor :
      (y : ℕ)
      → s.child (other e) g ≡ some y
      → is_red s y ≡ true
      → insert_round x p s ≡ ok (recolor y p g s)
  unfolding insert_side
  insert_round-recolor y q h = at_side (some y) q ∙ (rw h refl)

  pub insert_round-none :
      s.child (other e) g ≡ none → insert_round x p s ≡ ok (stop (rotate e x p g s))
  unfolding insert_side
  insert_round-none h = at_side none h

  pub insert_round-black :
      (y : ℕ)
      → s.child (other e) g ≡ some y
      → is_red s y ≡ false
      → insert_round x p s ≡ ok (stop (rotate e x p g s))
  unfolding insert_side
  insert_round-black y q h = at_side (some y) q ∙ (rw h refl)
