-- ===== src/RbTree/Inorder.antt =====
-- The nodes of a tree from left to right, which no repair changes.
use mathlib.Core.List.{append_assoc}
use mzx.Base.{ℕ, ◌≡◌, refl, ◌∙◌, ap, Bool, true, false, List, [], ◌∷◌, ◌++◌, if◌then◌else◌}
use mzx.RbTree.Store.{Color, red, black, Side, left, right, is_red_color}
use mzx.RbTree.Shape.{Tree, leaf, node, join, Frame, Context, plug}
use mzx.RbTree.Writes.{paint}
use mzx.RbTree.Repair.{red_root, turned, recolored, repair}

abbrev pub order : Tree → List ℕ
order leaf = []
order (node c l x r) = order l ++ x ∷ order r

order-paint : (t : Tree) → order (paint t) ≡ order t
unfolding paint
order-paint leaf = refl
order-paint (node c l x r) = refl

order-join :
    (d : Side) (c e : Color) (a u : Tree) (x : ℕ) (b : Tree)
    → order a ≡ order u
    → order (join d c a x b) ≡ order (join d e u x b)
order-join left c e a u x b h = ap (λ l. l ++ x ∷ order b) h
order-join right c e a u x b h = ap (λ l. order b ++ x ∷ l) h

order-sibling :
    (d : Side) (c e : Color) (a : Tree) (x : ℕ) (b u : Tree)
    → order b ≡ order u
    → order (join d c a x b) ≡ order (join d e a x u)
order-sibling left c e a x b u h = ap (λ l. order a ++ x ∷ l) h
order-sibling right c e a x b u h = ap (λ l. l ++ x ∷ order a) h

order-plug : (up : Context) (t u : Tree) → order t ≡ order u → order (plug up t) ≡ order (plug up u)
order-plug [] t u h = h
order-plug (f ∷ up) t u h =
    order-plug up (join f.side f.color t f.name f.sibling) (join f.side f.color u f.name f.sibling)
      (order-join f.side f.color f.color t u f.name f.sibling h)

order-turned :
    (d e : Side) (c cf : Color) (p g : ℕ) (b u l : Tree) (x : ℕ) (r : Tree)
    → order (
        turned
          (record { side = d; color = cf; name = p; sibling = b })
          (record { side = e; color = c; name = g; sibling = u })
          (node red l x r))
      ≡ order (join e c (join d cf (node red l x r) p b) g u)
order-turned left left c cf p g b u l x r = rw (order-paint b) (simp append_assoc refl)
order-turned left right c cf p g b u l x r =
    rw (order-paint l, order-paint r) (simp append_assoc refl)
order-turned right left c cf p g b u l x r =
    rw (order-paint l, order-paint r) (simp append_assoc refl)
order-turned right right c cf p g b u l x r = rw (order-paint b) (simp append_assoc refl)

order-recolored : (f g : Frame) (t : Tree) → order (recolored f g t) ≡ order (plug (f ∷ g ∷ []) t)
order-recolored f g t =
    let low = join f.side black t f.name f.sibling in
    order-join g.side red g.color low (join f.side f.color t f.name f.sibling) g.name
      (paint g.sibling) (order-join f.side black f.color t t f.name f.sibling refl)
    ∙ order-sibling g.side g.color g.color (join f.side f.color t f.name f.sibling) g.name
        (paint g.sibling) g.sibling (order-paint g.sibling)

red_join_order :
    (d : Side) (low : Tree) (g : ℕ) (u : Tree) (P : Tree → Type 0)
    → ((l : Tree) (x : ℕ) (r : Tree) → P (node red l x r))
    → P (join d red low g u)
red_join_order left low g u P h = h low g u
red_join_order right low g u P h = h u g low

pub order-repair :
    (up : Context) (l : Tree) (x : ℕ) (r : Tree)
    → order (repair up (node red l x r)) ≡ order (plug up (node red l x r))
unfolding repair
order-repair [] l x r = order-paint (node red l x r)
order-repair (f ∷ []) l x r = refl
order-repair (f ∷ g ∷ up) l x r =
    let t = node red l x r in
    either (is_red_color f.color) (red_root g.sibling)
      (red_join_order g.side (join f.side black t f.name f.sibling) g.name (paint g.sibling)
          (λ w. order (repair up w) ≡ order (plug up w)) (order-repair up)
        ∙ order-plug up (recolored f g t) (plug (f ∷ g ∷ []) t) (order-recolored f g t))
      (order-plug up (turned f g t) (plug (f ∷ g ∷ []) t)
        (order-turned f.side g.side g.color f.color f.name g.name f.sibling g.sibling l x r))
  where
    either :
        (p q : Bool)
        → order (repair up (recolored f g (node red l x r)))
          ≡ order (plug (f ∷ g ∷ up) (node red l x r))
        → order (plug up (turned f g (node red l x r))) ≡ order (plug (f ∷ g ∷ up) (node red l x r))
        → order (
            if p
            then (if q
                then repair up (recolored f g (node red l x r))
                else plug up (turned f g (node red l x r)))
            else plug (f ∷ g ∷ up) (node red l x r))
          ≡ order (plug (f ∷ g ∷ up) (node red l x r))
    either true true a b = a
    either true false a b = b
    either false q a b = refl
