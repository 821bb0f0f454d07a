-- ===== src/RbTree/Passes.antt =====
-- One pass of the insertion's loop, on the tree around the new node.
use mathlib.Core.Path.{subst}
use mzx.Base.{
  ℕ, suc, ◌+◌, ◌≤◌, ◌<◌, ◌≡◌, refl, true, false, Option, none, some, ◌∷◌, ◌==◌, if◌then◌else◌,
  arith, ◌∙◌, sym, ap,
}
use mzx.Run.{ok, Returns, returns}
use mzx.RbTree.Store.{Color, red, black, Side, other, Store, ParentColor, is_red_color, is_red}
use mzx.RbTree.Insert.{Round, again, stop, rotate, insert_round, insert_loop}
use mzx.RbTree.Shape.{
  Tree, node, join, Frame, Context, count, count-join, count_above, plug, IsTree, IsAround,
  IsTree-plug, above,
}
use mzx.RbTree.Writes.{paint}
use mzx.RbTree.Repair.{pick, turned, recolored, repair}
use mzx.RbTree.Rotate.{Holds, Apart, rotate_lem}
use mzx.RbTree.Rounds.{
  recolored_store, recolored-Holds, recolor-recolored_store, insert_round-recolor,
}
use mzx.RbTree.Around.{RootBlack, depth, Unique, join-node}

-- the loop at the red node `x` under `up` ends with the repaired tree
abbrev Result : ℕ → Context → Tree → ℕ → Tree → Store → Type 0
Result fuel up l x r s =
    Returns (λ (u : Store). IsTree u none u.root (repair up (node red l x r)))
      (insert_loop fuel x (above up) s)

abbrev pub Repairs : Context → Type 0
Repairs up =
    (fuel : ℕ) (l r : Tree) (x : ℕ) (s : Store)
    → depth up < fuel
    → RootBlack up
    → Unique up (node red l x r)
    → Holds s up x (node red l x r)
    → Result fuel up l x r s

-- a black parent
pub insert_loop-black :
    (f : Frame) (up : Context) (fuel : ℕ) (t : Tree) (x : ℕ) (s : Store)
    → is_red_color f.color ≡ false
    → IsAround s (f ∷ up) (some x)
    → IsTree s (some f.name) (some x) t
    → Returns
        (λ (u : Store). IsTree u none u.root (plug (f ∷ up) t))
        (insert_loop (suc fuel) x (some f.name) s)
unfolding insert_loop
insert_loop-black f up fuel t x s h around v =
    rw (around.1, h) (returns (IsTree-plug s (f ∷ up) (some x) t around v))

-- a red parent: the round's result decides
insert_loop-again :
    (fuel x p : ℕ) (s : Store) (y : ℕ) (q : Option ℕ) (t : Store)
    → is_red s p ≡ true
    → insert_round x p s ≡ ok (again y q t)
    → insert_loop (suc fuel) x (some p) s ≡ insert_loop fuel y q t
unfolding insert_loop
insert_loop-again fuel x p s y q t h e = rw (h, e) refl

insert_loop-stop :
    (fuel x p : ℕ) (s t : Store)
    → is_red s p ≡ true
    → insert_round x p s ≡ ok (stop t)
    → insert_loop (suc fuel) x (some p) s ≡ ok t
unfolding insert_loop
insert_loop-stop fuel x p s t h e = rw (h, e) refl

module _ (d e : Side) (c : Color) (p g x : ℕ) (l r b : Tree) (up : Context) (s : Store) where
  abbrev At : Tree → Type 0
  At u =
      IsAround s
        (record { side = d; color = red; name = p; sibling = b }
          ∷ record { side = e; color = c; name = g; sibling = u }
          ∷ up)
        (some x)

  abbrev Few : Tree → Type 0
  Few u =
      Unique
        (record { side = d; color = red; name = p; sibling = b }
          ∷ record { side = e; color = c; name = g; sibling = u }
          ∷ up)
        (node red l x r)

  red_p : (u : Tree) → At u → is_red s p ≡ true
  red_p u a = rw a.1 refl

  pub apart : (u : Tree) → Few u → Apart x p g l r b u up
  unfolding count count_above
  apart u few k = let n = few k in omega (arith, n)

  pub outside : (u : Tree) → Few u → count p u ≡ 0
  outside u few = let n = apart u few p in ground arith

  pub loop_rotate :
      (u : Tree) (fuel : ℕ)
      → Few u
      → At u
      → IsTree s (some p) (some x) (node red l x r)
      → insert_round x p s ≡ ok (stop (rotate e x p g s))
      → Returns
          (λ (v : Store). IsTree v none v.root (
            plug up (
              turned
                (record { side = d; color = red; name = p; sibling = b })
                (record { side = e; color = c; name = g; sibling = u })
                (node red l x r))))
          (insert_loop (suc fuel) x (some p) s)
  loop_rotate u fuel few a v h =
      let (n, (around, w)) =
        rotate_lem d e c p g x l r b u up s (apart u few) a.3.3 a.3.1 (rw a.0 v) a.2 a.3.2 in
      rw (insert_loop-stop fuel x p s (rotate e x p g s) (red_p u a) h)
        (returns (IsTree-plug (rotate e x p g s) up (some n) _ around w))

  with_y :
      (ul ur : Tree) (y : ℕ)
      → Few (node red ul y ur)
      → (k : ℕ)
      → (if k == p then 1 else 0)
          + ((if k == g then 1 else 0)
              + ((if k == y then 1 else 0)
                  + (count k (node red l x r)
                      + (count k b + (count k ul + (count k ur + count_above k up))))))
        ≤ 1
  unfolding count count_above
  with_y ul ur y few k = let n = few k in omega (arith, n)

  round_recolor :
      (ul ur : Tree) (y : ℕ)
      → Few (node red ul y ur)
      → At (node red ul y ur)
      → IsTree s (some p) (some x) (node red l x r)
      → (n : Store) × ((insert_round x p s ≡ ok (again g (above up) n))
          × Holds n up g (join e red (join d black (node red l x r) p b) g (node black ul y ur)))
  round_recolor ul ur y few a v =
      let apart' = with_y ul ur y few in
      let hang : IsTree s (some p) (s.child d p) (node red l x r) = rw a.0 v in
      (
        recolored_store d e c p g y (node red l x r) b ul ur up s apart' a.3.3 a.3.1 a.3.0 hang a.2
            a.3.2,
        (
          insert_round-recolor e x p g (node red ul y ur) s
                (ap (λ (pc : ParentColor). pc.parent) a.1) a.3.0 (outside (node red ul y ur) few)
                a.3.2 y a.3.2.0 (ap (λ (pc : ParentColor). is_red_color pc.color) a.3.2.1)
              ∙ ap (λ (o : Round). ok o)
                  (recolor-recolored_store d e c p g y (node red l x r) b ul ur up s apart' a.3.3
                    a.3.1 a.3.0 hang a.2 a.3.2),
          recolored-Holds d e c p g y (node red l x r) b ul ur up s apart' a.3.3 a.3.1 a.3.0 hang
              a.2 a.3.2,
        ),
      )

  Few-recolored :
      (ul ur : Tree) (y : ℕ)
      → Few (node red ul y ur)
      → Unique up (join e red (join d black (node red l x r) p b) g (node black ul y ur))
  unfolding count count_above
  Few-recolored ul ur y few k =
      let n = few k in
      omega (
        arith,
        n,
        count-join k e red (join d black (node red l x r) p b) g (node black ul y ur),
        count-join k d black (node red l x r) p b,
      )

  pub loop_recolor :
      (ul ur : Tree) (y fuel : ℕ)
      → Repairs up
      → depth up < fuel
      → RootBlack up
      → Few (node red ul y ur)
      → At (node red ul y ur)
      → IsTree s (some p) (some x) (node red l x r)
      → Returns
          (λ (v : Store). IsTree v none v.root (
            repair up (
              recolored
                (record { side = d; color = red; name = p; sibling = b })
                (record { side = e; color = c; name = g; sibling = node red ul y ur })
                (node red l x r))))
          (insert_loop (suc fuel) x (some p) s)
  unfolding paint
  loop_recolor ul ur y fuel ih enough top few a v =
      let (n, (h, after)) = round_recolor ul ur y few a v in
      let low = join d black (node red l x r) p b in
      let side = node black ul y ur in
      rw (insert_loop-again fuel x p s g (above up) n (red_p (node red ul y ur) a) h) (
        subst
          (λ (w : Tree).
            Returns (λ (v : Store). IsTree v none v.root (repair up w))
              (insert_loop fuel g (above up) n))
          (join-node e red low g side)
          (ih fuel (pick e low side) (pick (other e) low side) g n enough top
            (subst (Unique up) (sym (join-node e red low g side)) (Few-recolored ul ur y few))
            (subst (Holds n up g) (sym (join-node e red low g side)) after)))
