-- ===== src/SafeList/Split.antt =====
-- The place of a node in the list, before and after a call that may free it.
use mathlib.Core.List.{append_assoc}
use mathlib.Core.Path.{subst}
use mzx.Base.{
  ℕ, ◌≤◌, ◌<◌, ◌≡◌, refl, sym, ap, ◌∙◌, true, List, [], ◌∷◌, ◌++◌, ◌==◌, arith, inl, inr,
}
use mzx.SafeList.{SafeList, remove, next_in, first}
use mzx.SafeList.Laws.{
  count_in, count_in-append, count_in-remove, KeepsOthers, IsCounted, ref_of_node,
}

pub next_in_split : (n : ℕ) (a b : List ℕ) → count_in n a ≡ 0 → next_in n (a ++ n ∷ b) ≡ first b
next_in_split n [] [] z = ground arith
next_in_split n [] (x ∷ b) z = ground arith
next_in_split n (y ∷ []) b z = let h = next_in_split n [] b refl in ground (arith, h, z)
next_in_split n (y ∷ x ∷ a) b z = let h = next_in_split n (x ∷ a) b in ground (arith, h, z)

remove_absent : (n : ℕ) (a : List ℕ) → count_in n a ≡ 0 → remove n a ≡ a
remove_absent n [] z = refl
remove_absent n (x ∷ a) z = let h = remove_absent n a in ground (arith, h)

remove_split : (n : ℕ) (a b : List ℕ) → count_in n (a ++ n ∷ b) ≤ 1 → remove n (a ++ n ∷ b) ≡ a ++ b
remove_split n [] b one = let h = remove_absent n b in ground (arith, h)
remove_split n (x ∷ a) b one =
    let h = remove_split n a b in let c = count_in-append n a (n ∷ b) in ground (arith, h, c)

-- the nodes behind `n`, and those before, after a call that may free `n`
pub split_after :
    (n : ℕ) (a b l t : List ℕ)
    → l ≡ a ++ n ∷ b
    → count_in n l ≤ 1
    → KeepsOthers n l t
    → (c : List ℕ) × (t ≡ c ++ b)
split_after n a b l t e one (inl h) = (a ++ n ∷ [], h ∙ e ∙ sym (append_assoc a (n ∷ []) b))
split_after n a b l t e one (inr h) =
    (a, h ∙ ap (remove n) e ∙ remove_split n a b (subst (λ x. count_in n x ≤ 1) e one))

module _ {ℓ} {D : Type ℓ} where
  -- a node of the list, its place, and the node after it
  pub at_node :
      (s : SafeList D) (held : List ℕ) (n : ℕ) (a b : List ℕ)
      → IsCounted s held
      → s.nodes ≡ a ++ n ∷ b
      → (0 < s.ref_count n) × (count_in n s.nodes ≤ 1) × (next_in n s.nodes ≡ first b)
  at_node s held n a b w e =
      let l = w.listed n in
      let c = ap (count_in n) e ∙ count_in-append n a (n ∷ b) in
      let hit : (n == n) ≡ true = ground arith in
      let one : count_in n s.nodes ≤ 1 = ground (arith, l) in
      let there : 0 < count_in n s.nodes = ground (arith, c, hit) in
      (
        ref_of_node s held n w there,
        one,
        ap (next_in n) e ∙ next_in_split n a b (ground (arith, c, hit, one)),
      )

  -- a node that is held stays
  pub held-KeepsOthers :
      (s t : SafeList D) (held : List ℕ) (n : ℕ)
      → IsCounted t (n ∷ held)
      → KeepsOthers n s.nodes t.nodes
      → t.nodes ≡ s.nodes
  held-KeepsOthers s t held n w (inl e) = e
  held-KeepsOthers s t held n w (inr e) =
      let q = ap (count_in n) e ∙ count_in-remove n n s.nodes in
      let l = w.listed n in
      let c = w.counted n in
      let hit : (n == n) ≡ true = ground arith in absurd (ground (arith, q, l, c, hit))
