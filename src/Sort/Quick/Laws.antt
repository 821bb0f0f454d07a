-- ===== src/Sort/Quick/Laws.antt =====
-- QuickSort sorts.
use mzx.Base.{
  ℕ, zero, suc, ◌-◌, ◌≤◌, ◌<◌, ◌≡◌, refl, Bool, false, List, [], ◌∷◌, Perm, arith, leb, inl, inr,
  leb→le, not-leb→lt, lt→ltb, ◌∙◌,
}
use mzx.Array.{length, get_or, set, load-ok, store-ok, get_or-set, length-set, set-get_or}
use mzx.Order.{IsWeakOrder, IsSorted, IsSorted-SortedTo}
use mzx.Run.{Returns, returns, and_then, weaken, on_test}
use mzx.Sort.Moves
use mzx.Sort.Moves.{Moves, AllIn}
use mzx.Sort.Quick.{quick_loop, quick_sort}
use mzx.Sort.Quick.Partition.{IsParted, partition-IsParted}

module _ {ℓ} {A : Type ℓ} (comp : A → A → Bool) (order : IsWeakOrder comp) (d : A) where
  abbrev SortedIn : ℕ → ℕ → List A → Type 0
  SortedIn lo hi a =
      (i j : ℕ) → lo ≤ i → i < j → j < hi → comp (get_or a j d) (get_or a i d) ≡ false

  abbrev Sorts : ℕ → ℕ → List A → List A → Type ℓ
  Sorts lo hi a b = Moves d lo hi a b × SortedIn lo hi b

  -- the two parts, each sorted in its place, on the two sides of `tmp` at `p`
  module _ (tmp : A) (lo p hi : ℕ) (c e f : List A) where
    parts-SortedIn :
        (bound : hi ≤ length c)
        → lo ≤ p
        → p < hi
        → get_or c p d ≡ tmp
        → AllIn d lo p (λ x. comp tmp x ≡ false) c
        → AllIn d (suc p) hi (λ x. comp x tmp ≡ false) c
        → Sorts lo p c e
        → Sorts (suc p) hi e f
        → SortedIn lo hi f
    parts-SortedIn bound lp ph at left right (m1, s1) (m2, s2) =
        let size : length e ≡ length c = Moves.Moves-length d m1 in
        let left_e = Moves.Moves-AllIn d (λ x. comp tmp x ≡ false) (omega arith) m1 left in
        let out1 = Moves.Moves-outside d (omega arith) m1 in
        let out2 = Moves.Moves-outside d (omega arith) m2 in
        let right_e : AllIn d (suc p) hi (λ x. comp x tmp ≡ false) e =
          λ i q r. rw (out1 i (inr (omega arith))) (right i q r) in
        let right_f = Moves.Moves-AllIn d (λ x. comp x tmp ≡ false) (omega arith) m2 right_e in
        let pivot : get_or f p d ≡ tmp =
          out2 p (inl (omega arith)) ∙ out1 p (inr (omega arith)) ∙ at in
        λ i j q lt r. ground (
          arith,
          out2 i,
          out2 j,
          pivot,
          s1 i j q lt,
          s2 i j,
          left_e i q,
          right_f j,
          order.trans (get_or f i d) tmp (get_or f j d),
          left_e j,
          right_f i,
        )

  quick_loop-Sorts :
      (fuel lo hi : ℕ) (a : List A)
      → hi - lo < fuel
      → lo ≤ hi
      → hi ≤ length a
      → Returns (Sorts lo hi a) (quick_loop comp fuel lo hi a)
  unfolding quick_loop
  quick_loop-Sorts zero lo hi a f h k = absurd (omega arith)
  quick_loop-Sorts (suc fuel) lo hi a f h k =
      on_test (leb (hi - lo) 1)
        (λ e. returns (Moves.same, λ i j q lt r. absurd (omega (arith, leb→le _ _ e))))
        λ e.
          let long : 1 < hi - lo = not-leb→lt _ _ e in
          let tmp = get_or a lo d in
          let start : IsParted comp order d a tmp lo hi lo (hi - 1) lo a = record {
            size = refl;
            bound = k;
            begin = omega arith;
            within = omega arith;
            end = omega arith;
            left = λ i q r. absurd (omega arith);
            right = λ j q r. absurd (omega arith);
            moves = rw (set-get_or d a lo) Moves.same;
          } in
          rw (load-ok d a lo (omega arith)) (
            and_then
              (partition-IsParted comp order d a tmp lo hi (hi - lo) lo (hi - 1) a (omega arith)
                start)
              λ (p, b) v.
                let hp : p < length b = omega (arith, v.size, v.bound, v.end) in
                let c = set b p tmp in
                let size : length c ≡ length a = length-set b p tmp ∙ v.size in
                let at = λ (i : ℕ). get_or-set d b p i tmp hp in
                rw (store-ok b p tmp hp) (
                  and_then
                    (quick_loop-Sorts fuel lo p c (omega (arith, v.end)) v.begin
                      (omega (arith, v.end)))
                    λ x s.
                      let size' : length x ≡ length c = Moves.Moves-length d s.0 in
                      weaken
                        (quick_loop-Sorts fuel (suc p) hi x (omega (arith, v.begin)) v.end
                          (omega arith))
                        λ y t. (
                          Moves.Moves-append d v.moves (
                              Moves.Moves-append d
                                (Moves.Moves-widen d (omega arith) (omega (arith, v.end)) s.0)
                                (Moves.Moves-widen d (omega (arith, v.begin)) (omega arith) t.0)),
                          parts-SortedIn tmp lo p hi c x y (omega arith) v.begin v.end
                              (ground (arith, at p)) (λ i q r. ground (arith, at i, v.left i q))
                              (λ i q r. ground (arith, at i, v.right i)) s t,
                        )))

module _ {ℓ} {A : Type ℓ} (comp : A → A → Bool) (order : IsWeakOrder comp) where
  -- With a comparison that is a strict weak order, QuickSort returns on every range that is not empty,
  -- and leaves the same elements in an order in which no later element goes before an earlier one.
  pub quick_sort_correct :
      (a : List A) → 0 < length a → Returns (λ b. IsSorted comp b × Perm b a) (quick_sort comp a)
  unfolding quick_sort
  quick_sort_correct [] h = absurd (omega arith)
  quick_sort_correct (x ∷ xs) h =
      let a = x ∷ xs in
      rw (lt→ltb 0 _ h) (
        weaken
          (quick_loop-Sorts comp order x (suc (length a)) 0 (length a) a (omega arith) (omega arith)
            (omega arith))
          λ b (moves, s). (
            IsSorted-SortedTo comp x (length a) b (Moves.Moves-length x moves)
                (λ i j p q. s i j (omega arith) p q),
            Moves.Moves-perm x (omega arith) moves,
          ))
