-- ===== src/Sort/Shell/Laws.antt =====
-- ShellSort sorts: its last pass is InsertSort.
use mathlib.Core.List.Perm
use mzx.Base.{
  lt→ltb, ◌-◌, ◌/◌, ℕ, zero, suc, ◌+◌, ◌≤◌, ◌<◌, ◌≡◌, Bool, true, List, [], ◌∷◌, Perm, arith, leb,
  le→leb, leb→le, ltb, ltb→lt, not-ltb→le, ◌⊎◌, inl, inr, refl, Bool-cases,
}
use mzx.Array.{
  length, get_or, set, load-ok, store-ok, length-set, set-get_or, move-perm, length-perm,
}
use mzx.Order.{IsWeakOrder, IsSorted, SortedTo, IsSorted-SortedTo}
use mzx.Run.{Returns, returns, and_then, weaken, on_test}
use mzx.Sort.Insert.{insert_loop}
use mzx.Sort.Insert.Laws.{IsHoled, insert_loop-Inserted}
use mzx.Sort.Shell.{shell_insert, shell_pass, shell_gaps, shell_sort}

module _ {ℓ} {A : Type ℓ} (comp : A → A → Bool) (order : IsWeakOrder comp) (d : A) where
  -- with any gap the elements stay the same
  shell_insert-perm :
      (fuel gap k : ℕ) (tmp : A) (a : List A)
      → 0 < gap
      → k < fuel
      → k < length a
      → Returns (λ b. Perm b (set a k tmp)) (shell_insert comp fuel gap k tmp a)
  unfolding shell_insert
  shell_insert-perm zero gap k tmp a g f h = absurd (omega arith)
  shell_insert-perm (suc fuel) gap k tmp a g f h =
      on_test (leb gap k)
        (λ t.
          let le : gap ≤ k = leb→le gap k t in
          rw (load-ok d a (k - gap) (omega arith)) (
            on_test (comp tmp (get_or a (k - gap) d))
              (λ e. rw (store-ok a k (get_or a (k - gap) d) h) (
                weaken
                  (shell_insert-perm fuel gap (k - gap) tmp (set a k (get_or a (k - gap) d)) g
                    (omega arith) (omega (arith, length-set a k (get_or a (k - gap) d))))
                  λ b perm.
                    Perm.trans perm (move-perm d a k (k - gap) tmp h (omega arith) (omega arith))))
              (λ e. rw (store-ok a k tmp h) (returns Perm.rfl))))
        λ t. rw (store-ok a k tmp h) (returns Perm.rfl)

  -- with the gap 1 the inner loop is that of InsertSort
  shell_insert-insert_loop :
      (fuel k : ℕ) (tmp : A) (a : List A)
      → k < fuel
      → k < length a
      → shell_insert comp fuel 1 k tmp a ≡ insert_loop comp k tmp a
  unfolding shell_insert insert_loop
  shell_insert-insert_loop zero k tmp a f h = absurd (omega arith)
  shell_insert-insert_loop (suc fuel) zero tmp a f h = refl
  shell_insert-insert_loop (suc fuel) (suc k) tmp a f h =
      let test : leb 1 (suc k) ≡ true = le→leb 1 (suc k) (omega arith) in
      let back : suc k - 1 ≡ k = omega arith in
      let b = set a (suc k) (get_or a k d) in
      rw
        (
          test,
          back,
          load-ok d a k (omega arith),
          store-ok a (suc k) (get_or a k d) h,
          shell_insert-insert_loop fuel k tmp b (omega arith)
              (omega (arith, length-set a (suc k) (get_or a k d))),
        )
        refl

  shell_pass-perm :
      (rounds gap i : ℕ) (a : List A)
      → 0 < gap
      → i + rounds ≡ length a
      → Returns (λ b. Perm b a) (shell_pass comp rounds gap i a)
  unfolding shell_pass
  shell_pass-perm zero gap i a g e = returns Perm.rfl
  shell_pass-perm (suc rounds) gap i a g e = rw (load-ok d a i (omega arith)) (
      and_then (shell_insert-perm (suc i) gap i (get_or a i d) a g (omega arith) (omega arith))
        λ b perm.
          let same : Perm b a = rw (set-get_or d a i) at perm in
          weaken (shell_pass-perm rounds gap (suc i) b g (omega (arith, length-perm same)))
            λ c perm'. Perm.trans perm' same)

  shell_pass-IsSorted :
      (rounds i : ℕ) (a : List A)
      → i + rounds ≡ length a
      → 0 < i
      → SortedTo comp d i a
      → Returns (λ b. SortedTo comp d (length a) b × Perm b a) (shell_pass comp rounds 1 i a)
  unfolding shell_pass
  shell_pass-IsSorted zero i a e p s = returns (λ j k q r. s j k q (omega arith), Perm.rfl)
  shell_pass-IsSorted (suc rounds) i a e p s =
      let tmp = get_or a i d in
      let hole : IsHoled comp order d tmp i i a = record {
        sorted = λ j k q r t u. s j k q (omega arith);
        above = λ j q r. absurd (omega arith);
      } in
      rw
        (
          load-ok d a i (omega arith),
          shell_insert-insert_loop (suc i) i tmp a (omega arith) (omega arith),
        )
        (and_then (insert_loop-Inserted comp order d i tmp i a (omega arith) (omega arith) hole)
          λ b (sorted, perm).
            let same : Perm b a = rw (set-get_or d a i) at perm in
            let size = length-perm same in
            weaken (shell_pass-IsSorted rounds (suc i) b (omega arith) (omega arith) sorted)
              λ c (done, perm'). (rw (← size) done, Perm.trans perm' same))

  -- a pass with any gap, and with the gap 1
  shell_pass_lem :
      (gap : ℕ) (a : List A)
      → 0 < gap
      → gap ≤ length a
      → Returns
          (λ b. ((0 < gap / 2) ⊎ SortedTo comp d (length a) b) × Perm b a)
          (shell_pass comp (length a - gap) gap gap a)
  shell_pass_lem zero a p h = absurd (omega arith)
  shell_pass_lem (suc zero) a p h =
      weaken
        (shell_pass-IsSorted (length a - 1) 1 a (omega arith) (omega arith)
          λ i j q r. absurd (omega arith))
        λ b (sorted, perm). (inr sorted, perm)
  shell_pass_lem (suc (suc gap)) a p h =
      weaken
        (shell_pass-perm (length a - suc (suc gap)) (suc (suc gap)) (suc (suc gap)) a p
          (omega arith))
        λ b perm. (inl (omega arith), perm)

  shell_gaps-IsSorted :
      (fuel gap : ℕ) (a : List A)
      → gap < fuel
      → gap ≤ length a
      → (0 < gap) ⊎ SortedTo comp d (length a) a
      → Returns (λ b. SortedTo comp d (length a) b × Perm b a) (shell_gaps comp fuel gap a)
  unfolding shell_gaps
  shell_gaps-IsSorted zero gap a f h s = absurd (omega arith)
  shell_gaps-IsSorted (suc fuel) gap a f h s =
      on_test (ltb 0 gap)
        (λ t.
          let pos : 0 < gap = ltb→lt 0 gap t in
          and_then (shell_pass_lem gap a pos h) λ b (left, perm).
            let size = length-perm perm in
            weaken (shell_gaps-IsSorted fuel (gap / 2) b (omega arith) (omega arith) (rw size left))
              λ c (sorted, perm'). (rw (← size) sorted, Perm.trans perm' perm))
        λ t. returns (sorted_end (not-ltb→le 0 gap t) s, Perm.rfl)
    where
      sorted_end : gap ≤ 0 → (0 < gap) ⊎ SortedTo comp d (length a) a → SortedTo comp d (length a) a
      sorted_end z (inl p) = absurd (omega arith)
      sorted_end z (inr done) = done

module _ {ℓ} {A : Type ℓ} (comp : A → A → Bool) (order : IsWeakOrder comp) where
  -- With a comparison that is a strict weak order, ShellSort returns on every range that is not empty,
  -- and leaves the same elements in an order in which no later element goes before an earlier one.
  pub shell_sort_correct :
      (a : List A) → 0 < length a → Returns (λ b. IsSorted comp b × Perm b a) (shell_sort comp a)
  unfolding shell_sort
  shell_sort_correct [] h = absurd (omega arith)
  shell_sort_correct (x ∷ xs) h = rw (lt→ltb 0 _ h) (
      weaken
        (shell_gaps-IsSorted comp order x (suc (length (x ∷ xs))) (length (x ∷ xs) / 2) (x ∷ xs)
          (omega arith) (omega arith) start)
        λ b (s, perm). (IsSorted-SortedTo comp x (length (x ∷ xs)) b (length-perm perm) s, perm))
    where
      start : (0 < length (x ∷ xs) / 2) ⊎ SortedTo comp x (length (x ∷ xs)) (x ∷ xs)
      start = elim (Bool-cases (ltb 0 (length (x ∷ xs) / 2))) [
        | inl e ↦ inl (ltb→lt 0 _ e)
        | inr e ↦ inr λ i j p q. absurd (omega (arith, not-ltb→le 0 (length (x ∷ xs) / 2) e))
      ]
