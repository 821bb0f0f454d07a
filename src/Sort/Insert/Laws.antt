-- ===== src/Sort/Insert/Laws.antt =====
-- InsertSort sorts.
use mathlib.Core.List.Perm
use mzx.Base.{
  lt→ltb, ◌-◌, ℕ, zero, suc, ◌+◌, ◌≤◌, ◌<◌, ◌≡◌, ◌≢◌, Bool, true, false, List, [], ◌∷◌, Perm, arith,
}
use mzx.Array.{
  length, get_or, set, load-ok, store-ok, get_or-set, length-set, set-get_or, move-perm,
  length-perm,
}
use mzx.Order.{IsWeakOrder, IsSorted, SortedTo, IsSorted-SortedTo}
use mzx.Run.{Returns, returns, and_then, weaken, on_test}
use mzx.Sort.Insert.{insert_loop, insert_rounds, insert_sort}

module _ {ℓ} {A : Type ℓ} (comp : A → A → Bool) (order : IsWeakOrder comp) (d : A) where
  -- `a` has a hole at `k`: all else up to `m` is sorted, and `tmp` belongs before what lies past `k`
  pub record IsHoled (tmp : A) (k m : ℕ) (a : List A) : Type 0 where
    pub sorted :
        (i j : ℕ) → i < j → j ≤ m → i ≢ k → j ≢ k → comp (get_or a j d) (get_or a i d) ≡ false
    pub above : (j : ℕ) → k < j → j ≤ m → comp (get_or a j d) tmp ≡ false

  shift-IsHoled :
      (tmp : A) (k m : ℕ) (a : List A)
      → suc k < length a
      → comp tmp (get_or a k d) ≡ true
      → suc k ≤ m
      → IsHoled tmp (suc k) m a
      → IsHoled tmp k m (set a (suc k) (get_or a k d))
  shift-IsHoled tmp k m a h less km inv =
      let at = λ (j : ℕ). get_or-set d a (suc k) j (get_or a k d) h in
      record {
        sorted = λ i j p q r s.
            ground (arith, at i, at j, inv.sorted i j, inv.sorted i k, inv.sorted k j);
        above = λ j p q. ground (arith, at j, inv.above j, order.asymm tmp (get_or a k d));
      }

  settle-SortedTo :
      (tmp : A) (k m : ℕ) (a : List A)
      → k < length a
      → ((i : ℕ) → i < k → comp tmp (get_or a i d) ≡ false)
      → IsHoled tmp k m a
      → SortedTo comp d (suc m) (set a k tmp)
  settle-SortedTo tmp k m a h below inv i j p q = ground (
    arith,
    get_or-set d a k i tmp h,
    get_or-set d a k j tmp h,
    inv.sorted i j,
    inv.above j,
    below i,
  )

  below_of_last :
      (tmp : A) (k m : ℕ) (a : List A)
      → suc k ≤ m
      → comp tmp (get_or a k d) ≡ false
      → IsHoled tmp (suc k) m a
      → (i : ℕ) → i < suc k
      → comp tmp (get_or a i d) ≡ false
  below_of_last tmp k m a km e inv i p =
      ground (arith, inv.sorted i k, order.trans (get_or a i d) (get_or a k d) tmp)

  abbrev pub Inserted : A → ℕ → ℕ → List A → List A → Type ℓ
  Inserted tmp k m a b = SortedTo comp d (suc m) b × Perm b (set a k tmp)

  pub insert_loop-Inserted :
      (k : ℕ) (tmp : A) (m : ℕ) (a : List A)
      → k ≤ m
      → m < length a
      → IsHoled tmp k m a
      → Returns (Inserted tmp k m a) (insert_loop comp k tmp a)
  unfolding insert_loop
  insert_loop-Inserted zero tmp m a km h inv = rw (store-ok a zero tmp (omega arith)) (
      returns
        (settle-SortedTo tmp zero m a (omega arith) (λ i p. absurd (omega arith)) inv, Perm.rfl))
  insert_loop-Inserted (suc k) tmp m a km h inv = rw (load-ok d a k (omega arith)) (
      on_test (comp tmp (get_or a k d))
        (λ e. rw (store-ok a (suc k) (get_or a k d) (omega arith)) (
          weaken
            (insert_loop-Inserted k tmp m (set a (suc k) (get_or a k d)) (omega arith)
              (omega (arith, length-set a (suc k) (get_or a k d)))
              (shift-IsHoled tmp k m a (omega arith) e km inv))
            λ b (sorted, perm). (
              sorted,
              Perm.trans perm
                  (move-perm d a (suc k) k tmp (omega arith) (omega arith) (omega arith)),
            )))
        (λ e. rw (store-ok a (suc k) tmp (omega arith)) (
          returns (
            settle-SortedTo tmp (suc k) m a (omega arith) (below_of_last tmp k m a km e inv) inv,
            Perm.rfl,
          ))))

  insert_rounds-IsSorted :
      (rounds i : ℕ) (a : List A)
      → i + rounds ≡ length a
      → 0 < i
      → SortedTo comp d i a
      → Returns (λ b. SortedTo comp d (length a) b × Perm b a) (insert_rounds comp rounds i a)
  unfolding insert_rounds
  insert_rounds-IsSorted zero i a e p s = returns (λ j k q r. s j k q (omega arith), Perm.rfl)
  insert_rounds-IsSorted (suc rounds) i a e p s =
      let tmp = get_or a i d in
      let hole : IsHoled tmp i i a = record {
        sorted = λ j k q r t u. s j k q (omega arith);
        above = λ j q r. absurd (omega arith);
      } in
      rw (load-ok d a i (omega arith)) (
        and_then (insert_loop-Inserted i tmp i a (omega arith) (omega arith) hole)
          λ b (sorted, perm).
            let same : Perm b a = rw (set-get_or d a i) at perm in
            let size = length-perm same in
            weaken (insert_rounds-IsSorted rounds (suc i) b (omega arith) (omega arith) sorted)
              λ c (done, perm'). (rw (← size) done, Perm.trans perm' same))

module _ {ℓ} {A : Type ℓ} (comp : A → A → Bool) (order : IsWeakOrder comp) where
  -- With a comparison that is a strict weak order, InsertSort returns on every range that is not empty,
  -- and leaves the same elements in an order in which no later element goes before an earlier one.
  pub insert_sort_correct :
      (a : List A) → 0 < length a → Returns (λ b. IsSorted comp b × Perm b a) (insert_sort comp a)
  unfolding insert_sort
  insert_sort_correct [] h = absurd (omega arith)
  insert_sort_correct (x ∷ xs) h = rw (lt→ltb 0 _ h) (
      weaken
        (insert_rounds-IsSorted comp order x (length (x ∷ xs) - 1) 1 (x ∷ xs) (omega arith)
          (omega arith) λ i j p q. absurd (omega arith))
        λ b (s, perm). (IsSorted-SortedTo comp x (length (x ∷ xs)) b (length-perm perm) s, perm))
