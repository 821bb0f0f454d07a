-- ===== src/Sort/Heap/Laws.antt =====
-- HeapSort sorts.
use mathlib.Core.List.Perm
use mzx.Base.{
  ℕ, zero, suc, ◌-◌, ◌/◌, ◌≤◌, ◌<◌, ◌≡◌, Bool, false, refl, List, [], ◌∷◌, Perm, arith, lt→ltb,
}
use mzx.Array.{
  length, get_or, iter_swap-ok, swapped, get_or-swapped, length-swapped, swapped-perm, length-perm,
}
use mzx.Order.{IsWeakOrder, IsSorted, IsSorted-SortedTo}
use mzx.Run.{Returns, returns, and_then, weaken}
use mzx.Sort.Heap.{build_rounds, take_rounds, heap_sort}
use mzx.Sort.Heap.Adjust.{parent, irrefl, IsHeapFrom, IsSinking, IsTaken, adjust_heap-Sifted}

module _ {ℓ} {A : Type ℓ} (comp : A → A → Bool) (order : IsWeakOrder comp) (d : A) where
  build_rounds-IsHeapFrom :
      (i : ℕ) (a : List A)
      → i ≤ length a
      → IsHeapFrom comp order d i (length a) a
      → Returns (λ b. IsHeapFrom comp order d 0 (length a) b × Perm b a) (build_rounds comp i a)
  unfolding build_rounds
  build_rounds-IsHeapFrom zero a h v = returns (v, Perm.rfl)
  build_rounds-IsHeapFrom (suc i) a h v =
      let start : IsSinking comp order d i (length a) i a = record {
        edges = λ c p q r s. v c p q (omega arith);
        bridged = λ c p q r s t. absurd (omega arith);
      } in
      and_then
        (adjust_heap-Sifted comp order d i (length a) i a (omega arith) (omega arith) (omega arith)
          start)
        λ b (heap, perm, keep).
          let size = length-perm perm in
          weaken (build_rounds-IsHeapFrom i b (omega arith) (rw size heap))
            λ c (heap', perm'). (rw (← size) heap', Perm.trans perm' perm)

  -- the root of a heap goes after all of it, or is equivalent
  root_last :
      (k n c : ℕ) (a : List A)
      → IsHeapFrom comp order d 0 n a
      → c < k
      → c < n
      → comp (get_or a 0 d) (get_or a c d) ≡ false
  root_last zero n c a v f h = absurd (omega arith)
  root_last (suc k) n zero a v f h = irrefl comp order d (get_or a 0 d)
  root_last (suc k) n (suc c) a v f h =
      let up = parent (suc c) in
      order.trans (get_or a (suc c) d) (get_or a up d) (get_or a 0 d)
        (v (suc c) (omega arith) h (omega arith)) (root_last k n up a v (omega arith) (omega arith))

  IsSinking-take :
      (i : ℕ) (a : List A)
      → suc (suc i) ≤ length a
      → IsHeapFrom comp order d 0 (suc (suc i)) a
      → IsSinking comp order d 0 (suc i) 0 (swapped d a (suc i) 0)
  IsSinking-take i a h v =
      let at = get_or-swapped d a (suc i) 0 h (omega arith) in
      record {
        edges = λ c p q r s. ground (arith, at c, at (parent c), v c p);
        bridged = λ c p q r s t. absurd (omega arith);
      }

  IsTaken-take :
      (i : ℕ) (a : List A)
      → suc (suc i) ≤ length a
      → IsHeapFrom comp order d 0 (suc (suc i)) a
      → IsTaken comp order d (suc (suc i)) a
      → IsTaken comp order d (suc i) (swapped d a (suc i) 0)
  IsTaken-take i a h v t p q lt np qn =
      let at = get_or-swapped d a (suc i) 0 h (omega arith) in
      let size = length-swapped d a (suc i) 0 in
      let root = λ (c : ℕ). root_last (suc c) (suc (suc i)) c a v (omega arith) in
      ground (arith, size, at p, at q, root p, root (suc i), t p q lt, t 0 q, t (suc i) q)

  take_rounds-IsTaken :
      (i : ℕ) (a : List A)
      → suc i ≤ length a
      → IsHeapFrom comp order d 0 (suc i) a
      → IsTaken comp order d (suc i) a
      → Returns (λ b. IsTaken comp order d 1 b × Perm b a) (take_rounds comp i a)
  unfolding take_rounds
  take_rounds-IsTaken zero a h v t = returns (t, Perm.rfl)
  take_rounds-IsTaken (suc i) a h v t =
      let size = length-swapped d a (suc i) 0 in
      rw (iter_swap-ok d a (suc i) 0 h (omega arith)) (
        and_then
          (adjust_heap-Sifted comp order d 0 (suc i) 0 (swapped d a (suc i) 0) (omega arith)
            (omega arith) (omega arith) (IsSinking-take i a h v))
          λ b (heap, perm, keep).
            weaken
              (take_rounds-IsTaken i b (omega (arith, length-perm perm)) heap
                (keep (IsTaken-take i a h v t)))
              λ c (done, perm'). (
                done,
                Perm.trans perm' (Perm.trans perm (swapped-perm d a (suc i) 0 h (omega arith))),
              ))

module _ {ℓ} {A : Type ℓ} (comp : A → A → Bool) (order : IsWeakOrder comp) where
  -- With a comparison that is a strict weak order, HeapSort returns on every range that is not empty,
  -- and leaves the same elements in an order in which no later element goes before an earlier one.
  pub heap_sort_correct :
      (a : List A) → 0 < length a → Returns (λ b. IsSorted comp b × Perm b a) (heap_sort comp a)
  unfolding heap_sort
  heap_sort_correct [] h = absurd (omega arith)
  heap_sort_correct (x ∷ xs) h =
      let a = x ∷ xs in
      rw (lt→ltb 0 _ h) (
        and_then
          (build_rounds-IsHeapFrom comp order x (suc ((length a - 1) / 2)) a (omega arith)
            λ c p q r. absurd (omega arith))
          λ b (heap, perm).
            let size = length-perm perm in
            let last : suc (length a - 1) ≡ length a = omega arith in
            weaken
              (take_rounds-IsTaken comp order x (length a - 1) b (omega arith) (rw last heap)
                λ i j p q r. absurd (omega arith))
              λ c (done, perm'). (
                IsSorted-SortedTo comp x (length c) c refl (λ i j p q. done i j p (omega arith) q),
                Perm.trans perm' perm,
              ))
