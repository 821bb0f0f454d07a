-- ===== src/Sort/Heap.antt =====
-- include/mzx/algorithm/sort/heap_sort.h. Positions count from `begin`.
pub mod Adjust
pub mod Laws
use mzx.Base.{ℕ, zero, suc, ◌+◌, ◌-◌, ◌*◌, ◌/◌, ◌==◌, Bool, List, ltb, if◌then◌else◌}
use mzx.Array.{length, load, iter_swap}
use mzx.Run.{Run, ok, out_of_fuel, ◌>>=◌, ◌>>◌, check}

module _ {ℓ} {A : Type ℓ} (comp : A → A → Bool) where
  -- `if (child_idx < end - begin && comp(...)) swap_idx = child_idx;`
  pub larger : List A → ℕ → ℕ → ℕ → Run ℕ
  larger a n swap_idx child_idx =
      if ltb child_idx n
      then (do
        x ← load a swap_idx
        y ← load a child_idx
        ok (if comp x y then child_idx else swap_idx))
      else ok swap_idx

  -- __AdjustHeap(begin, begin + n, idx, comp), on fuel
  pub adjust_loop : ℕ → List A → ℕ → ℕ → Run (List A)
  adjust_loop zero a n idx = out_of_fuel
  adjust_loop (suc fuel) a n idx = do
    left ← larger a n idx (2 * idx + 1)
    swap_idx ← larger a n left (2 * idx + 2)
    let sink = iter_swap a swap_idx idx >>= λ b. adjust_loop fuel b n swap_idx
    if swap_idx == idx then ok a else sink

  -- the index doubles at least in each call, so that `n` calls are enough
  pub adjust_heap : List A → ℕ → ℕ → Run (List A)
  unfolding adjust_loop larger
  adjust_heap a n idx = adjust_loop (suc n) a n idx

  -- the first `for`, whose `i` runs from one below the argument down to 0
  pub build_rounds : ℕ → List A → Run (List A)
  build_rounds zero a = ok a
  build_rounds (suc i) a = adjust_heap a (length a) i >>= build_rounds i

  -- the second `for`, with `iter` at the argument
  pub take_rounds : ℕ → List A → Run (List A)
  take_rounds zero a = ok a
  take_rounds (suc i) a = do b ← iter_swap a (suc i) 0; c ← adjust_heap b (suc i) 0; take_rounds i c

  -- HeapSort(begin, end, comp)
  unfoldable pub heap_sort : List A → Run (List A)
  unfolding take_rounds build_rounds adjust_heap
  heap_sort a =
      check (ltb 0 (length a))
      >> (build_rounds (suc ((length a - 1) / 2)) a >>= λ b. take_rounds (length a - 1) b)
