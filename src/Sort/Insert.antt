-- ===== src/Sort/Insert.antt =====
-- include/mzx/algorithm/sort/insert_sort.h. Positions count from `begin`, and an access outside of
-- the range is a fault.
pub mod Laws
use mzx.Base.{ℕ, zero, suc, ◌-◌, Bool, List, ltb, if◌then◌else◌}
use mzx.Array.{length, load, store}
use mzx.Run.{Run, ok, ◌>>=◌, ◌>>◌, check}

module _ {ℓ} {A : Type ℓ} (comp : A → A → Bool) where
  -- the inner `for`, with `tmp` moved out and `iter_insert` at `k`
  unfoldable pub insert_loop : ℕ → A → List A → Run (List A)
  insert_loop zero tmp a = store a zero tmp
  insert_loop (suc k) tmp a = do
    y ← load a k
    let shift = store a (suc k) y >>= λ b. insert_loop k tmp b
    if comp tmp y then shift else store a (suc k) tmp

  -- the outer `for`, with `rounds` left and `iter` at `i`
  pub insert_rounds : ℕ → ℕ → List A → Run (List A)
  insert_rounds zero i a = ok a
  insert_rounds (suc rounds) i a = do
    tmp ← load a i
    b ← insert_loop i tmp a
    insert_rounds rounds (suc i) b

  -- InsertSort(begin, end, comp)
  unfoldable pub insert_sort : List A → Run (List A)
  unfolding insert_rounds insert_loop
  insert_sort a = check (ltb 0 (length a)) >> insert_rounds (length a - 1) 1 a
