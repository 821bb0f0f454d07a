-- ===== src/Sort/Select.antt =====
-- include/mzx/algorithm/sort/select_sort.h. Positions count from `begin`.
pub mod Laws
use mzx.Base.{ℕ, zero, suc, ◌-◌, Bool, List, ltb, if◌then◌else◌}
use mzx.Array.{length, load, iter_swap}
use mzx.Run.{Run, ok, ◌>>=◌, ◌>>◌, check}

module _ {ℓ} {A : Type ℓ} (comp : A → A → Bool) where
  -- the inner `for`, with `rounds` left, `iter_tmp` at `j` and `iter_sel` at `sel`
  pub select_scan : ℕ → ℕ → ℕ → List A → Run ℕ
  select_scan zero j sel a = ok sel
  select_scan (suc rounds) j sel a = do
    x ← load a j
    y ← load a sel
    select_scan rounds (suc j) (if comp x y then j else sel) a

  -- the outer `for`, with `rounds` left and `iter` at `i`
  pub select_rounds : ℕ → ℕ → List A → Run (List A)
  select_rounds zero i a = ok a
  select_rounds (suc rounds) i a = do
    sel ← select_scan (suc rounds) (suc i) i a
    b ← iter_swap a i sel
    select_rounds rounds (suc i) b

  -- SelectSort(begin, end, comp)
  unfoldable pub select_sort : List A → Run (List A)
  unfolding select_rounds select_scan
  select_sort a = check (ltb 0 (length a)) >> select_rounds (length a - 1) 0 a
