-- ===== src/Sort/Buddle.antt =====
-- include/mzx/algorithm/sort/buddle_sort.h. Positions count from `begin`.
pub mod Laws
use mzx.Base.{ℕ, zero, suc, ◌-◌, ◌==◌, Bool, List, ltb, if◌then◌else◌}
use mzx.Array.{length, load, iter_swap}
use mzx.Run.{Run, ok, ◌>>=◌, ◌>>◌, check}

module _ {ℓ} {A : Type ℓ} (comp : A → A → Bool) where
  -- the inner `for`, with `rounds` left, `iter` at `q` and `iter_tmp` at `t`
  pub buddle_pass : ℕ → ℕ → ℕ → List A → Run (ℕ × List A)
  buddle_pass zero q t a = ok (t, a)
  buddle_pass (suc rounds) q t a = do
    x ← load a (suc q)
    y ← load a q
    b ← if comp x y then iter_swap a (suc q) q else ok a
    buddle_pass rounds (suc q) (if comp x y then q else t) b

  -- the outer `for`, with `rounds` left; the pass ends at `iter_flag`, where `iter_tmp` was
  pub buddle_rounds : ℕ → ℕ → List A → Run (List A)
  buddle_rounds zero t a = ok a
  buddle_rounds (suc rounds) t a = do
    (t', b) ← buddle_pass t 0 t a
    let rest = buddle_rounds rounds t' b
    if t' == 0 then ok b else rest

  -- BuddleSort(begin, end, comp)
  unfoldable pub buddle_sort : List A → Run (List A)
  unfolding buddle_rounds buddle_pass
  buddle_sort a = check (ltb 0 (length a)) >> buddle_rounds (length a - 1) (length a - 1) a
