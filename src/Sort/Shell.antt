-- ===== src/Sort/Shell.antt =====
-- include/mzx/algorithm/sort/shell_sort.h. Positions count from `begin`.
pub mod Laws
use mzx.Base.{ℕ, zero, suc, ◌-◌, ◌/◌, Bool, List, ltb, leb, if◌then◌else◌}
use mzx.Array.{length, load, store}
use mzx.Run.{Run, ok, out_of_fuel, ◌>>=◌, ◌>>◌, check}

module _ {ℓ} {A : Type ℓ} (comp : A → A → Bool) where
  -- the inner `for`, on fuel, with `tmp` moved out and `iter_insert` at `k`
  pub shell_insert : ℕ → ℕ → ℕ → A → List A → Run (List A)
  shell_insert zero gap k tmp a = out_of_fuel
  shell_insert (suc fuel) gap k tmp a =
      let step : Run (List A) = do
        y ← load a (k - gap)
        let shift = store a k y >>= λ b. shell_insert fuel gap (k - gap) tmp b
        if comp tmp y then shift else store a k tmp
      in if leb gap k then step else store a k tmp

  -- the `for` over the range, with `rounds` left and `iter` at `i`
  pub shell_pass : ℕ → ℕ → ℕ → List A → Run (List A)
  shell_pass zero gap i a = ok a
  shell_pass (suc rounds) gap i a = do
    tmp ← load a i
    b ← shell_insert (suc i) gap i tmp a
    shell_pass rounds gap (suc i) b

  -- the `for` over the gaps, on fuel
  pub shell_gaps : ℕ → ℕ → List A → Run (List A)
  shell_gaps zero gap a = out_of_fuel
  shell_gaps (suc fuel) gap a =
      let rest : Run (List A) =
        shell_pass (length a - gap) gap gap a >>= shell_gaps fuel (gap / 2) in
      if ltb 0 gap then rest else ok a

  -- ShellSort(begin, end, comp)
  unfoldable pub shell_sort : List A → Run (List A)
  unfolding shell_gaps shell_pass shell_insert
  shell_sort a = check (ltb 0 (length a)) >> shell_gaps (suc (length a)) (length a / 2) a
