-- ===== src/Sort/Quick.antt =====
-- include/mzx/algorithm/sort/quick_sort.h. Positions count from the `begin` of the whole range; a
-- moved-from element keeps its value in the model, and no result depends on it.
pub mod Partition
pub mod Laws
use mzx.Base.{ℕ, zero, suc, ◌+◌, ◌-◌, Bool, ◌&&◌, List, ltb, leb, if◌then◌else◌}
use mzx.Array.{length, load, store}
use mzx.Run.{Run, ok, out_of_fuel, ◌>>=◌, ◌>>◌, check}

module _ {ℓ} {A : Type ℓ} where
  -- `if (iter_first < iter_last) *iter_first++ = std::move(*iter_last);`
  pub move_down : ℕ → ℕ → List A → Run (ℕ × List A)
  move_down first last a =
      if ltb first last
      then (do x ← load a last; b ← store a first x; ok (suc first, b))
      else ok (first, a)

  -- `if (iter_first < iter_last) *iter_last-- = std::move(*iter_first);`
  pub move_up : ℕ → ℕ → List A → Run (ℕ × List A)
  move_up first last a =
      if ltb first last
      then (do x ← load a first; b ← store a last x; ok (last - 1, b))
      else ok (last, a)

module _ {ℓ} {A : Type ℓ} (comp : A → A → Bool) where
  -- `while (comp(tmp, *iter_last) && iter_first < iter_last) --iter_last;`
  pub scan_down : A → ℕ → ℕ → List A → Run ℕ
  scan_down tmp first zero a = do x ← load a zero; ok zero
  scan_down tmp first (suc last) a = do
    x ← load a (suc last)
    let rest = scan_down tmp first last a
    if comp tmp x && ltb first (suc last) then rest else ok (suc last)

  -- `while (comp(*iter_first, tmp) && iter_first < iter_last) ++iter_first;`, on fuel
  pub scan_up : ℕ → A → ℕ → ℕ → List A → Run ℕ
  scan_up zero tmp first last a = out_of_fuel
  scan_up (suc fuel) tmp first last a = do
    x ← load a first
    let rest = scan_up fuel tmp (suc first) last a
    if comp x tmp && ltb first last then rest else ok first

  -- the outer `while`, on fuel, which returns `iter_first`
  pub partition : ℕ → A → ℕ → ℕ → List A → Run (ℕ × List A)
  partition zero tmp first last a = out_of_fuel
  partition (suc fuel) tmp first last a =
      let round : Run (ℕ × List A) = do
        last1 ← scan_down tmp first last a
        (first1, b) ← move_down first last1 a
        first2 ← scan_up (suc (last1 - first1)) tmp first1 last1 b
        (last2, c) ← move_up first2 last1 b
        partition fuel tmp first2 last2 c
      in if ltb first last then round else ok (first, a)

  -- __QuickSort(begin + lo, begin + hi, comp), on fuel
  pub quick_loop : ℕ → ℕ → ℕ → List A → Run (List A)
  quick_loop zero lo hi a = out_of_fuel
  quick_loop (suc fuel) lo hi a =
      let split : Run (List A) = do
        tmp ← load a lo
        (p, b) ← partition (hi - lo) tmp lo (hi - 1) a
        c ← store b p tmp
        e ← quick_loop fuel lo p c
        quick_loop fuel (suc p) hi e
      in if leb (hi - lo) 1 then ok a else split

  -- QuickSort(begin, end, comp)
  unfoldable pub quick_sort : List A → Run (List A)
  unfolding quick_loop partition move_up move_down scan_up scan_down
  quick_sort a = check (ltb 0 (length a)) >> quick_loop (suc (length a)) 0 (length a) a
