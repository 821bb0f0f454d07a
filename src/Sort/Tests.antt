-- ===== src/Sort/Tests.antt =====
-- Runs of the sorts.
use mzx.Base.{ℕ, ◌≡◌, List, [], ◌∷◌, Perm, refl, arith, ltb}
use mzx.Array.{load, store, iter_swap}
use mzx.Order.{IsSorted, ltb-IsWeakOrder}
use mzx.Run.{ok, abort, Returns}
use mzx.Sort.Insert.{insert_sort}
use mzx.Sort.Select.{select_sort}
use mzx.Sort.Buddle.{buddle_sort}
use mzx.Sort.Heap.{heap_sort}
use mzx.Sort.Heap.Laws.{heap_sort_correct}
use mzx.Sort.Shell.{shell_sort}
use mzx.Sort.Shell.Laws.{shell_sort_correct}
use mzx.Sort.Quick.{quick_sort}
use mzx.Sort.Quick.Laws.{quick_sort_correct}

abbrev items : List ℕ
items = 5 ∷ 2 ∷ 8 ∷ 2 ∷ 9 ∷ 1 ∷ []

abbrev sorted : List ℕ
sorted = 1 ∷ 2 ∷ 2 ∷ 5 ∷ 8 ∷ 9 ∷ []

insert_sort_test : insert_sort ltb items ≡ ok sorted
unfolding insert_sort load store iter_swap
insert_sort_test = refl

select_sort_test : select_sort ltb items ≡ ok sorted
unfolding select_sort load store iter_swap
select_sort_test = refl

buddle_sort_test : buddle_sort ltb items ≡ ok sorted
unfolding buddle_sort load store iter_swap
buddle_sort_test = refl

heap_sort_test : heap_sort ltb items ≡ ok sorted
unfolding heap_sort load store iter_swap
heap_sort_test = refl

quick_sort_test : quick_sort ltb items ≡ ok sorted
unfolding quick_sort load store iter_swap
quick_sort_test = refl

shell_sort_test : shell_sort ltb items ≡ ok sorted
unfolding shell_sort load store
shell_sort_test = refl

empty_test : quick_sort ltb [] ≡ abort
unfolding quick_sort
empty_test = refl

heap_sort_correct_example : Returns (λ b. IsSorted ltb b × Perm b items) (heap_sort ltb items)
heap_sort_correct_example = heap_sort_correct ltb ltb-IsWeakOrder items (omega arith)

quick_sort_correct_example : Returns (λ b. IsSorted ltb b × Perm b items) (quick_sort ltb items)
quick_sort_correct_example = quick_sort_correct ltb ltb-IsWeakOrder items (omega arith)

shell_sort_correct_example : Returns (λ b. IsSorted ltb b × Perm b items) (shell_sort ltb items)
shell_sort_correct_example = shell_sort_correct ltb ltb-IsWeakOrder items (omega arith)
