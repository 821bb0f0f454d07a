-- ===== src/Timer/Slots.antt =====
-- What the lists of nodes hold.
use mzx.Base.{
  ℕ, suc, ◌+◌, ◌≤◌, ◌≡◌, Bool, true, false, ◌&&◌, ◌||◌, List, [], ◌∷◌, ◌++◌, arith, ◌==◌,
  if◌then◌else◌,
}
use mzx.Array.{length, length-append}
use mzx.Timer.Defs.{TimerManager, node, remove, write_slot, place, insert_timer_node_to_wheel}

unfoldable pub contains : ℕ → List ℕ → Bool
contains n [] = false
contains n (x ∷ xs) = (x == n) || contains n xs

pub contains-remove :
    (k n : ℕ) (l : List ℕ) → contains k (remove n l) ≡ (if k == n then false else contains k l)
unfolding contains remove
contains-remove k n [] = ground arith
contains-remove k n (x ∷ l) = ground (arith, contains-remove k n l)

pub contains-snoc :
    (k n : ℕ) (l : List ℕ) → contains k (l ++ n ∷ []) ≡ (if k == n then true else contains k l)
unfolding contains
contains-snoc k n [] = ground arith
contains-snoc k n (x ∷ l) = ground (arith, contains-snoc k n l)

pub length-remove : (n : ℕ) (l : List ℕ) → length (remove n l) ≤ length l
unfolding remove
length-remove n [] = omega arith
length-remove n (x ∷ l) = ground (arith, length-remove n l)

module _ (c n : ℕ) (m : TimerManager) where
  -- the slot that InsertTimerNodeToWheel chooses
  abbrev pub target : ℕ × ℕ
  target = place c (node m n).expire_time

  pub contains-insert_timer_node_to_wheel :
      (k i j : ℕ)
      → contains k ((insert_timer_node_to_wheel c n m).wheel i j)
        ≡ (if k == n then (i == target.0) && (j == target.1) else contains k (m.wheel i j))
  unfolding insert_timer_node_to_wheel
  contains-insert_timer_node_to_wheel k i j = ground (
    arith,
    contains-snoc k n (remove n (m.wheel target.0 target.1)),
    contains-remove k n (m.wheel i j),
    contains-remove k n (m.wheel target.0 target.1),
  )

  pub length-insert_timer_node_to_wheel :
      (i j : ℕ)
      → length ((insert_timer_node_to_wheel c n m).wheel i j)
        ≤ length (m.wheel i j) + (if (i == target.0) && (j == target.1) then 1 else 0)
  unfolding insert_timer_node_to_wheel
  length-insert_timer_node_to_wheel i j = ground (
    arith,
    length-remove n (m.wheel i j),
    length-append (remove n (m.wheel target.0 target.1)) (n ∷ []),
  )

pub contains-write_slot :
    (w : ℕ → ℕ → List ℕ) (i j n : ℕ) (rest : List ℕ) (k a b : ℕ)
    → w i j ≡ n ∷ rest
    → contains k (write_slot w i j rest a b) ≡ true
    → contains k (w a b) ≡ true
unfolding write_slot contains
contains-write_slot w i j n rest k a b e h = ground arith

pub contains-head : (l : List ℕ) (n : ℕ) (rest : List ℕ) → l ≡ n ∷ rest → contains n l ≡ true
unfolding contains
contains-head l n rest e = ground arith

pub length-write_slot :
    (w : ℕ → ℕ → List ℕ) (i j n : ℕ) (rest : List ℕ)
    → w i j ≡ n ∷ rest
    → suc (length (write_slot w i j rest i j)) ≡ length (w i j)
unfolding write_slot
length-write_slot w i j n rest e = ground arith
