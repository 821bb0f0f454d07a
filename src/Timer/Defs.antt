-- ===== src/Timer/Defs.antt =====
-- src/timer_manager.cpp: the wheel's constants, the nodes and their lists, and the slot of a timer.
use mzx.Base.{
  ℕ, zero, suc, ◌+◌, ◌-◌, ◌/◌, ◌%◌, ◌^◌, Bool, false, ◌&&◌, Option, none, List, [], ◌∷◌, ◌++◌, ltb,
  leb, ◌==◌, if◌then◌else◌,
}
use mzx.Array.{get_or}

abbrev pub timer_wheel_count : ℕ
timer_wheel_count = 5

-- TIMER_WHEEL_BITS[i], read below the count only
abbrev pub timer_wheel_bits : ℕ → ℕ
timer_wheel_bits zero = 8
timer_wheel_bits (suc i) = 6

-- CalculateTimerWheelSize
abbrev pub timer_wheel_size : ℕ → ℕ
timer_wheel_size i = 2 ^ timer_wheel_bits i

-- CalculateTimerWheelOffset
abbrev pub timer_wheel_offset : ℕ → ℕ
timer_wheel_offset zero = 0
timer_wheel_offset (suc i) = timer_wheel_bits i + timer_wheel_offset i

abbrev pub timer_id_invalid : ℕ
timer_id_invalid = 2 ^ 64 - 1

abbrev pub timer_id_count_size : ℕ
timer_id_count_size = 2 ^ 16

-- a callback is named by a number; what it does is a parameter of Update
pub record TimerNode : Type 0 where
  pub id : ℕ
  pub expire_time : ℕ
  pub interval : ℕ
  pub cb : Option ℕ
  pub is_using : Bool

abbrev pub blank : TimerNode
blank = record { id = timer_id_invalid; expire_time = 0; interval = 0; cb = none; is_using = false }

-- a call of a callback, with its node, the time that the node had then, and the tick
pub record Call : Type 0 where
  pub node : ℕ
  pub expire_time : ℕ
  pub tick : ℕ

-- `calls` lists the calls that Update has made, the latest first; the class does not keep it
pub record TimerManager : Type 0 where
  pub cur_time : ℕ
  pub next_time : ℕ
  pub node_list : List TimerNode
  pub free_list : List ℕ
  pub wheel : ℕ → ℕ → List ℕ
  pub calls : List Call

unfoldable pub node : TimerManager → ℕ → TimerNode
node m n = get_or m.node_list n blank

unfoldable pub init : ℕ → TimerManager
init cur_time = record {
  cur_time = cur_time + 1;
  next_time = cur_time + 1;
  node_list = [];
  free_list = [];
  wheel = λ i j. [];
  calls = [];
}

-- ListNode::Erase and ListNode::Insert on the lists of names
unfoldable pub remove : ℕ → List ℕ → List ℕ
remove n [] = []
remove n (x ∷ xs) = if x == n then remove n xs else x ∷ remove n xs

unfoldable pub unlink : ℕ → TimerManager → TimerManager
unlink n m = record m { free_list = remove n m.free_list; wheel = λ i j. remove n (m.wheel i j) }

unfoldable pub write_slot : (ℕ → ℕ → List ℕ) → ℕ → ℕ → List ℕ → ℕ → ℕ → List ℕ
write_slot wheel i j l a b = if (a == i) && (b == j) then l else wheel a b

-- the `for` of InsertTimerNodeToWheel, with `rounds` levels left and the level `i` next: the level
-- and the index that it chooses
unfoldable pub find_level : ℕ → ℕ → ℕ → ℕ → ℕ × ℕ
find_level zero i cur_time expire_time =
    let last = timer_wheel_count - 1 in
    (
      last,
      (cur_time / 2 ^ timer_wheel_offset last + (timer_wheel_size last - 1))
          % timer_wheel_size last,
    )
find_level (suc rounds) i cur_time expire_time =
    let rest = find_level rounds (suc i) cur_time expire_time in
    if ltb ((expire_time - cur_time) / 2 ^ timer_wheel_offset i) (timer_wheel_size i)
    then (i, expire_time / 2 ^ timer_wheel_offset i % timer_wheel_size i)
    else rest

unfoldable pub place : ℕ → ℕ → ℕ × ℕ
unfolding find_level
place cur_time expire_time =
    if leb expire_time cur_time
    then (0, cur_time % timer_wheel_size 0)
    else find_level timer_wheel_count 0 cur_time expire_time

-- InsertTimerNodeToWheel
unfoldable pub insert_timer_node_to_wheel : ℕ → ℕ → TimerManager → TimerManager
unfolding unlink write_slot node
insert_timer_node_to_wheel cur_time n m =
    let u = unlink n m in
    let p = place cur_time (node m n).expire_time in
    record u { wheel = write_slot u.wheel p.0 p.1 (u.wheel p.0 p.1 ++ n ∷ []) }
