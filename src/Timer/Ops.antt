-- ===== src/Timer/Ops.antt =====
-- src/timer_manager.cpp: SetTimer, DelTimer, LeftTime.
use mzx.Base.{
  ℕ, ◌+◌, ◌-◌, ◌*◌, ◌/◌, ◌%◌, ◌^◌, true, false, ◌&&◌, Option, none, some, [], ◌∷◌, ◌++◌, leb, ◌==◌,
  if◌then◌else◌,
}
use mzx.Array
use mzx.Array.{length, get_or}
use mzx.Run.{Run, ok, ◌>>◌, check}
use mzx.Timer.Defs.{
  timer_id_invalid, timer_id_count_size, blank, TimerManager, node, unlink,
  insert_timer_node_to_wheel,
}

-- FindUsingTimerNode
unfoldable pub find_using_timer_node : TimerManager → ℕ → Option ℕ
find_using_timer_node m id =
    let i = id / timer_id_count_size in
    if id == timer_id_invalid
    then none
    else if leb (length m.node_list) i
    then none
    else if (id == (node m i).id) && (node m i).is_using
    then some i
    else none

-- LeftTime, with `none` for -1
unfoldable pub left_time : TimerManager → ℕ → Option ℕ
left_time m id = elim (find_using_timer_node m id) [
  | none ↦ none
  | some n ↦ some ((node m n).expire_time - m.cur_time)
]

-- the node that SetTimer takes, with its id
unfoldable pub take_node : TimerManager → ℕ × TimerManager
take_node m = elim m.free_list [
  | n ∷ rest ↦
      let id = (node m n).id in
      let next = id / timer_id_count_size * timer_id_count_size + (id + 1) % timer_id_count_size in
      (
        n,
        record m {
          free_list = rest;
          node_list = Array.set m.node_list n (record (node m n) { id = next });
        },
      )
  | [] ↦
      let n = length m.node_list in
      (
        n,
        record m {
          node_list = m.node_list ++ record blank { id = n * timer_id_count_size % 2 ^ 64 } ∷ [];
        },
      )
]

-- what SetTimer does with it
unfoldable pub arm_node : ℕ → ℕ → ℕ → ℕ → TimerManager → TimerManager
arm_node n cb delay interval m = insert_timer_node_to_wheel m.cur_time n (record m {
  node_list = Array.set m.node_list n (record (node m n) {
    expire_time = m.cur_time + delay - 1;
    interval = interval;
    cb = some cb;
    is_using = true;
  });
})

unfoldable pub set_timer : ℕ → ℕ → ℕ → TimerManager → TimerManager × ℕ
set_timer cb delay interval m =
    let (n, t) = take_node m in (arm_node n cb delay interval t, (node t n).id)

-- MoveTimerNodeToFreeList
unfoldable pub move_timer_node_to_free_list : ℕ → TimerManager → Run TimerManager
move_timer_node_to_free_list n m =
    let u = unlink n m in
    check (node m n).is_using
    >> ok (record u {
      node_list =
          Array.set u.node_list n
            (record (node m n) { expire_time = 0; interval = 0; cb = none; is_using = false });
      free_list = u.free_list ++ n ∷ [];
    })

unfoldable pub del_timer : ℕ → TimerManager → Run TimerManager
del_timer id m = elim (find_using_timer_node m id) [
  | none ↦ ok m
  | some n ↦ move_timer_node_to_free_list n m
]
