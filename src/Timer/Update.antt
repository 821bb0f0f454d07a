-- ===== src/Timer/Update.antt =====
-- src/timer_manager.cpp: Update.
use mzx.Base.{
  ℕ, zero, suc, ◌+◌, ◌-◌, ◌/◌, ◌%◌, ◌^◌, none, some, List, [], ◌∷◌, ltb, ◌==◌, if◌then◌else◌,
}
use mzx.Array
use mzx.Array.{length, get_or}
use mzx.Run.{Run, ok, fault, out_of_fuel, ◌>>=◌}
use mzx.Timer.Defs.{
  timer_wheel_count, timer_wheel_size, timer_wheel_offset, TimerManager, node, write_slot,
  insert_timer_node_to_wheel,
}
use mzx.Timer.Ops.{set_timer, del_timer, move_timer_node_to_free_list}

-- what a callback can do to the manager
pub data Action : Type 0 where
  set : ℕ → ℕ → ℕ → Action
  del : ℕ → Action

unfoldable pub run_actions : List Action → TimerManager → Run TimerManager
run_actions [] m = ok m
run_actions (set cb delay interval ∷ rest) m = run_actions rest (set_timer cb delay interval m).0
run_actions (del id ∷ rest) m = del_timer id m >>= run_actions rest

-- the `while` of TimerWheelCascade, on fuel
unfoldable pub cascade_slot : ℕ → ℕ → ℕ → ℕ → TimerManager → Run TimerManager
cascade_slot zero cur_time i index m = out_of_fuel
cascade_slot (suc fuel) cur_time i index m = elim (m.wheel i index) [
  | [] ↦ ok m
  | n ∷ rest ↦
      cascade_slot fuel cur_time i index (
        insert_timer_node_to_wheel cur_time n
          (record m { wheel = write_slot m.wheel i index rest }))
]

-- TimerWheelCascade at the level `i`, with `rounds` levels up to the count
unfoldable pub timer_wheel_cascade : ℕ → ℕ → ℕ → TimerManager → Run TimerManager
timer_wheel_cascade zero cur_time i m = ok m
timer_wheel_cascade (suc rounds) cur_time i m =
    let index = cur_time / 2 ^ timer_wheel_offset i % timer_wheel_size i in
    cascade_slot (suc (length (m.wheel i index))) cur_time i index m >>= λ u.
    if index == 0 then timer_wheel_cascade rounds cur_time (suc i) u else ok u

-- what follows the call of a callback that has left its node in use
unfoldable pub settle : ℕ → TimerManager → Run TimerManager
settle n u =
    if ltb 0 (node u n).interval
    then ok (
        insert_timer_node_to_wheel u.cur_time n (record u {
          node_list =
              Array.set u.node_list n
                (record (node u n) { expire_time = u.cur_time + (node u n).interval });
        }))
    else move_timer_node_to_free_list n u

-- `body cb m` is what the callback `cb` does where the manager is `m`
module _ (body : ℕ → TimerManager → List Action) where
  -- the call of a callback, and what follows it; an empty function cannot be called
  unfoldable pub fire : ℕ → TimerManager → Run TimerManager
  fire n m = do
    let called = record m {
      calls =
          record { node = n; expire_time = (node m n).expire_time; tick = m.cur_time - 1 }
          ∷ m.calls;
    }
    u ← elim (node m n).cb [ none ↦ fault | some cb ↦ run_actions (body cb called) called ]
    if (node u n).is_using then settle n u else ok u

  -- the inner `while` of Update, on fuel
  unfoldable pub fire_slot : ℕ → ℕ → TimerManager → Run TimerManager
  fire_slot zero index m = out_of_fuel
  fire_slot (suc fuel) index m = elim (m.wheel 0 index) [
    | [] ↦ ok m
    | n ∷ rest ↦
        fire n (record m { wheel = write_slot m.wheel 0 index rest }) >>= fire_slot fuel index
  ]

  -- one round of the outer `while`; the slot may grow by `extra` timers while it is worked off
  unfoldable pub tick : ℕ → TimerManager → Run TimerManager
  tick extra m = do
    let index = m.cur_time % timer_wheel_size 0
    u ← if index == 0 then timer_wheel_cascade (timer_wheel_count - 1) m.cur_time 1 m else ok m
    let v = record u { cur_time = u.cur_time + 1 }
    fire_slot (suc (length (v.wheel 0 index) + extra)) index v

  -- the outer `while`, with `rounds` ticks up to `next_time_`
  unfoldable pub ticks : ℕ → ℕ → TimerManager → Run TimerManager
  ticks extra zero m = ok m
  ticks extra (suc rounds) m = tick extra m >>= ticks extra rounds

  unfoldable pub update : ℕ → ℕ → TimerManager → Run TimerManager
  unfolding ticks tick fire_slot fire
  update extra cur_time m =
      if ltb cur_time m.cur_time
      then ok m
      else ticks extra (cur_time + 1 - m.cur_time) (record m { next_time = cur_time + 1 })
