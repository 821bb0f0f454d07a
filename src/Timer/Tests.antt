-- ===== src/Timer/Tests.antt =====
-- Runs of the timers.
use mzx.Base.{ℕ, zero, suc, ◌≡◌, ◌≢◌, List, [], ◌∷◌, refl, arith, none}
use mzx.Run.{Run, ok, Returns, out_of_fuel}
use mzx.Array
use mzx.Timer.Defs.{TimerManager, Call, init, place, insert_timer_node_to_wheel, remove}
use mzx.Timer.Ops.{set_timer, del_timer, take_node, arm_node, move_timer_node_to_free_list}
use mzx.Timer.Update.{timer_wheel_cascade, Action, update, set, del, settle, run_actions}
use mzx.Timer.Wheel.{IsPlaced, place-IsPlaced}
use mzx.Timer.Held.{OnWheel}
use mzx.Timer.Kept.{HasSame}
use mzx.Timer.Cascade.{IsSame, timer_wheel_cascade-OnWheel}
use mzx.Timer.Ops.{left_time}
use mzx.Timer.Deleted.{del_timer-left_time}
use mzx.Timer.InUse.{AllOnWheel}
use mzx.Timer.Idle.{IsIdle, update-IsIdle}
use mzx.Timer.Scripts.{AreCalm}
use mzx.Timer.Calls.{init-IsIdle, set_timer-IsIdle}
use mzx.Timer.Runs.{Operation, act, update_to, operate, operate-IsIdle}

-- the callback 1 sets a timer, the callback 2 deletes one, any other one does nothing
abbrev body : ℕ → TimerManager → List Action
body (suc zero) m = set 3 3 0 ∷ []
body (suc (suc zero)) m = del 0 ∷ []
body cb m = []

body-AreCalm : (cb : ℕ) (m : TimerManager) → AreCalm (body cb m)
body-AreCalm (suc zero) m = ((λ e. absurd (omega arith), λ e. absurd (omega arith)), tt)
body-AreCalm (suc (suc zero)) m = (tt, tt)
body-AreCalm zero m = tt
body-AreCalm (suc (suc (suc cb))) m = tt

abbrev calls_of : Run TimerManager → List Call
calls_of (ok m) = m.calls
calls_of r = []

abbrev one_timer : TimerManager
one_timer = (set_timer 1 2 0 (init 0)).0

abbrev periodic : TimerManager
periodic = (set_timer 4 1 4 (init 0)).0

-- the timer 0 is called at its time 2, and the one that its callback sets at 5
one_timer_test :
    calls_of (update body 0 9 one_timer)
    ≡ record { node = 1; expire_time = 5; tick = 5 }
      ∷ record { node = 0; expire_time = 2; tick = 2 }
      ∷ []
unfolding update set_timer arm_node insert_timer_node_to_wheel take_node init place Array.get_or
    Array.set remove run_actions settle move_timer_node_to_free_list
one_timer_test = refl

-- with an interval of 4 the calls are 5 ticks apart
periodic_test :
    calls_of (update body 0 9 periodic)
    ≡ record { node = 0; expire_time = 6; tick = 6 }
      ∷ record { node = 0; expire_time = 1; tick = 1 }
      ∷ []
unfolding update set_timer arm_node insert_timer_node_to_wheel take_node init place Array.get_or
    Array.set remove run_actions settle move_timer_node_to_free_list
periodic_test = refl

-- with an interval of 255 the call of the tick 1 repeats without end
endless_test : update body 5 9 (set_timer 4 1 255 (init 0)).0 ≡ out_of_fuel
unfolding update set_timer arm_node insert_timer_node_to_wheel take_node init place Array.get_or
    Array.set remove run_actions settle move_timer_node_to_free_list
endless_test = refl

place-IsPlaced_example : IsPlaced 5 300 (place 5 300).0 (place 5 300).1
place-IsPlaced_example = place-IsPlaced 5 300 (omega arith)

one_timer-IsIdle : IsIdle (set_timer 1 2 0 (init 0)).0
one_timer-IsIdle = set_timer-IsIdle 1 2 0 (init 0) (λ e. absurd (omega arith)) (init-IsIdle 0)

update-IsIdle_example : Returns (λ u. IsIdle u × (u.cur_time ≡ 10)) (update body 0 9 one_timer)
unfolding init set_timer arm_node insert_timer_node_to_wheel take_node
update-IsIdle_example = update-IsIdle body body-AreCalm 0 9 one_timer one_timer-IsIdle

abbrev script : List Operation
script = act (set 1 2 0) ∷ act (set 4 1 4) ∷ update_to 3 ∷ act (del 0) ∷ update_to 300 ∷ []

operate-IsIdle_example : Returns (λ u. IsIdle u × AllOnWheel u) (operate body 0 script (init 0))
operate-IsIdle_example =
    operate-IsIdle body body-AreCalm 0 script 0
      (λ e. absurd (omega arith), (λ e. absurd (omega arith), tt))

del_timer-left_time_example :
    Returns
      (λ u. (left_time u 0 ≡ none) × ((k : ℕ) → k ≢ 0 → left_time u k ≡ left_time one_timer k))
      (del_timer 0 one_timer)
del_timer-left_time_example = del_timer-left_time 0 one_timer

-- a timer of 300 ticks stands on the level 1 when the tick 256 works that level off
abbrev distant : TimerManager
distant = (set_timer 1 300 0 (init 255)).0

timer_wheel_cascade-OnWheel_example :
    Returns
      (λ u. (OnWheel 256 5 u × IsSame distant u) × HasSame distant u)
      (timer_wheel_cascade 4 256 1 distant)
unfolding init set_timer arm_node insert_timer_node_to_wheel take_node
timer_wheel_cascade-OnWheel_example =
    timer_wheel_cascade-OnWheel 4 256 1 distant refl (omega arith) refl
      (set_timer-IsIdle 1 300 0 (init 255) (λ e. absurd (omega arith)) (init-IsIdle 255)).on_wheel
