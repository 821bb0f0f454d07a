-- ===== src/Timer/Runs.antt =====
-- Sequences of calls of SetTimer, DelTimer and Update.
use mzx.Base.{ℕ, ◌≢◌, List, [], ◌∷◌}
use mzx.Run.{Run, ok, ◌>>=◌, Returns, returns, and_then, OnReturn, on_return, proceed, both}
use mzx.Timer.Defs.{TimerManager, init}
use mzx.Timer.Ops.{set_timer, del_timer}
use mzx.Timer.Update.{Action, set, del, update}
use mzx.Timer.Scripts.{AreCalm}
use mzx.Timer.Idle.{IsIdle, update-IsIdle}
use mzx.Timer.InUse.{AllOnWheel, set_timer-AllOnWheel, del_timer-AllOnWheel, init-AllOnWheel}
use mzx.Timer.InUse.Update.{update-AllOnWheel}
use mzx.Timer.Calls.{init-IsIdle, set_timer-IsIdle, del_timer-IsIdle}

pub data Operation : Type 0 where
  act : Action → Operation
  update_to : ℕ → Operation

-- the calls in their order, where `body` says what the callbacks do
unfoldable pub operate :
    (ℕ → TimerManager → List Action) → ℕ → List Operation → TimerManager → Run TimerManager
operate body extra [] m = ok m
operate body extra (act (set cb delay interval) ∷ rest) m =
    operate body extra rest (set_timer cb delay interval m).0
operate body extra (act (del id) ∷ rest) m = del_timer id m >>= operate body extra rest
operate body extra (update_to cur_time ∷ rest) m =
    update body extra cur_time m >>= operate body extra rest

-- no SetTimer between two calls of Update has the interval 255
abbrev pub AreMild : List Operation → Type 0
AreMild [] = Unit {0}
AreMild (act (set cb delay interval) ∷ rest) = (interval ≢ 255) × AreMild rest
AreMild (op ∷ rest) = AreMild rest

operate-IsIdle_from :
    (body : ℕ → TimerManager → List Action)
    → ((cb : ℕ) (m : TimerManager) → AreCalm (body cb m))
    → (extra : ℕ) (ops : List Operation) (m : TimerManager) → AreMild ops
    → IsIdle m
    → Returns IsIdle (operate body extra ops m)
unfolding operate
operate-IsIdle_from body calm extra [] m mild v = returns v
operate-IsIdle_from body calm extra (act (set cb delay interval) ∷ rest) m (ne, mild) v =
    operate-IsIdle_from body calm extra rest _ mild (set_timer-IsIdle cb delay interval m ne v)
operate-IsIdle_from body calm extra (act (del id) ∷ rest) m mild v =
    and_then (del_timer-IsIdle id m v) λ u w. operate-IsIdle_from body calm extra rest u mild w
operate-IsIdle_from body calm extra (update_to cur_time ∷ rest) m mild v =
    and_then (update-IsIdle body calm extra cur_time m v)
      λ u w. operate-IsIdle_from body calm extra rest u mild w.0

operate-AllOnWheel :
    (body : ℕ → TimerManager → List Action) (extra : ℕ) (ops : List Operation) (m : TimerManager)
    → AllOnWheel m
    → OnReturn AllOnWheel (operate body extra ops m)
unfolding operate
operate-AllOnWheel body extra [] m on = on_return on
operate-AllOnWheel body extra (act (set cb delay interval) ∷ rest) m on =
    operate-AllOnWheel body extra rest _ (set_timer-AllOnWheel cb delay interval m on)
operate-AllOnWheel body extra (act (del id) ∷ rest) m on =
    proceed (del_timer-AllOnWheel id m on) λ u v. operate-AllOnWheel body extra rest u v
operate-AllOnWheel body extra (update_to cur_time ∷ rest) m on =
    proceed (update-AllOnWheel body extra cur_time m on)
      λ u v. operate-AllOnWheel body extra rest u v

-- Where the callbacks' SetTimer calls have a delay other than 256 and an interval other than 255,
-- and the other SetTimer calls an interval other than 255, every sequence of calls of SetTimer,
-- DelTimer and Update after Init returns; no delay and no interval is negative. In what it leaves,
-- every timer in use stands in a slot of the wheel, every node on the wheel is a timer in use that
-- stands in a slot in which its time is found, and every call that Update has made was made at the
-- tick of the timer's expire_time or at the next one.
pub operate-IsIdle :
    (body : ℕ → TimerManager → List Action)
    → ((cb : ℕ) (m : TimerManager) → AreCalm (body cb m))
    → (extra : ℕ) (ops : List Operation) (start : ℕ) → AreMild ops
    → Returns (λ u. IsIdle u × AllOnWheel u) (operate body extra ops (init start))
operate-IsIdle body calm extra ops start mild =
    both (operate-IsIdle_from body calm extra ops (init start) mild (init-IsIdle start))
      (operate-AllOnWheel body extra ops (init start) (init-AllOnWheel start))
