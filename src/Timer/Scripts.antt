-- ===== src/Timer/Scripts.antt =====
-- What a callback may do within a tick: calls of SetTimer and DelTimer.
use mzx.Base.{ℕ, ◌≢◌, refl, List, [], ◌∷◌, inl, inr, arith, Option-cases}
use mzx.Run.{Returns, returns, and_then, weaken}
use mzx.Timer.Defs.{TimerManager}
use mzx.Timer.Ops.{find_using_timer_node, set_timer, del_timer}
use mzx.Timer.Update.{Action, set, del, run_actions}
use mzx.Timer.Firing.{IsFiring}
use mzx.Timer.Arm.{set_timer_cases, found_inside}
use mzx.Timer.Actions.{Follows, arm-Follows, move-Follows}

pub Follows-refl : (c : ℕ) (m : TimerManager) → IsFiring c m → Follows c m m
Follows-refl c m v = record { firing = v; shorter = omega arith }

pub Follows-trans : (c : ℕ) {m u w : TimerManager} → Follows c m u → Follows c u w → Follows c m w
Follows-trans c f g = record { firing = g.firing; shorter = omega (arith, f.shorter, g.shorter) }

pub set_timer-Follows :
    (c cb delay interval : ℕ) (m : TimerManager)
    → IsFiring c m
    → delay ≢ 256
    → interval ≢ 255
    → Follows c m (set_timer cb delay interval m).0
set_timer-Follows c cb delay interval m v delay_ok interval_ok =
    set_timer_cases cb delay interval m (Follows c m) v.free λ n id b f t.
      arm-Follows c n m.cur_time m b f v v.now t.others t.inside
        (rw t.entry (record { interval = interval_ok; callable = λ s e. absurd cc }))
        (rw t.entry refl) (rw t.entry (omega (arith, v.now)))
        (rw t.entry λ same. absurd (delay_ok (omega (arith, v.now)))) t.free

pub del_timer-Follows :
    (c id : ℕ) (m : TimerManager) → IsFiring c m → Returns (Follows c m) (del_timer id m)
unfolding del_timer
del_timer-Follows c id m v = elim (Option-cases (find_using_timer_node m id)) [
  | inl e ↦ rw (e, del_timer) (returns (Follows-refl c m v))
  | inr (n, e) ↦
      rw (e, del_timer) (let (h, using) = found_inside m id n e in move-Follows c n m v h using)
]

-- a callback's SetTimer with a delay other than 256 and an interval other than 255
abbrev pub IsCalmAction : Action → Type 0
IsCalmAction (set cb delay interval) = (delay ≢ 256) × (interval ≢ 255)
IsCalmAction (del id) = Unit {0}

abbrev pub AreCalm : List Action → Type 0
AreCalm [] = Unit {0}
AreCalm (a ∷ rest) = IsCalmAction a × AreCalm rest

pub run_actions-Follows :
    (c : ℕ) (l : List Action) (m : TimerManager)
    → AreCalm l
    → IsFiring c m
    → Returns (Follows c m) (run_actions l m)
unfolding run_actions
run_actions-Follows c [] m calm v = returns (Follows-refl c m v)
run_actions-Follows c (set cb delay interval ∷ rest) m ((d, i), calm) v =
    let f = set_timer-Follows c cb delay interval m v d i in
    weaken (run_actions-Follows c rest _ calm f.firing) λ w g. Follows-trans c f g
run_actions-Follows c (del id ∷ rest) m (_, calm) v =
    and_then (del_timer-Follows c id m v)
      λ u f. weaken (run_actions-Follows c rest u calm f.firing) λ w g. Follows-trans c f g
