-- ===== src/Timer/Idle.antt =====
-- The state between the ticks of Update, and Update as a whole.
use mzx.Base.{
  ℕ, zero, suc, ◌+◌, ◌-◌, ◌%◌, ◌≤◌, ◌<◌, ◌≡◌, ◌≢◌, refl, true, false, List, [], inl, inr, arith,
  ◌==◌, if◌then◌else◌, Bool-cases, ==_iff, ltb, not-ltb→le,
}
use mzx.Array.{length, get_or}
use mzx.Run.{ok, Returns, returns, and_then, weaken, on_test}
use mzx.Timer.Defs.{TimerNode, TimerManager, blank, timer_wheel_count, timer_wheel_size}
use mzx.Timer.Update.{Action, tick, ticks, update, timer_wheel_cascade}
use mzx.Timer.Slots.{contains}
use mzx.Timer.Wheel.{IsDue}
use mzx.Timer.Held.{IsHeld, IsWaiting, OnWheel, skip-OnWheel}
use mzx.Timer.Cascade.{IsSame, timer_wheel_cascade-OnWheel_from, IsSame-refl}
use mzx.Timer.Firing.{current, IsRipe, OnTime, IsCalm, IsFiring}
use mzx.Timer.Scripts.{AreCalm}
use mzx.Timer.Ticks.{fire_slot-IsFiring}

-- between two ticks: every timer on the wheel stands where its time finds it, and every call so far
-- was made at the tick of its time or at the next one
pub record IsIdle (m : TimerManager) : Type 0 where
  pub on_wheel : OnWheel m.cur_time 1 m
  pub calm : (n : ℕ) → IsCalm (get_or m.node_list n blank)
  pub free : (n : ℕ) → contains n m.free_list ≡ true → n < length m.node_list
  pub calls : OnTime m.calls

-- a slot that the tick `c` does not reach is reached later
after :
    (c i j : ℕ) {e : ℕ} (v : IsWaiting c e i j)
    → (0 < i → i < timer_wheel_count → c < v.due)
    → current c i j ≡ false
    → c + 1 ≤ v.due
after c zero j v past off =
    let ne : j ≢ c % 256 = λ s. absurd (ground arith) in
    omega (arith, v.at.not_before, v.at.index, ne)
after c (suc i) j v past off = omega (arith, past (omega arith) v.at.level)

later :
    (c i j n : ℕ) (nodes : List TimerNode)
    → IsHeld c timer_wheel_count nodes i j n
    → current c i j ≡ false
    → IsHeld (c + 1) 1 nodes i j n
later c i j n nodes v off = record {
  inside = v.inside;
  using = v.using;
  placed = record {
    due = v.placed.due;
    at = record {
      level = v.placed.at.level;
      not_before = after c i j v.placed v.past off;
      soon = omega (arith, v.placed.at.soon);
      aligned = v.placed.at.aligned;
      index = v.placed.at.index;
    };
    on_time = v.placed.on_time;
  };
  past = λ p q. absurd (omega arith);
}

-- one that it reaches holds the timers whose time has come
now-IsRipe :
    (c i j n : ℕ) (nodes : List TimerNode)
    → IsHeld c timer_wheel_count nodes i j n
    → current c i j ≡ true
    → IsRipe c nodes n
now-IsRipe c i j n nodes v on =
    let level : i ≡ 0 = ground arith in
    let index : j ≡ c % 256 = ground arith in
    let first : IsDue c 0 (c % 256) v.placed.due = rw (level, index) at v.placed.at in
    let same : v.placed.due ≡ c = omega (arith, first.not_before, first.soon, first.index) in
    record {
      using = v.using;
      due = omega (arith, v.placed.on_time);
      fresh = omega (arith, v.placed.on_time);
    }

not_current :
    (c i j n : ℕ) (w : TimerManager)
    → w.wheel 0 (c % timer_wheel_size 0) ≡ []
    → contains n (w.wheel i j) ≡ true
    → current c i j ≡ false
unfolding contains
not_current c i j n w empty has = elim (Bool-cases (current c i j)) [
  | inr t ↦ t
  | inl t ↦
      let level : i ≡ 0 = ground arith in
      let index : j ≡ c % 256 = ground arith in absurd (bad (rw (level, index, empty) at has))
]
  where
    bad : false ≡ true → ⊥
    bad e = cc

module _ (body : ℕ → TimerManager → List Action)
    (calm : (cb : ℕ) (m : TimerManager) → AreCalm (body cb m)) where
  -- what a tick of the time `c` leaves
  abbrev After : ℕ → TimerManager → Type 0
  After c u = IsIdle u × (u.cur_time ≡ c)

  -- the cascade at the beginning of a tick
  cascaded :
      (m : TimerManager)
      → OnWheel m.cur_time 1 m
      → Returns
          (λ u. OnWheel m.cur_time timer_wheel_count u × IsSame m u)
          (if m.cur_time % timer_wheel_size 0 == 0
            then timer_wheel_cascade (timer_wheel_count - 1) m.cur_time 1 m
            else ok m)
  cascaded m on =
      on_test (m.cur_time % timer_wheel_size 0 == 0)
        (λ t.
          timer_wheel_cascade-OnWheel_from 4 m.cur_time 1 m refl (omega arith)
            ((==_iff (m.cur_time % 256) 0).0 t) on)
        λ t. returns (skip-OnWheel m.cur_time 1 m (λ e. absurd (ground arith)) on, IsSame-refl m)

  tick-IsIdle :
      (extra : ℕ) (m : TimerManager)
      → IsIdle m
      → Returns (After (m.cur_time + 1)) (tick body extra m)
  unfolding tick
  tick-IsIdle extra m v =
      let c = m.cur_time in
      and_then (cascaded m v.on_wheel) λ u (on, same).
        let start : IsFiring c (record u { cur_time = u.cur_time + 1 }) = record {
          now = omega (arith, same.cur_time);
          stands = λ i j n has. record {
            ripe = now-IsRipe c i j n u.node_list (on i j n has);
            held = later c i j n u.node_list (on i j n has);
          };
          calm = rw same.node_list v.calm;
          free = λ n has. rw same.node_list (v.free n (same.free n has));
          calls = rw same.calls v.calls;
        } in
        weaken (fire_slot-IsFiring body calm _ c _ (omega arith) start) λ w (firing, empty). (
          record {
            on_wheel = λ i j n has.
                rw firing.now ((firing.stands i j n has).held (not_current c i j n w empty has));
            calm = firing.calm;
            free = firing.free;
            calls = firing.calls;
          },
          firing.now,
        )

  ticks-IsIdle :
      (extra rounds : ℕ) (m : TimerManager)
      → IsIdle m
      → Returns (After (m.cur_time + rounds)) (ticks body extra rounds m)
  unfolding ticks
  ticks-IsIdle extra zero m v = returns (v, omega arith)
  ticks-IsIdle extra (suc rounds) m v = and_then (tick-IsIdle extra m v) λ u (idle, now).
      weaken (ticks-IsIdle extra rounds u idle) λ w (done, then_). (done, omega (arith, now, then_))

  -- Where the callbacks' SetTimer calls have a delay other than 256 and an interval other than 255,
  -- Update on a manager in order returns, whatever extra fuel it is given, and leaves one in order,
  -- with the time after `cur_time`, or its own time where that is later.
  pub update-IsIdle :
      (extra cur_time : ℕ) (m : TimerManager)
      → IsIdle m
      → Returns
          (After (if ltb cur_time m.cur_time then m.cur_time else cur_time + 1))
          (update body extra cur_time m)
  unfolding update
  update-IsIdle extra cur_time m v = elim (Bool-cases (ltb cur_time m.cur_time)) [
    | inl e ↦ rw e (returns (v, refl))
    | inr e ↦ rw e (
        weaken
          (ticks-IsIdle extra (cur_time + 1 - m.cur_time) (record m { next_time = cur_time + 1 })
            (record { on_wheel = v.on_wheel; calm = v.calm; free = v.free; calls = v.calls }))
          λ w (done, now). (done, omega (arith, now, not-ltb→le _ _ e)))
  ]
