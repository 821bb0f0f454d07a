-- ===== src/Timer/InUse/Update.antt =====
-- Every timer in use is on the wheel: Update.
use mzx.Base.{
  ℕ, zero, suc, ◌+◌, ◌-◌, ◌%◌, ◌≡◌, false, List, inl, inr, arith, ◌==◌, Bool-cases, List-cases,
  Option-cases, ==_iff, ltb,
}
use mzx.Array.{get_or}
use mzx.Run.{OnReturn, on_return, on_fault, on_spent, proceed, proceed_if, loosen}
use mzx.Timer.Defs.{TimerManager, blank, node, timer_wheel_size, timer_wheel_count}
use mzx.Timer.Update.{Action, settle, fire, fire_slot, tick, ticks, update}
use mzx.Timer.NodeList.{ButAt-set}
use mzx.Timer.Kept.{HasSame-refl, timer_wheel_cascade-HasSame, pop-OnSlot}
use mzx.Timer.Ticks.{called}
use mzx.Timer.InUse.{
  Stood, AllOnWheel, Others, not_both, move-Stood, run_actions-Stood, insert-Stood, Any,
}

-- where all but `n` are on the wheel, so is `n` after what follows its call
settle-AllOnWheel :
    (n : ℕ) (m : TimerManager) → Stood (Others n) m → OnReturn AllOnWheel (settle n m)
unfolding settle node
settle-AllOnWheel n m on =
    proceed_if (ltb 0 (get_or m.node_list n blank).interval)
      (λ t. on_return λ x using.
        insert-Stood Any m.cur_time n m _ m.free_list (ButAt-set n m.node_list _) (λ y p. on y p.1)
          x tt using)
      λ t. loosen (move-Stood Any n m λ y p. on y p.1) λ u all x using. all x tt using

-- a node that is not in use need not be
Stood-free :
    (n : ℕ) (u : TimerManager) → Stood (Others n) u → (node u n).is_using ≡ false → AllOnWheel u
unfolding node
Stood-free n u v f x using = elim (Bool-cases (x == n)) [
  | inl s ↦ let same : x ≡ n = (==_iff x n).0 s in absurd (not_both (rw (same, f) at using))
  | inr s ↦ v x (ground arith) using
]

module _ (body : ℕ → TimerManager → List Action) where
  fire-AllOnWheel :
      (n : ℕ) (m : TimerManager) → Stood (Others n) m → OnReturn AllOnWheel (fire body n m)
  unfolding fire node
  fire-AllOnWheel n m on = elim (Option-cases (node m n).cb) [
    | inl e ↦ rw e on_fault
    | inr (cb, e) ↦ rw e (
        proceed (run_actions-Stood (Others n) (body cb (called n m)) (called n m) on) λ u v.
          elim (Bool-cases (node u n).is_using) [
            | inl t ↦ rw t (settle-AllOnWheel n u v)
            | inr t ↦ rw t (on_return (Stood-free n u v t))
          ])
  ]

  fire_slot-AllOnWheel :
      (fuel index : ℕ) (m : TimerManager)
      → AllOnWheel m
      → OnReturn AllOnWheel (fire_slot body fuel index m)
  unfolding fire_slot node
  fire_slot-AllOnWheel zero index m on = on_spent
  fire_slot-AllOnWheel (suc fuel) index m on = elim (List-cases (m.wheel 0 index)) [
    | inl e ↦ rw (e, fire_slot) (on_return on)
    | inr (n, rest, e) ↦
        rw (e, fire_slot)
          (proceed
            (fire-AllOnWheel n _ λ x ne using. pop-OnSlot 0 index n rest x m e ne (on x using))
            λ u v. fire_slot-AllOnWheel fuel index u v)
  ]

  tick-AllOnWheel :
      (extra : ℕ) (m : TimerManager) → AllOnWheel m → OnReturn AllOnWheel (tick body extra m)
  unfolding tick node
  tick-AllOnWheel extra m on =
      proceed
        (proceed_if (m.cur_time % timer_wheel_size 0 == 0)
          (λ t. timer_wheel_cascade-HasSame (timer_wheel_count - 1) m.cur_time 1 m)
          λ t. on_return (HasSame-refl m))
        λ u s. fire_slot-AllOnWheel _ _ _ λ x using. s.kept x (on x (rw s.nodes at using))

  ticks-AllOnWheel :
      (extra rounds : ℕ) (m : TimerManager)
      → AllOnWheel m
      → OnReturn AllOnWheel (ticks body extra rounds m)
  unfolding ticks
  ticks-AllOnWheel extra zero m on = on_return on
  ticks-AllOnWheel extra (suc rounds) m on =
      proceed (tick-AllOnWheel extra m on) λ u v. ticks-AllOnWheel extra rounds u v

  -- Where Update returns on a manager that has all timers in use on the wheel, so it has then.
  pub update-AllOnWheel :
      (extra cur_time : ℕ) (m : TimerManager)
      → AllOnWheel m
      → OnReturn AllOnWheel (update body extra cur_time m)
  unfolding update node
  update-AllOnWheel extra cur_time m on =
      proceed_if (ltb cur_time m.cur_time) (λ t. on_return on)
        λ t. ticks-AllOnWheel extra _ (record m { next_time = cur_time + 1 }) on
