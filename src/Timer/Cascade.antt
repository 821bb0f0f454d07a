-- ===== src/Timer/Cascade.antt =====
-- TimerWheelCascade.
use mzx.Base.{
  ℕ, zero, suc, ◌+◌, ◌/◌, ◌%◌, ◌^◌, ◌≤◌, ◌<◌, ◌≡◌, ◌≢◌, refl, true, false, ◌&&◌, List, [], inl, inr,
  arith, ◌==◌, Bool-cases, List-cases, ==_iff, ◌∙◌,
}
use mzx.Array.{length}
use mzx.Run.{Returns, returns, and_then, weaken, on_test, both}
use mzx.Timer.Defs.{
  TimerManager, unlink, node, write_slot, place, insert_timer_node_to_wheel, timer_wheel_offset,
  timer_wheel_size, timer_wheel_count,
}
use mzx.Timer.Update.{cascade_slot, timer_wheel_cascade}
use mzx.Timer.Kept.{HasSame, timer_wheel_cascade-HasSame}
use mzx.Timer.Slots.{
  contains-head, contains-remove, length-write_slot, contains, length-insert_timer_node_to_wheel,
}
use mzx.Timer.Wheel.{IsPlaced, place-IsPlaced}
use mzx.Timer.Held.{
  OnWheel, insert-OnWheel, pop-OnWheel, held_using, held_time, due_unique, skip-OnWheel,
  clear-OnWheel,
}

-- what a cascade leaves alone
pub record IsSame (m u : TimerManager) : Type 0 where
  pub cur_time : u.cur_time ≡ m.cur_time
  pub next_time : u.next_time ≡ m.next_time
  pub node_list : u.node_list ≡ m.node_list
  pub calls : u.calls ≡ m.calls
  pub free : (n : ℕ) → contains n u.free_list ≡ true → contains n m.free_list ≡ true

-- the slot of `c` on the level `i`
abbrev pub slot : ℕ → ℕ → ℕ
slot c i = c / 2 ^ timer_wheel_offset i % timer_wheel_size i

abbrev Emptied : ℕ → ℕ → TimerManager → TimerManager → Type 0
Emptied c i m u = OnWheel c i u × (u.wheel i (slot c i) ≡ []) × IsSame m u

-- a node from the slot that is worked off does not go back to it
target_elsewhere :
    (c i e : ℕ)
    → 0 < i
    → c % 2 ^ timer_wheel_offset i ≡ 0
    → c ≤ e + 1
    → ((i == (place c e).0) && (slot c i == (place c e).1)) ≡ false
target_elsewhere c i e pos a h =
    elim (Bool-cases ((i == (place c e).0) && (slot c i == (place c e).1))) [
      | inr t ↦ t
      | inl t ↦
          let level : (place c e).0 ≡ i = ground arith in
          let index : (place c e).1 ≡ slot c i = ground arith in
          let v : IsPlaced c e i (slot c i) = rw (level, index) at (place-IsPlaced c e h) in
          absurd (omega (arith, due_unique c i v.due a v.at, v.on_time))
    ]

pub IsSame-refl : (m : TimerManager) → IsSame m m
IsSame-refl m = record {
  cur_time = refl;
  next_time = refl;
  node_list = refl;
  calls = refl;
  free = λ n has. has;
}

IsSame-trans : {m u w : TimerManager} → IsSame m u → IsSame u w → IsSame m w
IsSame-trans s t = record {
  cur_time = t.cur_time ∙ s.cur_time;
  next_time = t.next_time ∙ s.next_time;
  node_list = t.node_list ∙ s.node_list;
  calls = t.calls ∙ s.calls;
  free = λ n has. s.free n (t.free n has);
}

IsSame-insert :
    (c n : ℕ) (m : TimerManager) (w : ℕ → ℕ → List ℕ)
    → IsSame m (insert_timer_node_to_wheel c n (record m { wheel = w }))
unfolding insert_timer_node_to_wheel unlink
IsSame-insert c n m w = record {
  cur_time = refl;
  next_time = refl;
  node_list = refl;
  calls = refl;
  free = λ x has. ground (arith, contains-remove x n m.free_list);
}

cascade_slot-Emptied :
    (fuel c i : ℕ) (m : TimerManager)
    → 0 < i
    → c % 2 ^ timer_wheel_offset i ≡ 0
    → length (m.wheel i (slot c i)) < fuel
    → OnWheel c i m
    → Returns (Emptied c i m) (cascade_slot fuel c i (slot c i) m)
unfolding cascade_slot node
cascade_slot-Emptied zero c i m pos a f on = absurd (omega arith)
cascade_slot-Emptied (suc fuel) c i m pos a f on = elim (List-cases (m.wheel i (slot c i))) [
  | inl e ↦ rw (e, cascade_slot) (returns (on, e, IsSame-refl m))
  | inr (n, rest, e) ↦
      let p = record m { wheel = write_slot m.wheel i (slot c i) rest } in
      let held = on i (slot c i) n (contains-head _ n rest e) in
      let time : c ≤ (node m n).expire_time + 1 = held_time c i n m held pos in
      let u = insert_timer_node_to_wheel c n p in
      let away = target_elsewhere c i (node m n).expire_time pos a time in
      let kept : OnWheel c i u =
        insert-OnWheel c i n p (pop-OnWheel c i i (slot c i) n rest m e on) held.inside
          (held_using c i n m held) time in
      rw (e, cascade_slot)
        (weaken
          (cascade_slot-Emptied fuel c i u pos a
            (ground (
              arith,
              length-insert_timer_node_to_wheel c n p i (slot c i),
              away,
              length-write_slot m.wheel i (slot c i) n rest e,
            ))
            kept)
          λ w (on', empty, same). (
            on',
            empty,
            IsSame-trans (IsSame-insert c n m (write_slot m.wheel i (slot c i) rest)) same,
          ))
]

-- the next level is worked off exactly when the index on this one is 0
next_aligned :
    (c i : ℕ)
    → 0 < i
    → i < timer_wheel_count
    → c % 2 ^ timer_wheel_offset i ≡ 0
    → (slot c i == 0) ≡ true
    → c % 2 ^ timer_wheel_offset (suc i) ≡ 0
next_aligned c zero p h a e = absurd (omega arith)
next_aligned c (suc zero) p h a e = omega (arith, (==_iff (slot c 1) 0).0 e)
next_aligned c (suc (suc zero)) p h a e = omega (arith, (==_iff (slot c 2) 0).0 e)
next_aligned c (suc (suc (suc zero))) p h a e = omega (arith, (==_iff (slot c 3) 0).0 e)
next_aligned c (suc (suc (suc (suc zero)))) p h a e = omega (arith, (==_iff (slot c 4) 0).0 e)
next_aligned c (suc (suc (suc (suc (suc i))))) p h a e = absurd (omega arith)

next_not_aligned :
    (c i : ℕ)
    → 0 < i
    → i < timer_wheel_count
    → (slot c i == 0) ≡ false
    → c % 2 ^ timer_wheel_offset (suc i) ≢ 0
next_not_aligned c zero p h e = absurd (omega arith)
next_not_aligned c (suc zero) p h e = ground arith
next_not_aligned c (suc (suc zero)) p h e = ground arith
next_not_aligned c (suc (suc (suc zero))) p h e = ground arith
next_not_aligned c (suc (suc (suc (suc zero)))) p h e = ground arith
next_not_aligned c (suc (suc (suc (suc (suc i))))) p h e = absurd (omega arith)

-- where the timers stand after it, and what it leaves alone
pub timer_wheel_cascade-OnWheel_from :
    (rounds c i : ℕ) (m : TimerManager)
    → i + rounds ≡ timer_wheel_count
    → 0 < i
    → c % 2 ^ timer_wheel_offset i ≡ 0
    → OnWheel c i m
    → Returns (λ u. OnWheel c timer_wheel_count u × IsSame m u) (timer_wheel_cascade rounds c i m)
unfolding timer_wheel_cascade
timer_wheel_cascade-OnWheel_from zero c i m e p a on =
    let end : i ≡ timer_wheel_count = omega arith in returns (rw end at on, IsSame-refl m)
timer_wheel_cascade-OnWheel_from (suc rounds) c i m e p a on =
    and_then (cascade_slot-Emptied _ c i m p a (omega arith) on) λ u (on', empty, same).
      let next = clear-OnWheel c i u a empty on' in
      on_test (slot c i == 0)
        (λ t.
          weaken
            (timer_wheel_cascade-OnWheel_from rounds c (suc i) u (omega arith) (omega arith)
              (next_aligned c i p (omega arith) a t) next)
            λ w (done, same'). (done, IsSame-trans same same'))
        λ t. returns (skip-OnWheel c (suc i) u (next_not_aligned c i p (omega arith) t) next, same)

-- Where the timers are held as they are before the level `i` is worked off, TimerWheelCascade at a
-- tick that works off that level returns. The nodes on the wheel are then the same as before: none
-- is lost and none is added. Each stands in the slot where its time finds it, and none in a slot of
-- a higher level that this tick reaches. The times, the node list and the calls are as they were,
-- and nothing is added to the free list.
pub timer_wheel_cascade-OnWheel :
    (rounds c i : ℕ) (m : TimerManager)
    → i + rounds ≡ timer_wheel_count
    → 0 < i
    → c % 2 ^ timer_wheel_offset i ≡ 0
    → OnWheel c i m
    → Returns
        (λ u. (OnWheel c timer_wheel_count u × IsSame m u) × HasSame m u)
        (timer_wheel_cascade rounds c i m)
timer_wheel_cascade-OnWheel rounds c i m e p a on =
    both (timer_wheel_cascade-OnWheel_from rounds c i m e p a on)
      (timer_wheel_cascade-HasSame rounds c i m)
