-- ===== src/Timer/Wheel.antt =====
-- Where InsertTimerNodeToWheel puts a timer.
use mzx.Base.{
  ℕ, zero, suc, ◌+◌, ◌-◌, ◌*◌, ◌/◌, ◌%◌, ◌^◌, ◌≤◌, ◌<◌, ◌≡◌, ◌⊎◌, inl, inr, arith, refl, Bool, true,
  false, if◌then◌else◌, leb, leb→le, ltb, not-leb→lt, ltb→lt, not-ltb→le,
}
use mzx.Timer.Defs.{timer_wheel_size, timer_wheel_offset, timer_wheel_count, find_level, place}

-- the slot `j` of the level `i` is reached next, counting from `cur_time`, at the tick `t`
pub record IsDue (cur_time i j t : ℕ) : Type 0 where
  pub level : i < timer_wheel_count
  pub not_before : cur_time ≤ t
  pub soon : t < cur_time + 2 ^ timer_wheel_offset i * timer_wheel_size i
  pub aligned : t % 2 ^ timer_wheel_offset i ≡ 0
  pub index : t / 2 ^ timer_wheel_offset i % timer_wheel_size i ≡ j

place_test : (place 5 300 ≡ (1, 1)) × (place 5 260 ≡ (0, 4))
unfolding place
place_test = (refl, refl)

-- A timer that is set no more than one tick late goes to a slot that is reached when it expires, or
-- at once if it is late; on a level above the lowest, to a slot that is reached later than now and
-- no later than it expires.
pub record IsPlaced (cur_time expire_time i j : ℕ) : Type 0 where
  pub due : ℕ
  pub at : IsDue cur_time i j due
  pub on_time :
      ((i ≡ 0) × (expire_time ≤ due) × (due ≤ expire_time + 1) × (cur_time ≤ due))
      ⊎ ((0 < i) × (cur_time < due) × (due ≤ expire_time))

place-late : (c e : ℕ) → c ≤ e + 1 → e ≤ c → IsPlaced c e 0 (c % timer_wheel_size 0)
place-late c e h k = record {
  due = c;
  at = record {
    level = omega arith;
    not_before = omega arith;
    soon = omega arith;
    aligned = omega arith;
    index = omega arith;
  };
  on_time = inl (refl, omega arith, omega arith, omega arith);
}

place-level_0 :
    (c e : ℕ)
    → c < e
    → (e - c) / 2 ^ timer_wheel_offset 0 < timer_wheel_size 0
    → IsPlaced c e 0 (e / 2 ^ timer_wheel_offset 0 % timer_wheel_size 0)
place-level_0 c e h high = record {
  due = e / 2 ^ timer_wheel_offset 0 * 2 ^ timer_wheel_offset 0;
  at = record {
    level = omega arith;
    not_before = omega arith;
    soon = omega arith;
    aligned = omega arith;
    index = omega arith;
  };
  on_time = inl (refl, omega arith, omega arith, omega arith);
}

place-level_1 :
    (c e : ℕ)
    → c < e
    → timer_wheel_size 0 ≤ (e - c) / 2 ^ timer_wheel_offset 0
    → (e - c) / 2 ^ timer_wheel_offset 1 < timer_wheel_size 1
    → IsPlaced c e 1 (e / 2 ^ timer_wheel_offset 1 % timer_wheel_size 1)
place-level_1 c e h low high = record {
  due = e / 2 ^ timer_wheel_offset 1 * 2 ^ timer_wheel_offset 1;
  at = record {
    level = omega arith;
    not_before = omega arith;
    soon = omega arith;
    aligned = omega arith;
    index = omega arith;
  };
  on_time = inr (omega arith, omega arith, omega arith);
}

place-level_2 :
    (c e : ℕ)
    → c < e
    → timer_wheel_size 1 ≤ (e - c) / 2 ^ timer_wheel_offset 1
    → (e - c) / 2 ^ timer_wheel_offset 2 < timer_wheel_size 2
    → IsPlaced c e 2 (e / 2 ^ timer_wheel_offset 2 % timer_wheel_size 2)
place-level_2 c e h low high = record {
  due = e / 2 ^ timer_wheel_offset 2 * 2 ^ timer_wheel_offset 2;
  at = record {
    level = omega arith;
    not_before = omega arith;
    soon = omega arith;
    aligned = omega arith;
    index = omega arith;
  };
  on_time = inr (omega arith, omega arith, omega arith);
}

place-level_3 :
    (c e : ℕ)
    → c < e
    → timer_wheel_size 2 ≤ (e - c) / 2 ^ timer_wheel_offset 2
    → (e - c) / 2 ^ timer_wheel_offset 3 < timer_wheel_size 3
    → IsPlaced c e 3 (e / 2 ^ timer_wheel_offset 3 % timer_wheel_size 3)
place-level_3 c e h low high = record {
  due = e / 2 ^ timer_wheel_offset 3 * 2 ^ timer_wheel_offset 3;
  at = record {
    level = omega arith;
    not_before = omega arith;
    soon = omega arith;
    aligned = omega arith;
    index = omega arith;
  };
  on_time = inr (omega arith, omega arith, omega arith);
}

place-level_4 :
    (c e : ℕ)
    → c < e
    → timer_wheel_size 3 ≤ (e - c) / 2 ^ timer_wheel_offset 3
    → (e - c) / 2 ^ timer_wheel_offset 4 < timer_wheel_size 4
    → IsPlaced c e 4 (e / 2 ^ timer_wheel_offset 4 % timer_wheel_size 4)
place-level_4 c e h low high = record {
  due = e / 2 ^ timer_wheel_offset 4 * 2 ^ timer_wheel_offset 4;
  at = record {
    level = omega arith;
    not_before = omega arith;
    soon = omega arith;
    aligned = omega arith;
    index = omega arith;
  };
  on_time = inr (omega arith, omega arith, omega arith);
}

-- beyond the span of the wheel: the slot of the highest level that is reached last
place-beyond :
    (c e : ℕ)
    → c < e
    → timer_wheel_size 4 ≤ (e - c) / 2 ^ timer_wheel_offset 4
    → IsPlaced c e 4
        ((c / 2 ^ timer_wheel_offset 4 + (timer_wheel_size 4 - 1)) % timer_wheel_size 4)
place-beyond c e h low = record {
  due = (c / 2 ^ timer_wheel_offset 4 + (timer_wheel_size 4 - 1)) * 2 ^ timer_wheel_offset 4;
  at = record {
    level = omega arith;
    not_before = omega arith;
    soon = omega arith;
    aligned = omega arith;
    index = omega arith;
  };
  on_time = inr (omega arith, omega arith, omega arith);
}

-- the case of one level: either the test passes, or the later levels are tried
find_level-case :
    (P : ℕ → ℕ → Type 0) (b : Bool) (x y : ℕ × ℕ)
    → (b ≡ true → P x.0 x.1)
    → (b ≡ false → P y.0 y.1)
    → P (if b then x else y).0 (if b then x else y).1
find_level-case P true x y p q = p refl
find_level-case P false x y p q = q refl

-- A timer whose time is at most one tick over goes to a slot that is there and that the wheel
-- reaches next at a tick `due`: on the lowest level at the timer's time or at most one tick later,
-- on a higher level later than now and no later than the timer's time.
pub place-IsPlaced :
    (cur_time expire_time : ℕ)
    → cur_time ≤ expire_time + 1
    → IsPlaced cur_time expire_time (place cur_time expire_time).0 (place cur_time expire_time).1
unfolding place
place-IsPlaced c e h =
    find_level-case (IsPlaced c e) (leb e c) _ _ (λ t. place-late c e h (leb→le _ _ t))
      λ t0.
        let lt = not-leb→lt e c t0 in
        find_level-case (IsPlaced c e) _ _ _ (λ t. place-level_0 c e lt (ltb→lt _ _ t))
          λ t1.
            find_level-case (IsPlaced c e) _ _ _
              (λ t. place-level_1 c e lt (not-ltb→le _ _ t1) (ltb→lt _ _ t))
              λ t2.
                find_level-case (IsPlaced c e) _ _ _
                  (λ t. place-level_2 c e lt (not-ltb→le _ _ t2) (ltb→lt _ _ t))
                  λ t3.
                    find_level-case (IsPlaced c e) _ _ _
                      (λ t. place-level_3 c e lt (not-ltb→le _ _ t3) (ltb→lt _ _ t))
                      λ t4.
                        find_level-case (IsPlaced c e) _ _ _
                          (λ t. place-level_4 c e lt (not-ltb→le _ _ t4) (ltb→lt _ _ t))
                          λ t5. place-beyond c e lt (not-ltb→le _ _ t5)

-- on the lowest level a timer stands at its time, or at the current one if it is late
pub record IsLowest (c e i j : ℕ) : Type 0 where
  pub place : (0 < i) ⊎ ((j ≡ (if leb e c then c else e) % timer_wheel_size 0) × (e < c + 256))

find_level-above :
    (rounds i c e : ℕ) → 0 < i → i + rounds ≤ timer_wheel_count → 0 < (find_level rounds i c e).0
unfolding find_level
find_level-above zero i c e p h = omega arith
find_level-above (suc rounds) i c e p h =
    find_level-case (λ a b. 0 < a) _ _ _ (λ t. p)
      λ t. find_level-above rounds (suc i) c e (omega arith) (omega arith)

pub place-IsLowest : (c e : ℕ) → IsLowest c e (place c e).0 (place c e).1
unfolding place find_level
place-IsLowest c e =
    find_level-case (IsLowest c e) (leb e c) _ _
      (λ t. record { place = inr (rw t refl, omega (arith, leb→le e c t)) })
      λ t0.
        find_level-case (IsLowest c e) (ltb ((e - c) / 1) 256) (0, e / 1 % 256) (find_level 4 1 c e)
          (λ t. record {
            place = inr (rw t0 (omega arith), omega (arith, ltb→lt ((e - c) / 1) 256 t));
          })
          λ t. record { place = inl (find_level-above 4 1 c e (omega arith) (omega arith)) }
