-- ===== src/Timer/Held.antt =====
-- The nodes on the wheel stand in the slots where their time finds them.
use mzx.Base.{
  ℕ, zero, suc, ◌+◌, ◌/◌, ◌%◌, ◌^◌, ◌≤◌, ◌<◌, ◌≡◌, ◌≢◌, true, List, [], ◌∷◌, ◌⊎◌, inl, inr, arith,
  ◌==◌, Bool-cases, ==_iff, ltb, ltb→lt, not-ltb→le,
}
use mzx.Array.{length, get_or}
use mzx.Timer.Defs.{
  TimerNode, TimerManager, blank, node, write_slot, insert_timer_node_to_wheel, timer_wheel_offset,
  timer_wheel_size, timer_wheel_count,
}
use mzx.Timer.Slots.{contains, target, contains-insert_timer_node_to_wheel, contains-write_slot}
use mzx.Timer.Wheel.{IsDue, IsPlaced, place-IsPlaced}

-- a timer in a slot that is reached no earlier than now, and in time for it
pub record IsWaiting (cur_time expire_time i j : ℕ) : Type 0 where
  pub due : ℕ
  pub at : IsDue cur_time i j due
  pub on_time :
      ((i ≡ 0) × (expire_time ≤ due) × (due ≤ expire_time + 1)) ⊎ ((0 < i) × (due ≤ expire_time))

abbrev pub waiting : {c e i j : ℕ} → IsPlaced c e i j → IsWaiting c e i j
waiting v = record { due = v.due; at = v.at; on_time = ground (arith, v.on_time) }

-- at the tick `c` the node `n` stands in the slot `j` of the level `i`, and below the level `k`, but
-- for the lowest, its slot is not reached at `c` itself
pub record IsHeld (c k : ℕ) (nodes : List TimerNode) (i j n : ℕ) : Type 0 where
  pub inside : n < length nodes
  pub using : (get_or nodes n blank).is_using ≡ true
  pub placed : IsWaiting c (get_or nodes n blank).expire_time i j
  pub past : 0 < i → i < k → c < placed.due

abbrev pub OnWheel : ℕ → ℕ → TimerManager → Type 0
OnWheel c k m = (i j n : ℕ) → contains n (m.wheel i j) ≡ true → IsHeld c k m.node_list i j n

-- a node that is put on the wheel when its time is at most one tick over keeps all in its place
pub insert-OnWheel :
    (c k n : ℕ) (m : TimerManager)
    → OnWheel c k m
    → n < length m.node_list
    → (node m n).is_using ≡ true
    → c ≤ (node m n).expire_time + 1
    → OnWheel c k (insert_timer_node_to_wheel c n m)
unfolding node insert_timer_node_to_wheel
insert-OnWheel c k n m on h using time i j x has =
    let at = contains-insert_timer_node_to_wheel c n m x i j in
    elim (Bool-cases (x == n)) [
      | inl e ↦
          let same : x ≡ n = ground arith in
          let level : i ≡ (target c n m).0 = ground arith in
          let index : j ≡ (target c n m).1 = ground arith in
          let v = place-IsPlaced c (node m n).expire_time time in
          rw (same, level, index)
            (record {
              inside = h;
              using = using;
              placed = waiting v;
              past = λ p q. omega (arith, v.on_time);
            })
      | inr e ↦ on i j x (ground arith)
    ]

module _ (c i n : ℕ) (m : TimerManager) where
  pub held_using : {k j : ℕ} → IsHeld c k m.node_list i j n → (node m n).is_using ≡ true
  unfolding node
  held_using h = h.using

  -- on a level above the lowest a node's time is not over
  pub held_time : {k j : ℕ} → IsHeld c k m.node_list i j n → 0 < i → c ≤ (node m n).expire_time + 1
  unfolding node
  held_time h p = omega (arith, h.placed.at.not_before, h.placed.on_time)

pub pop-OnWheel :
    (c k i j n : ℕ) (rest : List ℕ) (m : TimerManager)
    → m.wheel i j ≡ n ∷ rest
    → OnWheel c k m
    → OnWheel c k (record m { wheel = write_slot m.wheel i j rest })
pop-OnWheel c k i j n rest m e on a b x has =
    on a b x (contains-write_slot m.wheel i j n rest x a b e has)

-- a slot is reached once in each turn of its level
pub due_unique :
    (c i t : ℕ)
    → c % 2 ^ timer_wheel_offset i ≡ 0
    → IsDue c i (c / 2 ^ timer_wheel_offset i % timer_wheel_size i) t
    → t ≡ c
due_unique c zero t a d = omega (arith, d.not_before, d.soon, d.index)
due_unique c (suc zero) t a d = omega (arith, d.not_before, d.soon, d.index, d.aligned)
due_unique c (suc (suc zero)) t a d = omega (arith, d.not_before, d.soon, d.index, d.aligned)
due_unique c (suc (suc (suc zero))) t a d = omega (arith, d.not_before, d.soon, d.index, d.aligned)
due_unique c (suc (suc (suc (suc zero)))) t a d =
    omega (arith, d.not_before, d.soon, d.index, d.aligned)
due_unique c (suc (suc (suc (suc (suc i))))) t a d = absurd (omega (arith, d.level))

-- a tick at which a level is worked off is one at which those below it are
pub aligned_below :
    (k i t : ℕ)
    → k ≤ i
    → i < timer_wheel_count
    → t % 2 ^ timer_wheel_offset i ≡ 0
    → t % 2 ^ timer_wheel_offset k ≡ 0
aligned_below k i t h l a = elim (Bool-cases (k == i)) [
  | inl e ↦ let same : k ≡ i = (==_iff k i).0 e in rw same a
  | inr e ↦ below k i t (ground arith) l a
]
  where
    below :
        (k i t : ℕ)
        → k < i
        → i < timer_wheel_count
        → t % 2 ^ timer_wheel_offset i ≡ 0
        → t % 2 ^ timer_wheel_offset k ≡ 0
    below k zero t h l a = absurd (omega arith)
    below zero i t h l a = omega arith
    below (suc zero) (suc (suc zero)) t h l a = omega arith
    below (suc zero) (suc (suc (suc zero))) t h l a = omega arith
    below (suc zero) (suc (suc (suc (suc zero)))) t h l a = omega arith
    below (suc (suc zero)) (suc (suc (suc zero))) t h l a = omega arith
    below (suc (suc zero)) (suc (suc (suc (suc zero)))) t h l a = omega arith
    below (suc (suc (suc zero))) (suc (suc (suc (suc zero)))) t h l a = omega arith
    below k i t h l a = absurd (omega arith)

lt_of_ne : (a b : ℕ) → a ≤ b → a ≢ b → a < b
lt_of_ne a b h ne = omega arith

not-contains-nil : (n : ℕ) (l : List ℕ) → l ≡ [] → ¬ (contains n l ≡ true)
unfolding contains
not-contains-nil n l e h = ground arith

-- where the level `k` is not worked off at `c`, no slot from `k` on is reached at `c`
pub skip-OnWheel :
    (c k : ℕ) (m : TimerManager)
    → c % 2 ^ timer_wheel_offset k ≢ 0
    → OnWheel c k m
    → OnWheel c timer_wheel_count m
skip-OnWheel c k m ne on i j n has =
    let v = on i j n has in
    record {
      inside = v.inside;
      using = v.using;
      placed = v.placed;
      past = λ p q. elim (Bool-cases (ltb i k)) [
        | inl e ↦ v.past p (ltb→lt i k e)
        | inr e ↦
            let below = aligned_below k i v.placed.due (not-ltb→le i k e) q v.placed.at.aligned in
            lt_of_ne c v.placed.due v.placed.at.not_before λ same. ne (rw same below)
      ];
    }

-- where the slot of `c` on the level `k` is empty, the next level may be worked off
pub clear-OnWheel :
    (c k : ℕ) (m : TimerManager)
    → c % 2 ^ timer_wheel_offset k ≡ 0
    → m.wheel k (c / 2 ^ timer_wheel_offset k % timer_wheel_size k) ≡ []
    → OnWheel c k m
    → OnWheel c (suc k) m
clear-OnWheel c k m a e on i j n has =
    let v = on i j n has in
    record {
      inside = v.inside;
      using = v.using;
      placed = v.placed;
      past = λ p q. elim (Bool-cases (ltb i k)) [
        | inl t ↦ v.past p (ltb→lt i k t)
        | inr t ↦
            let same : i ≡ k = omega (arith, not-ltb→le i k t) in
            lt_of_ne c v.placed.due v.placed.at.not_before λ s.
              let index : c / 2 ^ timer_wheel_offset k % timer_wheel_size k ≡ j =
                rw (same, ← s) at v.placed.at.index in
              not-contains-nil n _ e (rw (same, ← index) at has)
      ];
    }
