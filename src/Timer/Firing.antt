-- ===== src/Timer/Firing.antt =====
-- The state within a tick, while the callbacks of its slot are called.
use mzx.Base.{
  ℕ, ◌+◌, ◌%◌, ◌≤◌, ◌<◌, ◌≡◌, ◌≢◌, Bool, true, false, ◌&&◌, List, [], ◌∷◌, inl, inr, arith, ◌==◌,
  Bool-cases, none,
}
use mzx.Array.{length, get_or}
use mzx.Timer.Defs.{
  TimerNode, TimerManager, Call, blank, node, place, insert_timer_node_to_wheel, timer_wheel_size,
}
use mzx.Timer.Slots.{
  contains, target, length-insert_timer_node_to_wheel, contains-insert_timer_node_to_wheel,
}
use mzx.Timer.Wheel.{place-IsPlaced, place-IsLowest}
use mzx.Timer.Held.{waiting, IsHeld}

-- whether a slot is the one that is worked off at the tick `c`
abbrev pub current : ℕ → ℕ → ℕ → Bool
current c i j = (i == 0) && (j == c % timer_wheel_size 0)

-- the time of the node is the tick, or the one before it
pub record IsRipe (c : ℕ) (nodes : List TimerNode) (n : ℕ) : Type 0 where
  pub using : (get_or nodes n blank).is_using ≡ true
  pub due : (get_or nodes n blank).expire_time ≤ c
  pub fresh : c ≤ (get_or nodes n blank).expire_time + 1

pub record Stands (c : ℕ) (nodes : List TimerNode) (i j n : ℕ) : Type 0 where
  pub ripe : current c i j ≡ true → IsRipe c nodes n
  pub held : current c i j ≡ false → IsHeld (c + 1) 1 nodes i j n

abbrev pub OnTime : List Call → Type 0
OnTime [] = Unit {0}
OnTime (r ∷ rest) = ((r.expire_time ≤ r.tick) × (r.tick ≤ r.expire_time + 1)) × OnTime rest

-- what every node keeps: no interval of 255, and a callback while it is in use
pub record IsCalm (t : TimerNode) : Type 0 where
  pub interval : t.interval ≢ 255
  pub callable : t.is_using ≡ true → t.cb ≢ none

pub record IsFiring (c : ℕ) (m : TimerManager) : Type 0 where
  pub now : m.cur_time ≡ c + 1
  pub stands : (i j n : ℕ) → contains n (m.wheel i j) ≡ true → Stands c m.node_list i j n
  pub calm : (n : ℕ) → IsCalm (get_or m.node_list n blank)
  pub free : (n : ℕ) → contains n m.free_list ≡ true → n < length m.node_list
  pub calls : OnTime m.calls

-- a node that is put on the wheel during the tick, not 256 ticks ahead, keeps out of its slot
pub target_not_current :
    (c e : ℕ) → c ≤ e → e ≢ c + 256 → current c (place (c + 1) e).0 (place (c + 1) e).1 ≡ false
target_not_current c e h ne = ground (arith, (place-IsLowest (c + 1) e).place)

-- whatever holds of the nodes on the wheel, and of the node `n` in its new slot, holds after
-- InsertTimerNodeToWheel
pub insert_all :
    (Q : ℕ → ℕ → ℕ → Type 0) (c n : ℕ) (m : TimerManager)
    → ((i j x : ℕ) → x ≢ n → contains x (m.wheel i j) ≡ true → Q i j x)
    → Q (target c n m).0 (target c n m).1 n
    → (i j x : ℕ) → contains x ((insert_timer_node_to_wheel c n m).wheel i j) ≡ true
    → Q i j x
insert_all Q c n m others new i j x has =
    let at = contains-insert_timer_node_to_wheel c n m x i j in
    elim (Bool-cases (x == n)) [
      | inl e ↦
          let same : x ≡ n = ground arith in
          let level : i ≡ (target c n m).0 = ground arith in
          let index : j ≡ (target c n m).1 = ground arith in rw (same, level, index) new
      | inr e ↦ others i j x (ground arith) (ground arith)
    ]

-- what `Stands` reads of a node list
pub Stands-cong :
    (c : ℕ) (a b : List TimerNode) (i j n : ℕ)
    → get_or b n blank ≡ get_or a n blank
    → length a ≤ length b
    → Stands c a i j n
    → Stands c b i j n
Stands-cong c a b i j n e h v = record {
  ripe = λ t.
      let r = v.ripe t in record { using = rw e r.using; due = rw e r.due; fresh = rw e r.fresh };
  held = λ t.
      let r = v.held t in
      record {
        inside = omega (arith, r.inside);
        using = rw e r.using;
        placed = rw e r.placed;
        past = λ p q. absurd (omega arith);
      };
}

-- the node `n`, set to expire `ahead` ticks after the current one, is put on the wheel
pub insert_Stands :
    (c n : ℕ) (m : TimerManager)
    → ((i j x : ℕ) → x ≢ n → contains x (m.wheel i j) ≡ true → Stands c m.node_list i j x)
    → n < length m.node_list
    → (node m n).is_using ≡ true
    → c ≤ (node m n).expire_time
    → (node m n).expire_time ≢ c + 256
    → (i j x : ℕ) → contains x ((insert_timer_node_to_wheel (c + 1) n m).wheel i j) ≡ true
    → Stands c m.node_list i j x
unfolding node
insert_Stands c n m others h using time ne =
    insert_all (Stands c m.node_list) (c + 1) n m others (record {
      ripe = λ t. absurd (not_both (target_not_current c (node m n).expire_time time ne) t);
      held = λ t. record {
        inside = h;
        using = using;
        placed = waiting (place-IsPlaced (c + 1) (node m n).expire_time (omega arith));
        past = λ p q. absurd (omega arith);
      };
    })
  where
    not_both : {b : Bool} → b ≡ false → b ≡ true → ⊥
    not_both p q = cc

-- it does not lengthen the slot that is worked off
pub insert-length :
    (c n : ℕ) (m : TimerManager)
    → c ≤ (node m n).expire_time
    → (node m n).expire_time ≢ c + 256
    → length ((insert_timer_node_to_wheel (c + 1) n m).wheel 0 (c % timer_wheel_size 0))
      ≤ length (m.wheel 0 (c % timer_wheel_size 0))
insert-length c n m time ne = ground (
  arith,
  length-insert_timer_node_to_wheel (c + 1) n m 0 (c % timer_wheel_size 0),
  target_not_current c (node m n).expire_time time ne,
)
