-- ===== src/Timer/Actions.antt =====
-- SetTimer and DelTimer within a tick.
use mzx.Base.{
  ℕ, ◌+◌, ◌%◌, ◌≤◌, ◌<◌, ◌≡◌, ◌≢◌, true, false, List, inl, inr, arith, ◌==◌, Bool-cases, ==_iff,
  none,
}
use mzx.Array
use mzx.Array.{length, get_or, length-append, length-set}
use mzx.Run.{Returns, returns}
use mzx.Timer.Defs.{
  TimerNode, TimerManager, blank, node, unlink, remove, insert_timer_node_to_wheel,
  timer_wheel_size,
}
use mzx.Timer.Ops.{move_timer_node_to_free_list}
use mzx.Timer.Slots.{contains, contains-remove, contains-snoc, length-remove}
use mzx.Timer.NodeList.{ButAt, ButAt-set}
use mzx.Timer.Firing.{IsCalm, IsFiring, Stands-cong, insert_Stands, insert-length}

-- a state of the same tick, reached from `m`, with no more timers in the slot that is worked off
pub record Follows (c : ℕ) (m u : TimerManager) : Type 0 where
  pub firing : IsFiring c u
  pub shorter :
      length (u.wheel 0 (c % timer_wheel_size 0)) ≤ length (m.wheel 0 (c % timer_wheel_size 0))

pub IsCalm-ButAt :
    (n : ℕ) (a b : List TimerNode)
    → ButAt n a b
    → ((x : ℕ) → IsCalm (get_or a x blank))
    → IsCalm (get_or b n blank)
    → (x : ℕ) → IsCalm (get_or b x blank)
IsCalm-ButAt n a b but calm new x = elim (Bool-cases (x == n)) [
  | inl e ↦ let same : x ≡ n = (==_iff x n).0 e in rw same new
  | inr e ↦ rw (but.0 x (ground arith)) (calm x)
]

-- the node `n`, set in the node list `b`, is put on the wheel
pub arm-Follows :
    (c n k : ℕ) (m : TimerManager) (b : List TimerNode) (f : List ℕ)
    → IsFiring c m
    → k ≡ c + 1
    → ButAt n m.node_list b
    → n < length b
    → IsCalm (get_or b n blank)
    → (get_or b n blank).is_using ≡ true
    → c ≤ (get_or b n blank).expire_time
    → (get_or b n blank).expire_time ≢ c + 256
    → ((x : ℕ) → contains x f ≡ true → contains x m.free_list ≡ true)
    → Follows c m (insert_timer_node_to_wheel k n (record m { node_list = b; free_list = f }))
unfolding insert_timer_node_to_wheel unlink node
arm-Follows c n k m b f v now but h calm using time ne sub =
    let w = record m { node_list = b; free_list = f } in
    rw now record {
      firing = record {
        now = v.now;
        stands =
            insert_Stands c n w
              (λ i j x nx has.
                Stands-cong c m.node_list b i j x (but.0 x nx) but.1 (v.stands i j x has))
              h using time ne;
        calm = IsCalm-ButAt n m.node_list b but v.calm calm;
        free =
            λ x has. omega (arith, but.1, v.free x (sub x (ground (arith, contains-remove x n f))));
        calls = v.calls;
      };
      shorter = insert-length c n w time ne;
    }

-- a node that is not in use any more
pub move-Follows :
    (c n : ℕ) (m : TimerManager)
    → IsFiring c m
    → n < length m.node_list
    → (node m n).is_using ≡ true
    → Returns (Follows c m) (move_timer_node_to_free_list n m)
unfolding move_timer_node_to_free_list unlink node
move-Follows c n m v h using =
    let t : TimerNode = record (get_or m.node_list n blank) {
      expire_time = 0;
      interval = 0;
      cb = none;
      is_using = false;
    } in
    let b = Array.set m.node_list n t in
    let new : get_or b n blank ≡ t = ground (arith, Array.get_or-set blank m.node_list n n t h) in
    let but = ButAt-set n m.node_list t in
    rw using (
      returns (record {
        firing = record {
          now = v.now;
          stands = λ i j x has.
              let r = contains-remove x n (m.wheel i j) in
              Stands-cong c m.node_list b i j x (but.0 x (ground arith)) but.1
                (v.stands i j x (ground arith));
          calm =
              IsCalm-ButAt n m.node_list b but v.calm (
                rw new
                  (record { interval = λ e. absurd (omega arith); callable = λ e. absurd cc }));
          free = λ x has. rw Array.length-set (elim (Bool-cases (x == n)) [
            | inl e ↦ omega (arith, (==_iff x n).0 e)
            | inr e ↦ v.free x (
                ground (
                  arith,
                  contains-remove x n m.free_list,
                  contains-snoc x n (remove n m.free_list),
                ))
          ]);
          calls = v.calls;
        };
        shorter = length-remove n (m.wheel 0 (c % timer_wheel_size 0));
      }))
