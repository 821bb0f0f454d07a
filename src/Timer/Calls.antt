-- ===== src/Timer/Calls.antt =====
-- Init, and SetTimer and DelTimer between the ticks.
use mzx.Base.{
  ℕ, ◌≤◌, ◌<◌, ◌≡◌, ◌≢◌, refl, true, false, List, [], ◌∷◌, ◌++◌, inl, inr, arith, ◌==◌, Bool-cases,
  Option-cases, ==_iff, none,
}
use mzx.Array
use mzx.Array.{length, get_or, length-set}
use mzx.Run.{Returns, returns}
use mzx.Timer.Defs.{
  TimerNode, TimerManager, blank, node, unlink, remove, init, insert_timer_node_to_wheel,
}
use mzx.Timer.Ops.{find_using_timer_node, set_timer, del_timer, move_timer_node_to_free_list}
use mzx.Timer.Slots.{contains, contains-remove, contains-snoc}
use mzx.Timer.Wheel.{place-IsPlaced}
use mzx.Timer.Held.{IsHeld, waiting}
use mzx.Timer.NodeList.{ButAt-set}
use mzx.Timer.Arm.{IsArmed, set_timer_cases, found_inside}
use mzx.Timer.Firing.{insert_all}
use mzx.Timer.Actions.{IsCalm-ButAt}
use mzx.Timer.Idle.{IsIdle}

pub init-IsIdle : (cur_time : ℕ) → IsIdle (init cur_time)
unfolding init contains get_or
init-IsIdle cur_time = record {
  on_wheel = λ i j n has. absurd cc;
  calm = λ n. record { interval = λ e. absurd (omega arith); callable = λ e. absurd cc };
  free = λ n has. absurd cc;
  calls = tt;
}

-- a node that has not been written is where it was
IsHeld-cong :
    (c : ℕ) (a b : List TimerNode) (i j n : ℕ)
    → get_or b n blank ≡ get_or a n blank
    → length a ≤ length b
    → IsHeld c 1 a i j n
    → IsHeld c 1 b i j n
IsHeld-cong c a b i j n e h v = record {
  inside = omega (arith, v.inside);
  using = rw e v.using;
  placed = rw e v.placed;
  past = λ p q. absurd (omega arith);
}

armed-IsIdle :
    (cb delay interval n id : ℕ) (m : TimerManager) (b : List TimerNode) (f : List ℕ)
    → interval ≢ 255
    → IsIdle m
    → IsArmed cb delay interval m n id b f
    → IsIdle (insert_timer_node_to_wheel m.cur_time n (record m { node_list = b; free_list = f }))
unfolding insert_timer_node_to_wheel unlink node
armed-IsIdle cb delay interval n id m b f interval_ok v t = record {
  on_wheel =
      insert_all (IsHeld m.cur_time 1 b) m.cur_time n (record m { node_list = b; free_list = f })
        (λ i j x ne has.
          IsHeld-cong m.cur_time m.node_list b i j x (t.others.0 x ne) t.others.1
            (v.on_wheel i j x has))
        (record {
          inside = t.inside;
          using = rw t.entry refl;
          placed =
              waiting (
                place-IsPlaced m.cur_time (get_or b n blank).expire_time
                  (rw t.entry (omega arith)));
          past = λ p q. absurd (omega arith);
        });
  calm =
      IsCalm-ButAt n m.node_list b t.others v.calm
        (rw t.entry (record { interval = interval_ok; callable = λ s e. absurd cc }));
  free = λ x has.
      omega (arith, t.others.1, v.free x (t.free x (ground (arith, contains-remove x n f))));
  calls = v.calls;
}

-- SetTimer with an interval other than 255 keeps a manager in order: the timers stay where their
-- times find them, and the free list names nodes that are there.
pub set_timer-IsIdle :
    (cb delay interval : ℕ) (m : TimerManager)
    → interval ≢ 255
    → IsIdle m
    → IsIdle (set_timer cb delay interval m).0
set_timer-IsIdle cb delay interval m ok_ v =
    set_timer_cases cb delay interval m IsIdle v.free
      λ n id b f. armed-IsIdle cb delay interval n id m b f ok_ v

move-IsIdle :
    (n : ℕ) (m : TimerManager)
    → IsIdle m
    → n < length m.node_list
    → (node m n).is_using ≡ true
    → Returns IsIdle (move_timer_node_to_free_list n m)
unfolding move_timer_node_to_free_list unlink node
move-IsIdle n m v h using =
    let t : TimerNode = record (get_or m.node_list n blank) {
      expire_time = 0;
      interval = 0;
      cb = none;
      is_using = false;
    } in
    let b = Array.set m.node_list n t in
    let new : get_or b n blank ≡ t = ground (arith, Array.get_or-set blank m.node_list n n t h) in
    let but = ButAt-set n m.node_list t in
    rw using (
      returns (record {
        on_wheel = λ i j x has.
            let r = contains-remove x n (m.wheel i j) in
            IsHeld-cong m.cur_time m.node_list b i j x (but.0 x (ground arith)) but.1
              (v.on_wheel i j x (ground arith));
        calm =
            IsCalm-ButAt n m.node_list b but v.calm
              (rw new (record { interval = λ e. absurd (omega arith); callable = λ e. absurd cc }));
        free = λ x has. rw Array.length-set (freed x has);
        calls = v.calls;
      }))
  where
    freed : (x : ℕ) → contains x (remove n m.free_list ++ n ∷ []) ≡ true → x < length m.node_list
    freed x has = elim (Bool-cases (x == n)) [
      | inl e ↦ omega (arith, (==_iff x n).0 e)
      | inr e ↦ v.free x (
          ground (arith, contains-remove x n m.free_list, contains-snoc x n (remove n m.free_list)))
    ]

-- DelTimer with any id returns on a manager in order, and keeps it in order.
pub del_timer-IsIdle : (id : ℕ) (m : TimerManager) → IsIdle m → Returns IsIdle (del_timer id m)
unfolding del_timer
del_timer-IsIdle id m v = elim (Option-cases (find_using_timer_node m id)) [
  | inl e ↦ rw (e, del_timer) (returns v)
  | inr (n, e) ↦
      rw (e, del_timer) (let (h, using) = found_inside m id n e in move-IsIdle n m v h using)
]
