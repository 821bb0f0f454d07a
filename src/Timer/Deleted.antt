-- ===== src/Timer/Deleted.antt =====
-- What DelTimer does to the ids.
use mzx.Base.{
  ℕ, ◌/◌, ◌<◌, ◌≡◌, ◌≢◌, refl, true, false, ◌==◌, Bool-cases, Option-cases, none, some, inl, inr,
  arith, sym, ◌∙◌, ==_iff,
}
use mzx.Array
use mzx.Array.{length, get_or, length-set}
use mzx.Run.{Returns, returns, weaken}
use mzx.Timer.Defs.{TimerNode, TimerManager, blank, node, unlink, timer_id_count_size}
use mzx.Timer.Ops.{find_using_timer_node, left_time, del_timer, move_timer_node_to_free_list}
use mzx.Timer.Arm.{found_inside}

-- the node that an id finds has that id, and stands at the place that the id names
found_id :
    (m : TimerManager) (id n : ℕ)
    → find_using_timer_node m id ≡ some n
    → ((node m n).id ≡ id) × (id / timer_id_count_size ≡ n)
unfolding find_using_timer_node
found_id m id n e = grind arith

-- the state that is left when the node `n` has been freed
record IsFreed (n : ℕ) (m u : TimerManager) : Type 0 where
  size : length u.node_list ≡ length m.node_list
  time : u.cur_time ≡ m.cur_time
  freed : (node u n).is_using ≡ false
  others : (x : ℕ) → x ≢ n → node u x ≡ node m x

move-IsFreed :
    (n : ℕ) (m : TimerManager)
    → n < length m.node_list
    → (node m n).is_using ≡ true
    → Returns (IsFreed n m) (move_timer_node_to_free_list n m)
unfolding move_timer_node_to_free_list unlink node
move-IsFreed n m h using =
    let t : TimerNode = record (get_or m.node_list n blank) {
      expire_time = 0;
      interval = 0;
      cb = none;
      is_using = false;
    } in
    let new : get_or (Array.set m.node_list n t) n blank ≡ t =
      ground (arith, Array.get_or-set blank m.node_list n n t h) in
    rw using (
      returns record {
        size = length-set m.node_list n t;
        time = refl;
        freed = rw new refl;
        others = λ x ne. Array.get_or-set_ne blank m.node_list n x t (λ e. ne (sym e));
      })

module _ (m : TimerManager) (k : ℕ) where
  -- LeftTime finds nothing where the node is free, or has another id
  left_time-free : (node m (k / timer_id_count_size)).is_using ≡ false → left_time m k ≡ none
  unfolding left_time find_using_timer_node
  left_time-free f = grind arith

  left_time-other_id : (node m (k / timer_id_count_size)).id ≢ k → left_time m k ≡ none
  unfolding left_time find_using_timer_node
  left_time-other_id f = grind arith

  -- what LeftTime reads
  left_time-cong :
      (u : TimerManager)
      → length u.node_list ≡ length m.node_list
      → u.cur_time ≡ m.cur_time
      → node u (k / timer_id_count_size) ≡ node m (k / timer_id_count_size)
      → left_time u k ≡ left_time m k
  unfolding left_time find_using_timer_node
  left_time-cong u size time same = grind arith

freed-left_time :
    (id n : ℕ) (m u : TimerManager)
    → (node m n).id ≡ id
    → id / timer_id_count_size ≡ n
    → IsFreed n m u
    → (left_time u id ≡ none) × ((k : ℕ) → k ≢ id → left_time u k ≡ left_time m k)
freed-left_time id n m u e at v = (left_time-free u id (rw at v.freed), others)
  where
    others : (k : ℕ) → k ≢ id → left_time u k ≡ left_time m k
    others k ne = elim (Bool-cases (k / timer_id_count_size == n)) [
      | inl t ↦
          let same : k / timer_id_count_size ≡ n = (==_iff (k / timer_id_count_size) n).0 t in
          left_time-free u k (rw same v.freed)
          ∙ sym (left_time-other_id m k (rw same λ w. ne (sym w ∙ e)))
      | inr t ↦
          left_time-cong m k u v.size v.time (v.others (k / timer_id_count_size) (ground arith))
    ]

-- DelTimer returns for every id, and afterwards LeftTime finds no timer of that id and tells of
-- every other id what it told before.
pub del_timer-left_time :
    (id : ℕ) (m : TimerManager)
    → Returns
        (λ u. (left_time u id ≡ none) × ((k : ℕ) → k ≢ id → left_time u k ≡ left_time m k))
        (del_timer id m)
unfolding del_timer left_time
del_timer-left_time id m = elim (Option-cases (find_using_timer_node m id)) [
  | inl e ↦ rw (e, del_timer) (returns (rw (e, left_time) refl, λ k ne. refl))
  | inr (n, e) ↦
      rw (e, del_timer)
        (let (h, using) = found_inside m id n e in
          let (same, at) = found_id m id n e in
          weaken (move-IsFreed n m h using) λ u. freed-left_time id n m u same at)
]
