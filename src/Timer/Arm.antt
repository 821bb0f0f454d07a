-- ===== src/Timer/Arm.antt =====
-- What SetTimer writes, and what FindUsingTimerNode finds.
use mzx.Base.{
  ℕ, ◌+◌, ◌-◌, ◌*◌, ◌/◌, ◌%◌, ◌^◌, ◌<◌, ◌≡◌, true, List, [], ◌∷◌, ◌++◌, inl, inr, arith, List-cases,
  some,
}
use mzx.Array
use mzx.Array.{length, get_or, length-append, length-set}
use mzx.Timer.Defs.{
  TimerNode, TimerManager, blank, node, insert_timer_node_to_wheel, timer_id_count_size,
}
use mzx.Timer.Ops.{find_using_timer_node, take_node, arm_node, set_timer}
use mzx.Timer.Slots.{contains, contains-head}
use mzx.Timer.NodeList.{ButAt, ButAt-set, ButAt-trans, ButAt-append}

-- the node that SetTimer sets
abbrev pub armed : ℕ → ℕ → ℕ → ℕ → ℕ → TimerNode
armed id now cb delay interval = record {
  id = id;
  expire_time = now + delay - 1;
  interval = interval;
  cb = some cb;
  is_using = true;
}

contains-tail :
    (l : List ℕ) (n : ℕ) (rest : List ℕ) (x : ℕ)
    → l ≡ n ∷ rest
    → contains x rest ≡ true
    → contains x l ≡ true
unfolding contains
contains-tail l n rest x e h = ground arith

-- a write that SetTimer makes in the node list: the node is armed, no other one is touched
pub record IsArmed (cb delay interval : ℕ) (m : TimerManager) (n id : ℕ) (b : List TimerNode)
    (f : List ℕ) : Type 0 where
  pub inside : n < length b
  pub entry : get_or b n blank ≡ armed id m.cur_time cb delay interval
  pub others : ButAt n m.node_list b
  pub free : (x : ℕ) → contains x f ≡ true → contains x m.free_list ≡ true

module _ (cb delay interval : ℕ) (m : TimerManager) where
  set-IsArmed :
      (n id : ℕ) (b : List TimerNode) (f : List ℕ)
      → n < length b
      → ButAt n m.node_list b
      → ((x : ℕ) → contains x f ≡ true → contains x m.free_list ≡ true)
      → IsArmed cb delay interval m n id (Array.set b n (armed id m.cur_time cb delay interval)) f
  set-IsArmed n id b f h but sub =
      let t = armed id m.cur_time cb delay interval in
      record {
        inside = rw length-set h;
        entry = ground (arith, Array.get_or-set blank b n n t h);
        others = ButAt-trans n m.node_list b (Array.set b n t) but (ButAt-set n b t);
        free = sub;
      }

  -- both ways to take a node end in the same write
  pub set_timer_cases :
      (P : TimerManager → Type 0)
      → ((n : ℕ) → contains n m.free_list ≡ true → n < length m.node_list)
      → ((n id : ℕ) (b : List TimerNode) (f : List ℕ)
          → IsArmed cb delay interval m n id b f
          → P (insert_timer_node_to_wheel m.cur_time n (record m { node_list = b; free_list = f })))
      → P (set_timer cb delay interval m).0
  unfolding set_timer arm_node take_node node contains
  set_timer_cases P inside each = elim (List-cases m.free_list) [
    | inl e ↦
        let a = m.node_list in
        let t : TimerNode = record blank { id = length a * timer_id_count_size % 2 ^ 64 } in
        let b = a ++ t ∷ [] in
        rw e (
          each _ _ _ _ (
            set-IsArmed (length a) (get_or b (length a) blank).id b []
              (omega (arith, length-append a (t ∷ []))) (ButAt-append a t) (λ x s. absurd cc)))
    | inr (n, rest, e) ↦
        let a = m.node_list in
        let h : n < length a = inside n (contains-head m.free_list n rest e) in
        let id = (get_or a n blank).id in
        let next =
          id / timer_id_count_size * timer_id_count_size + (id + 1) % timer_id_count_size in
        let t : TimerNode = record (get_or a n blank) { id = next } in
        let b = Array.set a n t in
        rw e (
          each _ _ _ _ (
            set-IsArmed n (get_or b n blank).id b rest (rw length-set h) (ButAt-set n a t)
              λ x. contains-tail m.free_list n rest x e))
  ]

-- the node that an id finds is one of the list's, and in use
pub found_inside :
    (m : TimerManager) (id n : ℕ)
    → find_using_timer_node m id ≡ some n
    → (n < length m.node_list) × ((node m n).is_using ≡ true)
unfolding find_using_timer_node
found_inside m id n e = grind arith
