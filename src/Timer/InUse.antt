-- ===== src/Timer/InUse.antt =====
-- Every timer in use is on the wheel: SetTimer, DelTimer and what a callback does.
pub mod Update
use mzx.Base.{
  ℕ, zero, suc, ◌+◌, ◌-◌, ◌*◌, ◌%◌, ◌^◌, ◌≡◌, ◌≢◌, true, false, List, [], ◌∷◌, ◌++◌, inl, inr,
  arith, ◌==◌, Bool-cases, List-cases, Option-cases, ==_iff, none, ltb,
}
use mzx.Array
use mzx.Array.{length, get_or}
use mzx.Run.{OnReturn, on_return, on_abort, on_fault, on_spent, proceed, proceed_if, loosen}
use mzx.Timer.Defs.{
  TimerNode, TimerManager, blank, node, unlink, insert_timer_node_to_wheel, init,
  timer_id_count_size, timer_wheel_size, timer_wheel_count,
}
use mzx.Timer.Ops.{
  find_using_timer_node, take_node, arm_node, set_timer, move_timer_node_to_free_list, del_timer,
}
use mzx.Timer.Update.{Action, set, del, run_actions, settle, fire, fire_slot, tick, ticks, update}
use mzx.Timer.Slots.{contains-remove}
use mzx.Timer.NodeList.{ButAt, ButAt-set, ButAt-trans, ButAt-append}
use mzx.Timer.Kept.{
  HasSame-refl, timer_wheel_cascade-HasSame, OnSlot, insert-OnSlot, insert-OnSlot_other, pop-OnSlot,
}
use mzx.Timer.Ticks.{using_inside}

-- the nodes in use that satisfy `P` are on the wheel
abbrev pub Stood : (ℕ → Type 0) → TimerManager → Type 0
Stood P m = (n : ℕ) → P n → (node m n).is_using ≡ true → OnSlot m n

-- all of them
abbrev pub AllOnWheel : TimerManager → Type 0
AllOnWheel m = (n : ℕ) → (node m n).is_using ≡ true → OnSlot m n

-- all but the one whose callback is called
abbrev pub Others : ℕ → ℕ → Type 0
Others n x = x ≢ n

pub not_both : false ≡ true → ⊥
not_both q = cc

module _ (P : ℕ → Type 0) where
  -- the node `n`, written in the node list, is put on the wheel
  pub insert-Stood :
      (c n : ℕ) (m : TimerManager) (b : List TimerNode) (f : List ℕ)
      → ButAt n m.node_list b
      → Stood (λ x. P x × (x ≢ n)) m
      → Stood P (insert_timer_node_to_wheel c n (record m { node_list = b; free_list = f }))
  unfolding node insert_timer_node_to_wheel unlink
  insert-Stood c n m b f but on x p using = elim (Bool-cases (x == n)) [
    | inl t ↦
        let same : x ≡ n = (==_iff x n).0 t in
        rw same (insert-OnSlot c n (record m { node_list = b; free_list = f }))
    | inr t ↦
        let ne : x ≢ n = ground arith in
        let before : (get_or m.node_list x blank).is_using ≡ true = rw (but.0 x ne) at using in
        insert-OnSlot_other c n x (record m { node_list = b; free_list = f }) ne
          (on x (p, ne) before)
  ]

  pub move-Stood :
      (n : ℕ) (m : TimerManager)
      → Stood (λ x. P x × (x ≢ n)) m
      → OnReturn (Stood P) (move_timer_node_to_free_list n m)
  unfolding move_timer_node_to_free_list unlink node
  move-Stood n m on = elim (Bool-cases (get_or m.node_list n blank).is_using) [
    | inr e ↦ rw e on_abort
    | inl e ↦
        let t : TimerNode = record (get_or m.node_list n blank) {
          expire_time = 0;
          interval = 0;
          cb = none;
          is_using = false;
        } in
        let new : get_or (Array.set m.node_list n t) n blank ≡ t =
          let h = using_inside m n e in
          ground (arith, Array.get_or-set blank m.node_list n n t h) in
        rw e (
          on_return λ x p using. elim (Bool-cases (x == n)) [
            | inl s ↦
                let same : x ≡ n = (==_iff x n).0 s in absurd (not_both (rw (same, new) at using))
            | inr s ↦
                let ne : x ≢ n = ground arith in
                let before = (ButAt-set n m.node_list t).0 x ne in
                let (i, j, h) = on x (p, ne) (rw before at using) in
                (i, j, ground (arith, contains-remove x n (m.wheel i j)))
          ])
  ]

  set_timer-Stood :
      (cb delay interval : ℕ) (m : TimerManager)
      → Stood P m
      → Stood P (set_timer cb delay interval m).0
  unfolding set_timer arm_node take_node
  set_timer-Stood cb delay interval m on = elim (List-cases m.free_list) [
    | inl e ↦ rw e (
        let a = m.node_list in
        let t : TimerNode = record blank { id = length a * timer_id_count_size % 2 ^ 64 } in
        insert-Stood m.cur_time (length a) m _ []
          (ButAt-trans (length a) a (a ++ t ∷ []) _ (ButAt-append a t)
            (ButAt-set (length a) (a ++ t ∷ []) _))
          λ x p. on x p.0)
    | inr (n, rest, e) ↦ rw e (
        insert-Stood m.cur_time n m _ rest
          (ButAt-trans n m.node_list _ _ (ButAt-set n m.node_list _) (ButAt-set n _ _))
          λ x p. on x p.0)
  ]

  del_timer-Stood : (id : ℕ) (m : TimerManager) → Stood P m → OnReturn (Stood P) (del_timer id m)
  unfolding del_timer
  del_timer-Stood id m on = elim (Option-cases (find_using_timer_node m id)) [
    | inl e ↦ rw (e, del_timer) (on_return on)
    | inr (n, e) ↦ rw (e, del_timer) (move-Stood n m λ x p. on x p.0)
  ]

  pub run_actions-Stood :
      (l : List Action) (m : TimerManager) → Stood P m → OnReturn (Stood P) (run_actions l m)
  unfolding run_actions
  run_actions-Stood [] m on = on_return on
  run_actions-Stood (set cb delay interval ∷ rest) m on =
      run_actions-Stood rest _ (set_timer-Stood cb delay interval m on)
  run_actions-Stood (del id ∷ rest) m on =
      proceed (del_timer-Stood id m on) λ u v. run_actions-Stood rest u v

abbrev pub Any : ℕ → Type 0
Any n = Unit {0}

-- SetTimer on such a manager leaves one, whatever delay and interval it is given.
pub set_timer-AllOnWheel :
    (cb delay interval : ℕ) (m : TimerManager)
    → AllOnWheel m
    → AllOnWheel (set_timer cb delay interval m).0
set_timer-AllOnWheel cb delay interval m on x using =
    set_timer-Stood Any cb delay interval m (λ y p. on y) x tt using

-- Where DelTimer returns on such a manager, it leaves one.
pub del_timer-AllOnWheel :
    (id : ℕ) (m : TimerManager) → AllOnWheel m → OnReturn AllOnWheel (del_timer id m)
del_timer-AllOnWheel id m on =
    loosen (del_timer-Stood Any id m λ y p. on y) λ u all x using. all x tt using

-- Init has no timer in use.
pub init-AllOnWheel : (cur_time : ℕ) → AllOnWheel (init cur_time)
unfolding init node get_or
init-AllOnWheel cur_time n using = absurd (not_both using)
