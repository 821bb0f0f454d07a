-- ===== src/Timer/Ticks.antt =====
-- Update: its ticks, and the calls that they make.
use mzx.Base.{
  ℕ, zero, suc, ◌+◌, ◌-◌, ◌%◌, ◌≤◌, ◌<◌, ◌≡◌, true, false, List, [], ◌∷◌, inl, inr, arith,
  Bool-cases, List-cases, Option-cases, leb, not-leb→lt, leb→le, ltb,
}
use mzx.Array
use mzx.Array.{length, get_or, length-append, length-set}
use mzx.Run.{Returns, returns, and_then, weaken, on_test}
use mzx.Timer.Defs.{TimerNode, TimerManager, Call, blank, node, write_slot, timer_wheel_size}
use mzx.Timer.Update.{Action, settle, fire, fire_slot}
use mzx.Timer.Slots.{contains-head, contains-write_slot, length-write_slot}
use mzx.Timer.Firing.{IsRipe, IsFiring}
use mzx.Timer.NodeList.{ButAt-set}
use mzx.Timer.Actions.{Follows, arm-Follows, move-Follows}
use mzx.Timer.Scripts.{AreCalm, run_actions-Follows, Follows-trans}

-- a node in use is one of the list's
pub using_inside : (m : TimerManager) (n : ℕ) → (node m n).is_using ≡ true → n < length m.node_list
unfolding node
using_inside m n u = elim (Bool-cases (leb (length m.node_list) n)) [
  | inl e ↦
      let b = Array.get_or-beyond blank m.node_list n (leb→le _ _ e) in absurd (bad (rw b at u))
  | inr e ↦ not-leb→lt _ _ e
]
  where
    bad : false ≡ true → ⊥
    bad e = cc

-- what follows a call
settle-Follows :
    (c n : ℕ) (m : TimerManager)
    → IsFiring c m
    → (node m n).is_using ≡ true
    → Returns (Follows c m) (settle n m)
unfolding settle node
settle-Follows c n m v using =
    let h = using_inside m n using in
    let old = get_or m.node_list n blank in
    let calm = v.calm n in
    on_test (ltb 0 old.interval)
      (λ t.
        let new : TimerNode = record old { expire_time = m.cur_time + old.interval } in
        let b = Array.set m.node_list n new in
        let e : get_or b n blank ≡ new =
          ground (arith, Array.get_or-set blank m.node_list n n new h) in
        let f =
          arm-Follows c n m.cur_time m b m.free_list v v.now (ButAt-set n m.node_list new)
            (rw length-set h) (rw e (record { interval = calm.interval; callable = calm.callable }))
            (rw e using) (rw e (omega (arith, v.now)))
            (rw e λ same. absurd (calm.interval (omega (arith, v.now)))) (λ x has. has) in
        returns f)
      λ t. move-Follows c n m v h using

-- an entry of the log of calls that is on time
abbrev IsTimely : Call → Type 0
IsTimely r = (r.expire_time ≤ r.tick) × (r.tick ≤ r.expire_time + 1)

-- the first node of the slot that is worked off
pop-IsRipe :
    (c n : ℕ) (rest : List ℕ) (m : TimerManager)
    → IsFiring c m
    → m.wheel 0 (c % timer_wheel_size 0) ≡ n ∷ rest
    → IsRipe c m.node_list n
pop-IsRipe c n rest m v e =
    (v.stands 0 (c % timer_wheel_size 0) n (contains-head _ n rest e)).ripe (ground arith)

-- the manager when the callback of that node runs
abbrev popped : ℕ → ℕ → List ℕ → TimerManager → TimerManager
popped c n rest m = record m { wheel = write_slot m.wheel 0 (c % timer_wheel_size 0) rest }

abbrev pub called : ℕ → TimerManager → TimerManager
called n m = record m {
  calls =
      record { node = n; expire_time = (node m n).expire_time; tick = m.cur_time - 1 } ∷ m.calls;
}

called-IsFiring :
    (c n : ℕ) (rest : List ℕ) (m : TimerManager)
    → IsFiring c m
    → m.wheel 0 (c % timer_wheel_size 0) ≡ n ∷ rest
    → IsFiring c (called n (popped c n rest m))
unfolding node
called-IsFiring c n rest m v e =
    let r = pop-IsRipe c n rest m v e in
    record {
      now = v.now;
      stands = λ i j x has.
          v.stands i j x
            (contains-write_slot m.wheel 0 (c % timer_wheel_size 0) n rest x i j e has);
      calm = v.calm;
      free = v.free;
      calls =
          ((omega (arith, v.now, r.due, r.fresh), omega (arith, v.now, r.due, r.fresh)), v.calls);
    }

module _ (body : ℕ → TimerManager → List Action)
    (calm : (cb : ℕ) (m : TimerManager) → AreCalm (body cb m)) where
  fire-Follows :
      (c n : ℕ) (rest : List ℕ) (m : TimerManager)
      → IsFiring c m
      → m.wheel 0 (c % timer_wheel_size 0) ≡ n ∷ rest
      → Returns (Follows c (popped c n rest m)) (fire body n (popped c n rest m))
  unfolding fire node
  fire-Follows c n rest m v e =
      let firing = called-IsFiring c n rest m v e in
      let ripe = pop-IsRipe c n rest m v e in
      elim (Option-cases (get_or m.node_list n blank).cb) [
        | inl e ↦ absurd ((v.calm n).callable ripe.using e)
        | inr (cb, e) ↦ rw e (
            and_then (run_actions-Follows c (body cb _) _ (calm cb _) firing) λ u f.
              on_test (node u n).is_using
                (λ using. weaken (settle-Follows c n u f.firing using) λ w g.
                  let h = Follows-trans c f g in record { firing = h.firing; shorter = h.shorter })
                λ t. returns (record { firing = f.firing; shorter = f.shorter }))
      ]

  -- the slot of the tick is worked off
  pub fire_slot-IsFiring :
      (fuel c : ℕ) (m : TimerManager)
      → length (m.wheel 0 (c % timer_wheel_size 0)) < fuel
      → IsFiring c m
      → Returns
          (λ u. IsFiring c u × (u.wheel 0 (c % timer_wheel_size 0) ≡ []))
          (fire_slot body fuel (c % timer_wheel_size 0) m)
  unfolding fire_slot
  fire_slot-IsFiring zero c m h v = absurd (omega arith)
  fire_slot-IsFiring (suc fuel) c m h v = elim (List-cases (m.wheel 0 (c % timer_wheel_size 0))) [
    | inl e ↦ rw (e, fire_slot) (returns (v, e))
    | inr (n, rest, e) ↦
        rw (e, fire_slot)
          (and_then (fire-Follows c n rest m v e) λ u f.
            fire_slot-IsFiring fuel c u
              (omega
                (arith, f.shorter, length-write_slot m.wheel 0 (c % timer_wheel_size 0) n rest e))
              f.firing)
  ]
