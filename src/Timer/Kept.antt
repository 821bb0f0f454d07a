-- ===== src/Timer/Kept.antt =====
-- No timer is lost: what the operations keep of the nodes that are on the wheel.
use mzx.Base.{
  ℕ, zero, suc, ◌≡◌, ◌≢◌, refl, true, ◌&&◌, List, ◌∷◌, inl, inr, arith, ◌==◌, Bool-cases,
  List-cases, ==_iff, ◌∙◌,
}
use mzx.Run.{OnReturn, on_return, on_spent, proceed, proceed_if, loosen}
use mzx.Timer.Defs.{TimerManager, unlink, write_slot, insert_timer_node_to_wheel}
use mzx.Timer.Update.{cascade_slot, timer_wheel_cascade}
use mzx.Timer.Slots.{
  contains, contains-head, contains-write_slot, contains-insert_timer_node_to_wheel, target,
}

-- the node `n` stands in a slot of the wheel
abbrev pub OnSlot : TimerManager → ℕ → Type 0
OnSlot m n = (i : ℕ) × (j : ℕ) × (contains n (m.wheel i j) ≡ true)

-- the same nodes are on the wheel, and they have not been written
pub record HasSame (m u : TimerManager) : Type 0 where
  pub kept : (n : ℕ) → OnSlot m n → OnSlot u n
  pub no_other : (n : ℕ) → OnSlot u n → OnSlot m n
  pub nodes : u.node_list ≡ m.node_list

pub HasSame-refl : (m : TimerManager) → HasSame m m
HasSame-refl m = record { kept = λ n h. h; no_other = λ n h. h; nodes = refl }

HasSame-trans : {m u w : TimerManager} → HasSame m u → HasSame u w → HasSame m w
HasSame-trans s t = record {
  kept = λ n h. t.kept n (s.kept n h);
  no_other = λ n h. s.no_other n (t.no_other n h);
  nodes = t.nodes ∙ s.nodes;
}

-- a node that InsertTimerNodeToWheel inserts is on the wheel
pub insert-OnSlot : (c n : ℕ) (m : TimerManager) → OnSlot (insert_timer_node_to_wheel c n m) n
insert-OnSlot c n m =
    let p = target c n m in
    (p.0, p.1, ground (arith, contains-insert_timer_node_to_wheel c n m n p.0 p.1))

-- and so are the others that were
pub insert-OnSlot_other :
    (c n x : ℕ) (m : TimerManager)
    → x ≢ n
    → OnSlot m x
    → OnSlot (insert_timer_node_to_wheel c n m) x
insert-OnSlot_other c n x m ne (i, j, h) =
    (i, j, ground (arith, contains-insert_timer_node_to_wheel c n m x i j))

insert-OnSlot_inverse :
    (c n x : ℕ) (m : TimerManager)
    → x ≢ n
    → OnSlot (insert_timer_node_to_wheel c n m) x
    → OnSlot m x
insert-OnSlot_inverse c n x m ne (i, j, h) =
    (i, j, ground (arith, contains-insert_timer_node_to_wheel c n m x i j))

contains-write_slot_other :
    (w : ℕ → ℕ → List ℕ) (i j n : ℕ) (rest : List ℕ) (k a b : ℕ)
    → w i j ≡ n ∷ rest
    → k ≢ n
    → contains k (w a b) ≡ true
    → contains k (write_slot w i j rest a b) ≡ true
unfolding write_slot contains
contains-write_slot_other w i j n rest k a b e ne h = elim (Bool-cases ((a == i) && (b == j))) [
  | inl t ↦
      let level : a ≡ i = ground arith in
      let index : b ≡ j = ground arith in rw t (tail (rw (level, index, e) at h))
  | inr t ↦ rw t h
]
  where
    tail : contains k (n ∷ rest) ≡ true → contains k rest ≡ true
    tail g = ground arith

-- only the first node of a slot leaves it
pub pop-OnSlot :
    (i j n : ℕ) (rest : List ℕ) (x : ℕ) (m : TimerManager)
    → m.wheel i j ≡ n ∷ rest
    → x ≢ n
    → OnSlot m x
    → OnSlot (record m { wheel = write_slot m.wheel i j rest }) x
pop-OnSlot i j n rest x m e ne (a, b, h) =
    (a, b, contains-write_slot_other m.wheel i j n rest x a b e ne h)

-- a node that is taken from its slot and inserted again
reinsert-HasSame :
    (c i j n : ℕ) (rest : List ℕ) (m : TimerManager)
    → m.wheel i j ≡ n ∷ rest
    → HasSame m (insert_timer_node_to_wheel c n (record m { wheel = write_slot m.wheel i j rest }))
unfolding insert_timer_node_to_wheel unlink
reinsert-HasSame c i j n rest m e =
    let p = record m { wheel = write_slot m.wheel i j rest } in
    record {
      kept = λ x h. elim (Bool-cases (x == n)) [
        | inl t ↦ let same : x ≡ n = (==_iff x n).0 t in rw same (insert-OnSlot c n p)
        | inr t ↦
            let ne : x ≢ n = ground arith in
            insert-OnSlot_other c n x p ne (pop-OnSlot i j n rest x m e ne h)
      ];
      no_other = λ x h. elim (Bool-cases (x == n)) [
        | inl t ↦
            let same : x ≡ n = (==_iff x n).0 t in
            rw same (i, j, contains-head (m.wheel i j) n rest e)
        | inr t ↦
            let (a, b, g) = insert-OnSlot_inverse c n x p (ground arith) h in
            (a, b, contains-write_slot m.wheel i j n rest x a b e g)
      ];
      nodes = refl;
    }

cascade_slot-HasSame :
    (fuel c i j : ℕ) (m : TimerManager) → OnReturn (HasSame m) (cascade_slot fuel c i j m)
unfolding cascade_slot
cascade_slot-HasSame zero c i j m = on_spent
cascade_slot-HasSame (suc fuel) c i j m = elim (List-cases (m.wheel i j)) [
  | inl e ↦ rw (e, cascade_slot) (on_return (HasSame-refl m))
  | inr (n, rest, e) ↦
      rw (e, cascade_slot)
        (loosen (cascade_slot-HasSame fuel c i j _)
          λ u s. HasSame-trans (reinsert-HasSame c i j n rest m e) s)
]

pub timer_wheel_cascade-HasSame :
    (rounds c i : ℕ) (m : TimerManager) → OnReturn (HasSame m) (timer_wheel_cascade rounds c i m)
unfolding timer_wheel_cascade
timer_wheel_cascade-HasSame zero c i m = on_return (HasSame-refl m)
timer_wheel_cascade-HasSame (suc rounds) c i m = proceed (cascade_slot-HasSame _ c i _ m) λ u s.
    proceed_if _
      (λ t. loosen (timer_wheel_cascade-HasSame rounds c (suc i) u) λ w v. HasSame-trans s v)
      λ t. on_return s
