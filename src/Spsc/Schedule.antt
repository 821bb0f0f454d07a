-- ===== src/Spsc/Schedule.antt =====
-- The steps of the reading thread, and every order of the steps of both.
use mathlib.Core.List.{append_assoc}
use mathlib.Core.Path.{subst}
use mzx.Base.{
  ℕ, suc, ◌+◌, ◌<◌, ◌≡◌, refl, sym, ap, ◌∙◌, true, false, Option, none, some, List, [], ◌∷◌, ◌++◌,
  ◌==◌, ltb, ◌%◌, if◌then◌else◌, arith, Bool-cases, inl, inr,
}
use mzx.Array.{length}
use mzx.Run.{ok, ◌>>=◌, Returns, returns, and_then}
use mzx.Spsc.Ops.{SpscQueue, size_mod, object, set_slot, new}
use mzx.Spsc.Ring.{
  slot, next_index_lem, slot_lt, slot_eqb, slot_shift, slot_round, slot_zero, slot_later,
}
use mzx.Spsc.Laws.{get_elem?-none}
use mzx.Spsc.Threads.{
  Producer, outside, not_full, built, Consumer, not_empty, copied, destroyed, Threads, Turn,
  push_turn, pop_turn, pop_step, run, start,
}
use mzx.Spsc.Fifo.{made, gone, cell, PushesTo, IsFifo, Fifo, stored-snoc, state, push_step-Fifo}

module _ {ℓ} {T : Type ℓ} (deref : T → T) where
  -- the first object
  front :
      (q : SpscQueue T) (p : Producer T) (c : Consumer T) (pushed popped : List T) (x : T)
      (l : List T)
      → gone c ≡ false
      → IsFifo deref q p c pushed popped (x ∷ l)
      → object q q.read_index ≡ ok x
  unfolding object
  front q p c pushed popped x l g w =
      let held : q.slots q.read_index ≡ some x =
        ap q.slots (sym (slot_zero q.max_size q.read_index w.reads))
        ∙ (w.holds 0 (let one = w.sized.0 in omega arith) ∙ (rw g (ground arith))) in
      rw (object, held) refl

  -- the slot of the destroyed object is free, and the next object is the first
  cell-shift :
      (new : Option T) (x : T) (l : List T) (k : ℕ)
      → cell true new (x ∷ l) (suc k) ≡ cell false new l k
  cell-shift new x l k = ground arith

  cell-last :
      (n : ℕ) (write : ℕ) (p : Producer T) (x : T) (l : List T) (k : ℕ)
      → suc k ≡ n
      → length (x ∷ l) < n
      → PushesTo n write (x ∷ l) p
      → cell false (made p) l k ≡ none
  cell-last n write outside x l k e room h = let z = get_elem?-none l k in ground (arith, z)
  cell-last n write (not_full y next) x l k e room h =
      let z = get_elem?-none l k in ground (arith, z)
  cell-last n write (built y next) x l k e room (r, _) =
      let z = get_elem?-none l k in ground (arith, z)

  PushesTo-pop :
      (n write : ℕ) (p : Producer T) (x : T) (l : List T)
      → PushesTo n write (x ∷ l) p
      → PushesTo n write l p
  PushesTo-pop n write outside x l h = tt
  PushesTo-pop n write (not_full y next) x l (r, e) = (omega arith, e)
  PushesTo-pop n write (built y next) x l (r, e) = (omega arith, e)

  popped_one :
      (q : SpscQueue T) (p : Producer T) (pushed popped : List T) (x y : T) (l : List T)
      → y ≡ deref x
      → IsFifo deref q p (destroyed y) pushed popped (x ∷ l)
      → IsFifo deref
          (record q { read_index = slot q.max_size q.read_index 1 })
          p
          outside
          pushed
          (popped ++ y ∷ [])
          l
  popped_one q p pushed popped x y l same w =
      let room = w.room in
      let one = w.sized.0 in
      record {
        sized = w.sized;
        room = omega arith;
        reads = slot_lt q.max_size q.read_index 1 w.reads w.sized.0;
        writes = w.writes ∙ sym (slot_shift q.max_size q.read_index (length l) w.reads room);
        holds = λ k h. elim (Bool-cases (suc k == q.max_size)) [
          | inl e ↦
              let last : suc k ≡ q.max_size = ground arith in
              let free : q.slots q.read_index ≡ none =
                ap q.slots (sym (slot_zero q.max_size q.read_index w.reads))
                ∙ w.holds 0 (omega arith) in
              rw (slot_round q.max_size q.read_index k w.reads w.sized.0 last)
                (free ∙ sym (cell-last q.max_size q.write_index p x l k last w.room w.pushes))
          | inr e ↦
              let inner : suc k < q.max_size = ground arith in
              rw (slot_shift q.max_size q.read_index k w.reads inner)
                (w.holds (suc k) inner ∙ cell-shift (made p) x l k)
        ];
        pushes = PushesTo-pop q.max_size q.write_index p x l w.pushes;
        pops = tt;
        seen = w.seen ++ x ∷ [];
        history = w.history ∙ sym (append_assoc w.seen (x ∷ []) l);
        results = rw (same, w.results) (sym (stored-snoc deref w.seen x));
      }

  cell-destroy :
      (new : Option T) (x : T) (l : List T) (k : ℕ)
      → (if k == 0 then none else cell false new (x ∷ l) k) ≡ cell true new (x ∷ l) k
  cell-destroy new x l k = ground arith

  pop_step-Fifo :
      (q : SpscQueue T) (p : Producer T) (c : Consumer T) (pushed popped l : List T)
      → IsFifo deref q p c pushed popped l
      → Returns (Fifo deref) (pop_step deref (state q p c pushed popped))
  unfolding pop_step set_slot
  pop_step-Fifo q p outside pushed popped [] w =
      let empty : (q.write_index == q.read_index) ≡ true =
        let e = w.writes ∙ slot_zero q.max_size q.read_index w.reads in ground arith in
      rw empty (returns ([], w))
  pop_step-Fifo q p outside pushed popped (x ∷ l) w =
      let some_object : (q.write_index == q.read_index) ≡ false =
        rw w.writes (slot_later q.max_size q.read_index (length l) w.reads w.room) in
      rw some_object (
        returns (
          x ∷ l,
          record {
            sized = w.sized;
            room = w.room;
            reads = w.reads;
            writes = w.writes;
            holds = w.holds;
            pushes = w.pushes;
            pops = (x, l, refl);
            seen = w.seen;
            history = w.history;
            results = w.results;
          },
        ))
  pop_step-Fifo q p not_empty pushed popped [] w = absurd (ground (arith, w.pops.2))
  pop_step-Fifo q p not_empty pushed popped (x ∷ l) w =
      rw (front q p not_empty pushed popped x l refl w) (
        returns (
          x ∷ l,
          record {
            sized = w.sized;
            room = w.room;
            reads = w.reads;
            writes = w.writes;
            holds = w.holds;
            pushes = w.pushes;
            pops = (x, l, refl, refl);
            seen = w.seen;
            history = w.history;
            results = w.results;
          },
        ))
  pop_step-Fifo q p (copied y) pushed popped l w =
      let (x, rest, e, same) = w.pops in
      let v = subst (IsFifo deref q p (copied y) pushed popped) e w in
      returns (
        x ∷ rest,
        record {
          sized = v.sized;
          room = v.room;
          reads = v.reads;
          writes = v.writes;
          holds = λ k h.
              let first : (slot q.max_size q.read_index k == q.read_index) ≡ (k == 0) =
                subst (λ i. (slot q.max_size q.read_index k == i) ≡ (k == 0))
                  (slot_zero q.max_size q.read_index v.reads)
                  (slot_eqb q.max_size q.read_index k 0 v.reads h
                    (let one = v.sized.0 in omega arith)) in
              rw (first, v.holds k h) (cell-destroy (made p) x rest k);
          pushes = v.pushes;
          pops = (x, rest, refl, same);
          seen = v.seen;
          history = v.history;
          results = v.results;
        },
      )
  pop_step-Fifo q p (destroyed y) pushed popped l w =
      let (x, rest, e, same) = w.pops in
      let v = subst (IsFifo deref q p (destroyed y) pushed popped) e w in
      rw (next_index_lem q.max_size q.read_index v.sized.1 v.reads)
        (returns (rest, popped_one q p pushed popped x y rest same v))

  pub run-Fifo :
      (turns : List (Turn T)) (s : Threads T)
      → Fifo deref s
      → Returns (Fifo deref) (run deref turns s)
  unfolding run
  run-Fifo [] s w = returns w
  run-Fifo (push_turn x ∷ turns) s (l, w) =
      and_then (push_step-Fifo deref x s.queue s.producer s.consumer s.pushed s.popped l w)
        λ t v. run-Fifo turns t v
  run-Fifo (pop_turn ∷ turns) s (l, w) =
      and_then (pop_step-Fifo s.queue s.producer s.consumer s.pushed s.popped l w)
        λ t v. run-Fifo turns t v

  new-Fifo :
      (size : ℕ)
      → 0 < size
      → size + 1 < size_mod
      → Returns
          (λ q. (q.max_size ≡ size + 1) × IsFifo deref q outside outside [] [] [])
          (new {T = T} size)
  unfolding new
  new-Fifo size some_size bound =
      let exact : (size + 1) % size_mod ≡ size + 1 = omega arith in
      let pass : ltb 1 (size + 1) ≡ true = ground arith in
      rw (exact, pass)
        (returns (
          refl,
          record {
            sized = (omega arith, bound);
            room = omega arith;
            reads = omega arith;
            writes = ground arith;
            holds = λ k h. ground arith;
            pushes = tt;
            pops = tt;
            seen = [];
            history = refl;
            results = refl;
          },
        ))

  -- For every object type with an `operator*`, every queue with room for one object at least whose
  -- number of slots fits 64 bits, and every order of the steps of a thread that calls Push and one
  -- that calls Pop, all steps return. The objects that have been pushed are those that Pop has taken,
  -- in the same order, and then a list `l` of fewer than there are slots; what Pop has stored is what
  -- `operator*` gives for each of those that it has taken. The list `l` is what the slots hold from
  -- the read position on, but for its first object where Pop has destroyed it and has not yet moved
  -- the read position; behind it is the object that an unfinished Push has built, if any, and no
  -- other slot holds an object.
  pub run_order :
      (size : ℕ) (turns : List (Turn T))
      → 0 < size
      → size + 1 < size_mod
      → Returns
          (λ s. (l : List T) × IsFifo deref s.queue s.producer s.consumer s.pushed s.popped l)
          (new size >>= λ q. run deref turns (start q))
  run_order size turns some_size bound =
      and_then (new-Fifo size some_size bound) λ q (e, w). run-Fifo turns (start q) ([], w)
