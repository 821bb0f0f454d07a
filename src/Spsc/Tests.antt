-- ===== src/Spsc/Tests.antt =====
-- The ring at concrete queues.
use mzx.Base.{
  ℕ, zero, suc, ◌+◌, ◌≡◌, ◌<◌, refl, true, false, none, some, List, [], ◌∷◌, ◌++◌, ◌==◌, ltb,
  if◌then◌else◌, arith,
}
use mzx.Array.{length, get_elem?}
use mzx.Run.{ok, ◌>>=◌, Returns}
use mzx.Spsc.Ops.{SpscQueue, new, push, pop, wrap_loop}
use mzx.Spsc.Ring.{IsQueue, slot}
use mzx.Spsc.Laws.{Popped, push-IsQueue, pop-IsQueue}
use mzx.Spsc.Threads.{Turn, push_turn, pop_turn, run, start}
use mzx.Spsc.Fifo.{IsFifo}
use mzx.Spsc.Schedule.{run_order}

-- three slots, of which the last and the first hold 7 and 8
abbrev wrapped : SpscQueue ℕ
wrapped = record {
  slots = λ i. if i == 2 then some 7 else (if i == 0 then some 8 else none);
  max_size = 3;
  read_index = 2;
  write_index = 1;
}

abbrev two : List ℕ
two = 7 ∷ 8 ∷ []

wrapped-holds : (k : ℕ) → k < 3 → wrapped.slots (slot 3 2 k) ≡ get_elem? two k
wrapped-holds zero h = refl
wrapped-holds (suc zero) h = refl
wrapped-holds (suc (suc zero)) h = refl
wrapped-holds (suc (suc (suc k))) h = absurd (ground arith)

wrapped-IsQueue : IsQueue wrapped two
wrapped-IsQueue = record {
  sized = (ground arith, ground arith);
  room = ground arith;
  reads = ground arith;
  writes = refl;
  holds = wrapped-holds;
}

push-IsQueue_example :
    Returns
      (λ (t, stored).
        (stored ≡ ltb (length two + 1) wrapped.max_size)
        × (stored ≡ false → t ≡ wrapped)
        × (stored ≡ true → IsQueue t (two ++ 9 ∷ [])))
      (push 9 wrapped)
push-IsQueue_example = push-IsQueue 9 wrapped two wrapped-IsQueue

pop-IsQueue_example : Returns (Popped suc two wrapped) (pop suc wrapped)
pop-IsQueue_example = pop-IsQueue suc wrapped two wrapped-IsQueue

-- a Pop that overtakes a Push, and a Push that finds the queue full
abbrev some_turns : List (Turn ℕ)
some_turns =
    push_turn 4
    ∷ pop_turn
    ∷ push_turn 4
    ∷ push_turn 4
    ∷ pop_turn
    ∷ push_turn 5
    ∷ pop_turn
    ∷ pop_turn
    ∷ pop_turn
    ∷ []

run_order_example :
    Returns
      (λ s. (l : List ℕ) × IsFifo suc s.queue s.producer s.consumer s.pushed s.popped l)
      (new 1 >>= λ q. run suc some_turns (start q))
run_order_example = run_order suc 1 some_turns (ground arith) (ground arith)

-- here `operator*` adds one
run_test : (new 1 >>= λ q. run suc some_turns (start q) >>= λ s. ok s.popped) ≡ ok (5 ∷ [])
unfolding new run wrap_loop
run_test = refl
