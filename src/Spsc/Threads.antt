-- ===== src/Spsc/Threads.antt =====
-- Push and Pop on two threads: every access to shared memory is a step of its own, and the steps of
-- the two threads come in any order. The acquire and release of the code make them see each other's
-- slots in this order.
use mzx.Base.{ℕ, none, some, List, [], ◌∷◌, ◌++◌, ◌==◌, if◌then◌else◌}
use mzx.Run.{Run, ok, ◌>>=◌}
use mzx.Spsc.Ops.{SpscQueue, next_index, object, set_slot}

module _ {ℓ} (T : Type ℓ) where
  -- where the writing thread is in Push
  pub data Producer : Type ℓ where
    outside : Producer
    not_full : T → ℕ → Producer
    built : T → ℕ → Producer

  -- where the reading thread is in Pop, with what it has stored
  pub data Consumer : Type ℓ where
    outside : Consumer
    not_empty : Consumer
    copied : T → Consumer
    destroyed : T → Consumer

  -- `pushed` has the objects of the calls of Push that have returned true, and `popped` what the calls
  -- of Pop that have returned true have stored; they are the model's own
  pub record Threads : Type ℓ where
    pub queue : SpscQueue T
    pub producer : Producer
    pub consumer : Consumer
    pub pushed : List T
    pub popped : List T

  -- the thread that takes a step; a new call of Push has the object
  pub data Turn : Type ℓ where
    push_turn : T → Turn
    pop_turn : Turn

module _ {ℓ} {T : Type ℓ} where
  unfoldable pub push_step : T → Threads T → Run (Threads T)
  unfolding next_index set_slot
  push_step x s = elim s.producer [
    | outside ↦ do
      next ← next_index s.queue.max_size s.queue.write_index
      ok (if next == s.queue.read_index then s else record s { producer = not_full x next })
    | not_full y next ↦ ok (record s {
      queue = set_slot s.queue.write_index (some y) s.queue;
      producer = built y next;
    })
    | built y next ↦ ok (record s {
      queue = record s.queue { write_index = next };
      producer = outside;
      pushed = s.pushed ++ y ∷ [];
    })
  ]

  -- `deref` is the object type's `operator*`, as for `pop`
  unfoldable pub pop_step : (T → T) → Threads T → Run (Threads T)
  unfolding next_index set_slot object
  pop_step deref s = elim s.consumer [
    | outside ↦
        ok (
          if s.queue.write_index == s.queue.read_index
          then s
          else record s { consumer = not_empty })
    | not_empty ↦ do
      x ← object s.queue s.queue.read_index
      ok (record s { consumer = copied (deref x) })
    | copied y ↦
        ok (record s { queue = set_slot s.queue.read_index none s.queue; consumer = destroyed y })
    | destroyed y ↦ do
      next ← next_index s.queue.max_size s.queue.read_index
      ok (record s {
        queue = record s.queue { read_index = next };
        consumer = outside;
        popped = s.popped ++ y ∷ [];
      })
  ]

  unfoldable pub run : (T → T) → List (Turn T) → Threads T → Run (Threads T)
  unfolding push_step pop_step
  run deref [] s = ok s
  run deref (push_turn x ∷ turns) s = push_step x s >>= λ t. run deref turns t
  run deref (pop_turn ∷ turns) s = pop_step deref s >>= λ t. run deref turns t

  -- both threads outside of the queue, before any call
  abbrev pub start : SpscQueue T → Threads T
  start q = record { queue = q; producer = outside; consumer = outside; pushed = []; popped = [] }
