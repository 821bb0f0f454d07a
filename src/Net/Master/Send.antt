-- ===== src/Net/Master/Send.antt =====
-- Send hands the data to the worker of the connection, or changes nothing.
use mzx.Array.{length, get_elem?}
use mzx.Base.{ℕ, ◌^◌, ◌≤◌, ◌<◌, ◌≡◌, ◌≢◌, Bool, true, false, some, List, [], ◌∷◌, ◌++◌, ◌⊎◌}
use mzx.Net.Buffer
use mzx.Net.Buffer.{NetBuffer}
use mzx.Net.Master.{NetMaster, NetWorker, send}

-- an empty buffer for `size` bytes
pub record IsBlank (size : ℕ) (b : NetBuffer) : Type 0 where
  pub start : b.write_pos ≡ 0
  pub wide : size ≤ b.size
  pub bounded : b.size < 2 ^ 64

-- the worker has got the buffer `b` with the data, as its last event
pub record IsSent (id : ℕ) (bytes : List ℕ) (w u : NetWorker) (b : ℕ) (rest : List ℕ) : Type 0 where
  pub taken : w.free_input_buffers ≡ b ∷ rest
  pub left : u.free_input_buffers ≡ rest
  pub queued : u.input_events ≡ w.input_events ++ send id b ∷ []
  pub filled : u.bytes b ≡ w.bytes b ++ bytes
  pub written : (u.buffer b).write_pos ≡ length bytes

-- what Send has done: the queue had room, a buffer was free and the data is with the worker, or
-- one of the two was missing and nothing has changed
pub Outcome : ℕ → ℕ → List ℕ → NetMaster → NetWorker → NetMaster → Bool → Type 0
Outcome id i bytes m w t sent =
    ((sent ≡ true)
      × (length w.input_events < w.input_event_count)
      × ((u : NetWorker) × (b : ℕ) × (rest : List ℕ) × (get_elem? t.worker_list i ≡ some u)
          × IsSent id bytes w u b rest)
      × ((j : ℕ) → j ≢ i → get_elem? t.worker_list j ≡ get_elem? m.worker_list j))
    ⊎ ((sent ≡ false)
        × (t ≡ m)
        × ((w.input_event_count ≤ length w.input_events) ⊎ (w.free_input_buffers ≡ [])))
